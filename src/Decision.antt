-- ===== src/Decision.antt =====
-- Hard constraints, identity, ranking and the final shortlist: app/tools/decision_engine.py and
-- identity_matcher.py.
pub mod Value
pub mod Constraint
pub mod Identity
pub mod Preferences
pub mod Engine
