-- ===== src/Agent.antt =====
-- Limits on one task of the agent: app/agent/guard.py and app/agent/budget.py.
pub mod Guard
pub mod Budget
