-- ===== src/Lib.antt =====
-- Verification of the shopping agent's own core logic. The program researches offers on several
-- marketplaces: providers are called behind a circuit breaker, prices are converted and compared, shipping
-- and import taxes are added, offers are matched and tested against the shopper's hard constraints, and a
-- shortlist is ranked. Requests wait in a dual priority queue, every task has a stored timeline of events,
-- and progress goes out over WebSockets.
--
-- Files and what they model:
-- - Circuit (Circuit.antt, Circuit/): app/provider_resilience.py. `before_call`, `success`, `failure`,
--   `execute`; what each attempt and the pause after it do is given by round.
-- - Pricing.Tax: app/tools/import_tax.py, `calculate_import_tax` by regime.
-- - Pricing.Compare: app/tools/price_compare.py, the loop over candidates as `visit_all`, then `finish`.
-- - Pricing.Shipping: app/tools/shipping_calc.py, the body of the loop as `land`, then the sort.
-- - Decision.Value, Decision.Constraint: app/tools/decision_engine.py, `_numeric` to `evaluate_constraint`.
-- - Decision.Identity, Decision.Identity.Groups: app/tools/identity_matcher.py.
-- - Decision.Engine: app/tools/decision_engine.py, the preference and evidence scores, `sort_key`,
--   `_relaxations` and `decision_engine`.
-- - Decision.Preferences: app/memory/injector.py, `resolve_preferences`.
-- - Memory: app/memory/commands.py, `_update_record` to `execute_memory_commands`, over the interface
--   PreferenceStore, which Memory.Store fills as app/memory/store.py does in memory; Memory.Fallback is
--   its `ResilientPreferenceStore`, over any primary.
-- - Harness: app/harness/phase.py and the gate of `_call_tool` in app/agent/main_agent.py.
-- - Harness.Middleware: app/harness/middleware.py, `register`, `clear`, `registered` and `run`; what a
--   hook does is an argument.
-- - Agent.Guard, Agent.Budget: app/agent/guard.py and app/agent/budget.py; the context variable is the
--   state.
-- - Compress: app/compress/breakpoint.py, `compute_breakpoint` and `compress_after_breakpoint`.
-- - Eval: app/eval/recall_metrics.py, recall and reciprocal rank as fractions.
-- - Queue: app/resilience/request_queue.py. One function per critical section; `run` folds any sequence
--   of them. Queue.Heap holds the interface of Python's heapq, with its documented laws.
-- - Transport: app/api/connection.py, one thread's entries of `ConnectionManager`.
-- - Tasks: app/api/server.py, one thread id of the task registry: Tasks.Timeline is `_record_event` and
--   `_record_task_result`, Tasks.Access the authorization, Tasks.Commands `get_task`, `_load_snapshot` and
--   `_prune_records`, Tasks.Lifecycle `create_task`, Tasks.Deletion `delete_task`,
--   Tasks.Cancellation `cancel_task`, Tasks.Clarification `_clarify_task_locked`, and Tasks.Actions any
--   sequence of these, of ends and losses of a run and of restarts; Tasks.Runtime is the gate of app/runtime.py. What an invariant must be closed under
--   to be kept by the last two endpoints is Tasks.Closed; Tasks.Gone and Tasks.Sound fill it. Whether a
--   file can be written, the reports be generated or data meets its model is an argument.
-- - Common: Boolean tests, lists, texts as code points, stable sorting by orders, Python's decimal
--   arithmetic with 28 digits.
--
-- How they meet: Pricing.Compare hands its price points to Pricing.Shipping, which calls Pricing.Tax;
-- Decision.Engine asks Decision.Preferences what of the memory takes part, reads landed offers, calls
-- Decision.Constraint for every hard constraint and Decision.Identity.Groups for an exact comparison.
--
-- Conventions: a float stands for the decimal that its repr denotes, and an instant is a number. Where
-- floats are made of decimals or added, in Pricing.Tax and Pricing.Shipping, the interpreter's two
-- operations are an argument (Floats in Common.Decimal). Prices of Pricing.Compare are
-- kept in cents. Texts are ASCII or CJK where Python's case and white space functions are used; NFKC case
-- folding is a parameter. `object` is the identity of a Python object. Loops are recursion on lists;
-- the retry loop is recursion on the attempts left, which is also its bound, so no fuel is chosen. The
-- only bounds are the source's: 100 candidates, 30 ranked prices, 12 items, 3 recommendations, and
-- `max_events` of history.
--
-- Not modelled: texts for display (titles, reasons, disclosures), the random part of the back-off and the
-- semaphore of a provider, destination names and time zones, the server's other routes,
-- model calls, recall, the discounted gain of the evaluation, the clients of the databases, reports,
-- and everything that is input or output.
pub mod Common
pub mod Circuit
pub mod Pricing
pub mod Decision
pub mod Queue
pub mod Transport
pub mod Tasks
pub mod Memory
pub mod Harness
pub mod Agent
pub mod Compress
pub mod Eval
