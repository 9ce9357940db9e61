-- ===== src/Queue.antt =====
-- app/resilience/request_queue.py: the dual priority queue in front of the workers. An operation that
-- holds the condition's lock is one function; a caller that waits is one whose `acquire` is `none`.
pub mod Heap
mod Admission
mod Capacity
mod Heads
mod Discard
mod Examples
use shopping_agent.Common.{
  ℕ, zero, suc, ◌+◌, ◌-◌, ◌/◌, ◌<◌, max, ◌≡◌, Bool, true, false, ◌&&◌, ◌||◌, Option, none, some,
  List, [], ◌∷◌, Text, length, sort, by_key, nat_order, leb, ltb, ◌==◌, if◌then◌else◌,
}
use shopping_agent.Queue.Heap.{Request, Heapq}

pub data QueueType : Type 0 where
  normal heavy : QueueType

-- The numbers given to `__init__`, which refuses worker counts of zero.
pub record Config : Type 0 where
  pub normal_workers : ℕ
  pub heavy_workers : ℕ
  pub heavy_threshold : ℕ
  pub rebalance_threshold : ℕ

-- The fields of `PriorityRequestQueue` that change.
pub record Queues : Type 0 where
  pub normal_queue : List Request
  pub heavy_queue : List Request
  pub normal_active : ℕ
  pub heavy_active : ℕ
  pub heavy_limit : ℕ

-- `__init__`
unfoldable pub init : ℕ → ℕ → ℕ → ℕ → Option (Config × Queues)
init normal_workers heavy_workers heavy_threshold rebalance_threshold =
    if ltb normal_workers 1 || ltb heavy_workers 1
    then none
    else some (
      record {
        normal_workers = normal_workers;
        heavy_workers = heavy_workers;
        heavy_threshold = max 1 heavy_threshold;
        rebalance_threshold = max 1 rebalance_threshold;
      },
      record {
        normal_queue = [];
        heavy_queue = [];
        normal_active = 0;
        heavy_active = 0;
        heavy_limit = heavy_workers;
      },
    )

-- `request is item`
abbrev pub is_request : Request → Request → Bool
is_request a b = a.object == b.object

index_of : Request → List Request → ℕ → ℕ
index_of r [] i = 0
index_of r (x ∷ xs) i = if is_request x r then i + 1 else index_of r xs (i + 1)

abbrev pub keep_item : Request → Option (List Request) → Option (List Request)
keep_item x none = none
keep_item x (some kept) = some (x ∷ kept)

-- `queue.remove(request)`: the first item that equals the request. The generated `__eq__` of the
-- dataclass compares the one field with `compare`, the priority. `none` is ValueError.
unfoldable pub list_remove : Request → List Request → Option (List Request)
list_remove r [] = none
list_remove r (x ∷ xs) =
    let rest = list_remove r xs in if x.priority == r.priority then some xs else keep_item x rest

abbrev pub queue : QueueType → Queues → List Request
queue heavy q = q.heavy_queue
queue normal q = q.normal_queue

abbrev pub set_queue : QueueType → List Request → Queues → Queues
set_queue heavy items q = record q { heavy_queue = items }
set_queue normal items q = record q { normal_queue = items }

abbrev pub active : QueueType → Queues → ℕ
active heavy q = q.heavy_active
active normal q = q.normal_active

abbrev pub set_active : QueueType → ℕ → Queues → Queues
set_active heavy n q = record q { heavy_active = n }
set_active normal n q = record q { normal_active = n }

-- `_position_locked`
unfoldable pub position : Request → QueueType → Queues → ℕ
unfolding index_of sort
position r kind q = index_of r (sort (by_key (λ x. x.priority) nat_order) (queue kind q)) 0

module _ (config : Config) where
  unfoldable pub classify : ℕ → QueueType
  classify dialog_turns = if leb config.heavy_threshold dialog_turns then heavy else normal

  abbrev pub capacity : QueueType → Queues → ℕ
  capacity heavy q = q.heavy_limit
  capacity normal q = config.normal_workers

  -- `_rebalance_locked`
  unfoldable pub rebalance : Queues → Queues
  rebalance q =
      if ltb config.rebalance_threshold (length q.normal_queue)
      then record q { heavy_limit = max 1 (config.heavy_workers / 2) }
      else if ltb (length q.normal_queue) (config.rebalance_threshold / 4 + 1)
      then record q { heavy_limit = config.heavy_workers }
      else q

  module _ (heapq : Heapq) where
    unfoldable pub enqueue : Request → QueueType → Queues → Queues
    unfolding rebalance
    enqueue r kind q = rebalance (set_queue kind (heapq.heappush r (queue kind q)) q)

    unfoldable pub replace_by : QueueType → Option (List Request) → Queues → Queues
    unfolding rebalance
    replace_by kind none q = q
    replace_by kind (some kept) q = rebalance (set_queue kind (heapq.heapify kept) q)

    -- `_remove`, for `discard` and for a cancelled `acquire`.
    unfoldable pub discard : Request → QueueType → Queues → Queues
    unfolding replace_by list_remove
    discard r kind q = replace_by kind (list_remove r (queue kind q)) q

    unfoldable pub admitted : QueueType → Request → List Request → Queues → Queues
    unfolding rebalance
    admitted kind first rest q =
        rebalance
          (set_active kind (active kind q + 1) (set_queue kind (heapq.heappop first rest) q))

    unfoldable pub acquire_from : Request → QueueType → List Request → Queues → Option Queues
    unfolding admitted
    acquire_from r kind [] q = none
    acquire_from r kind (first ∷ rest) q =
        if is_request first r && ltb (active kind q) (capacity kind q)
        then some (admitted kind first rest q)
        else none

    -- One round of the loop of `acquire`: `none` waits for the next notification.
    unfoldable pub acquire : Request → QueueType → Queues → Option Queues
    unfolding acquire_from
    acquire r kind q = acquire_from r kind (queue kind q) q

  -- The end of an admitted operation.
  unfoldable pub release : QueueType → Queues → Queues
  unfolding rebalance
  release kind q = rebalance (set_active kind (active kind q - 1) q)

  -- `reset`
  unfoldable pub reset : Queues → Queues
  reset q = record {
    normal_queue = [];
    heavy_queue = [];
    normal_active = 0;
    heavy_active = 0;
    heavy_limit = config.heavy_workers;
  }

-- What callers do to the queue, in the order in which they hold the lock.
pub data Event : Type 0 where
  enqueued discarded acquiring : Request → QueueType → Event
  released : QueueType → Event
  rebalanced restarted : Event

-- A caller that waits changes nothing.
abbrev pub or_wait : Queues → Option Queues → Queues
or_wait q none = q
or_wait q (some next) = next

module _ (config : Config) (heapq : Heapq) where
  unfoldable pub step : Event → Queues → Queues
  unfolding enqueue discard acquire release rebalance reset
  step (enqueued r kind) q = enqueue config heapq r kind q
  step (discarded r kind) q = discard config heapq r kind q
  step (acquiring r kind) q = or_wait q (acquire config heapq r kind q)
  step (released kind) q = release config kind q
  step rebalanced q = rebalance config q
  step restarted q = reset config q

  unfoldable pub run : List Event → Queues → Queues
  unfolding step
  run [] q = q
  run (e ∷ es) q = run es (step e q)
