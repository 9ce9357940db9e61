-- ===== src/Queue/Capacity.antt =====
-- The worker budgets of the dual queue, over every order of its operations.
use shopping_agent.Common.{
  ℕ, ◌+◌, ◌-◌, ◌/◌, ◌≤◌, ◌<◌, max, ◌≡◌, refl, sym, subst, ◌⊎◌, inl, Option, none, some, List, [],
  ◌∷◌, arith,
}
use shopping_agent.Queue.Heap.{Request, Heapq}
use shopping_agent.Queue.Admission.{acquire-Admission}
use shopping_agent.Queue.{
  QueueType, normal, heavy, Config, Queues, Event, enqueued, discarded, acquiring, released,
  rebalanced, restarted, run, step, rebalance, enqueue, discard, acquire, release, reset,
  list_remove, queue, set_queue, active, set_active, capacity, admitted, replace_by, or_wait, init,
}

-- No class of work runs more operations than its workers, and the heavy limit is one of two.
pub record IsWithin (config : Config) (q : Queues) : Type 0 where
  pub normal_bound : q.normal_active ≤ config.normal_workers
  pub heavy_bound : q.heavy_active ≤ config.heavy_workers
  pub limit_choice :
      (q.heavy_limit ≡ config.heavy_workers) ⊎ (q.heavy_limit ≡ max 1 (config.heavy_workers / 2))

module _ (config : Config) where
  rebalance-IsWithin : (q : Queues) → IsWithin config q → IsWithin config (rebalance config q)
  unfolding rebalance
  rebalance-IsWithin q w = record {
    normal_bound = ground (arith, w.normal_bound);
    heavy_bound = ground (arith, w.heavy_bound);
    limit_choice = ground (arith, w.limit_choice);
  }

  set_queue-IsWithin :
      (kind : QueueType) (items : List Request) (q : Queues)
      → IsWithin config q
      → IsWithin config (set_queue kind items q)
  set_queue-IsWithin normal items q w = record {
    normal_bound = w.normal_bound;
    heavy_bound = w.heavy_bound;
    limit_choice = w.limit_choice;
  }
  set_queue-IsWithin heavy items q w = record {
    normal_bound = w.normal_bound;
    heavy_bound = w.heavy_bound;
    limit_choice = w.limit_choice;
  }

  limit_le :
      (q : Queues)
      → 1 ≤ config.heavy_workers
      → IsWithin config q
      → q.heavy_limit ≤ config.heavy_workers
  limit_le q pos w = ground (arith, w.limit_choice)

  enter-IsWithin :
      (kind : QueueType) (q : Queues)
      → 1 ≤ config.heavy_workers
      → active kind q < capacity config kind q
      → IsWithin config q
      → IsWithin config (set_active kind (active kind q + 1) q)
  enter-IsWithin normal q pos room w = record {
    normal_bound = omega arith;
    heavy_bound = w.heavy_bound;
    limit_choice = w.limit_choice;
  }
  enter-IsWithin heavy q pos room w = record {
    normal_bound = w.normal_bound;
    heavy_bound = omega (arith, limit_le q pos w);
    limit_choice = w.limit_choice;
  }

  leave-IsWithin :
      (kind : QueueType) (q : Queues)
      → IsWithin config q
      → IsWithin config (set_active kind (active kind q - 1) q)
  leave-IsWithin normal q w = record {
    normal_bound = omega (arith, w.normal_bound);
    heavy_bound = w.heavy_bound;
    limit_choice = w.limit_choice;
  }
  leave-IsWithin heavy q w = record {
    normal_bound = w.normal_bound;
    heavy_bound = omega (arith, w.heavy_bound);
    limit_choice = w.limit_choice;
  }

  module _ (heapq : Heapq) (pos : 1 ≤ config.heavy_workers) where
    replace_by-IsWithin :
        (kind : QueueType) (kept : Option (List Request)) (q : Queues)
        → IsWithin config q
        → IsWithin config (replace_by config heapq kind kept q)
    unfolding replace_by
    replace_by-IsWithin kind none q w = w
    replace_by-IsWithin kind (some kept) q w =
        rebalance-IsWithin _ (set_queue-IsWithin kind (heapq.heapify kept) q w)

    acquire-IsWithin :
        (r : Request) (kind : QueueType) (q next : Queues)
        → IsWithin config q
        → acquire config heapq r kind q ≡ some next
        → IsWithin config next
    unfolding admitted
    acquire-IsWithin r kind q next w e =
        let a = acquire-Admission config heapq r kind q next e in
        subst (IsWithin config) (sym a.result)
          (rebalance-IsWithin _ (entered kind (heapq.heappop a.first a.rest) q a.room w))
      where
        entered :
            (kind : QueueType) (items : List Request) (q : Queues)
            → active kind q < capacity config kind q
            → IsWithin config q
            → IsWithin config (set_active kind (active kind q + 1) (set_queue kind items q))
        entered normal items q room w =
            enter-IsWithin normal (set_queue normal items q) pos room
              (set_queue-IsWithin normal items q w)
        entered heavy items q room w =
            enter-IsWithin heavy (set_queue heavy items q) pos room
              (set_queue-IsWithin heavy items q w)

    or_wait-IsWithin :
        (r : Request) (kind : QueueType) (q : Queues)
        → IsWithin config q
        → IsWithin config (or_wait q (acquire config heapq r kind q))
    or_wait-IsWithin r kind q w = go (acquire config heapq r kind q) refl
      where
        go :
            (found : Option Queues)
            → acquire config heapq r kind q ≡ found
            → IsWithin config (or_wait q found)
        go none e = w
        go (some next) e = acquire-IsWithin r kind q next w e

    step-IsWithin :
        (e : Event) (q : Queues) → IsWithin config q → IsWithin config (step config heapq e q)
    unfolding step enqueue discard release reset
    step-IsWithin (enqueued r kind) q w =
        rebalance-IsWithin _ (set_queue-IsWithin kind (heapq.heappush r (queue kind q)) q w)
    step-IsWithin (discarded r kind) q w =
        replace_by-IsWithin kind (list_remove r (queue kind q)) q w
    step-IsWithin (acquiring r kind) q w = or_wait-IsWithin r kind q w
    step-IsWithin (released kind) q w = rebalance-IsWithin _ (leave-IsWithin kind q w)
    step-IsWithin rebalanced q w = rebalance-IsWithin q w
    step-IsWithin restarted q w = record {
      normal_bound = omega arith;
      heavy_bound = omega arith;
      limit_choice = inl refl;
    }

    run-IsWithin :
        (es : List Event) (q : Queues) → IsWithin config q → IsWithin config (run config heapq es q)
    unfolding run
    run-IsWithin [] q w = w
    run-IsWithin (e ∷ es) q w = run-IsWithin es (step config heapq e q) (step-IsWithin e q w)

init-Start :
    (n h t r : ℕ) (config : Config) (start : Queues)
    → init n h t r ≡ some (config, start)
    → (1 ≤ config.heavy_workers) × IsWithin config start
unfolding init
init-Start n h t r config start e = (
  ground arith,
  record { normal_bound = ground arith; heavy_bound = ground arith; limit_choice = ground arith },
)

-- From queues that `__init__` accepts, no sequence of enqueues, discards, attempts to acquire, releases,
-- rebalances and resets counts more active operations of a class than it has workers, and the heavy
-- limit stays the full number or its reduced half, at least one.
pub init-run-IsWithin :
    (heapq : Heapq) (normal_workers heavy_workers heavy_threshold rebalance_threshold : ℕ)
    → (config : Config) (start : Queues) (es : List Event)
    → init normal_workers heavy_workers heavy_threshold rebalance_threshold ≡ some (config, start)
    → IsWithin config (run config heapq es start)
init-run-IsWithin heapq n h t r config start es e =
    let s = init-Start n h t r config start e in run-IsWithin config heapq s.0 es start s.1
