-- ===== src/Queue/Heads.antt =====
-- Which request a worker takes: heaps stay heaps, so the first item is the least.
use shopping_agent.Common.{
  ℕ, ◌+◌, ◌≡◌, refl, sym, subst, ap, ◌∙◌, true, Option, none, some, List, [], ◌∷◌, Perm, arith,
}
use shopping_agent.Queue.Heap.{Request, Heapq, IsLeast}
use shopping_agent.Queue.Admission.{acquire-Admission}
use shopping_agent.Queue.{
  QueueType, normal, heavy, Config, Queues, Event, enqueued, discarded, acquiring, released,
  rebalanced, restarted, run, step, rebalance, enqueue, discard, acquire, release, reset,
  list_remove, queue, set_queue, active, set_active, is_request, admitted, replace_by, or_wait,
}

module _ (config : Config) where
  pub queue-rebalance :
      (kind : QueueType) (q : Queues) → queue kind (rebalance config q) ≡ queue kind q
  unfolding rebalance
  queue-rebalance normal q = ground arith
  queue-rebalance heavy q = ground arith

  pub active-rebalance :
      (kind : QueueType) (q : Queues) → active kind (rebalance config q) ≡ active kind q
  unfolding rebalance
  active-rebalance normal q = ground arith
  active-rebalance heavy q = ground arith

module _ (heapq : Heapq) where
  pub record IsHeaped (q : Queues) : Type 0 where
    pub normal_heap : heapq.IsHeap q.normal_queue
    pub heavy_heap : heapq.IsHeap q.heavy_queue

  queue-IsHeap : (kind : QueueType) (q : Queues) → IsHeaped q → heapq.IsHeap (queue kind q)
  queue-IsHeap normal q h = h.normal_heap
  queue-IsHeap heavy q h = h.heavy_heap

  set_queue-IsHeaped :
      (kind : QueueType) (items : List Request) (q : Queues)
      → heapq.IsHeap items
      → IsHeaped q
      → IsHeaped (set_queue kind items q)
  set_queue-IsHeaped normal items q i h = record { normal_heap = i; heavy_heap = h.heavy_heap }
  set_queue-IsHeaped heavy items q i h = record { normal_heap = h.normal_heap; heavy_heap = i }

  set_active-IsHeaped :
      (kind : QueueType) (n : ℕ) (q : Queues) → IsHeaped q → IsHeaped (set_active kind n q)
  set_active-IsHeaped normal n q h = record {
    normal_heap = h.normal_heap;
    heavy_heap = h.heavy_heap;
  }
  set_active-IsHeaped heavy n q h = record {
    normal_heap = h.normal_heap;
    heavy_heap = h.heavy_heap;
  }

  module _ (config : Config) where
    rebalance-IsHeaped : (q : Queues) → IsHeaped q → IsHeaped (rebalance config q)
    rebalance-IsHeaped q h = record {
      normal_heap = subst heapq.IsHeap (sym (queue-rebalance config normal q)) h.normal_heap;
      heavy_heap = subst heapq.IsHeap (sym (queue-rebalance config heavy q)) h.heavy_heap;
    }

    replace_by-IsHeaped :
        (kind : QueueType) (kept : Option (List Request)) (q : Queues)
        → IsHeaped q
        → IsHeaped (replace_by config heapq kind kept q)
    unfolding replace_by
    replace_by-IsHeaped kind none q h = h
    replace_by-IsHeaped kind (some kept) q h =
        rebalance-IsHeaped _
          (set_queue-IsHeaped kind (heapq.heapify kept) q (heapq.heapify-IsHeap kept) h)

    acquire-IsHeaped :
        (r : Request) (kind : QueueType) (q next : Queues)
        → IsHeaped q
        → acquire config heapq r kind q ≡ some next
        → IsHeaped next
    unfolding admitted
    acquire-IsHeaped r kind q next h e =
        let a = acquire-Admission config heapq r kind q next e in
        let heap = subst heapq.IsHeap a.heads (queue-IsHeap kind q h) in
        subst IsHeaped (sym a.result) (
          rebalance-IsHeaped _ (
            set_active-IsHeaped kind _ _
              (set_queue-IsHeaped kind _ q (heapq.heappop-IsHeap a.first a.rest heap) h)))

    or_wait-IsHeaped :
        (r : Request) (kind : QueueType) (q : Queues) (found : Option Queues)
        → IsHeaped q
        → acquire config heapq r kind q ≡ found
        → IsHeaped (or_wait q found)
    or_wait-IsHeaped r kind q none h e = h
    or_wait-IsHeaped r kind q (some next) h e = acquire-IsHeaped r kind q next h e

    step-IsHeaped : (e : Event) (q : Queues) → IsHeaped q → IsHeaped (step config heapq e q)
    unfolding step enqueue discard release reset
    step-IsHeaped (enqueued r kind) q h =
        rebalance-IsHeaped _
          (set_queue-IsHeaped kind _ q (heapq.heappush-IsHeap r _ (queue-IsHeap kind q h)) h)
    step-IsHeaped (discarded r kind) q h =
        replace_by-IsHeaped kind (list_remove r (queue kind q)) q h
    step-IsHeaped (acquiring r kind) q h =
        or_wait-IsHeaped r kind q (acquire config heapq r kind q) h refl
    step-IsHeaped (released kind) q h = rebalance-IsHeaped _ (set_active-IsHeaped kind _ q h)
    step-IsHeaped rebalanced q h = rebalance-IsHeaped q h
    step-IsHeaped restarted q h = record {
      normal_heap = heapq.empty-IsHeap;
      heavy_heap = heapq.empty-IsHeap;
    }

    run-IsHeaped : (es : List Event) (q : Queues) → IsHeaped q → IsHeaped (run config heapq es q)
    unfolding run
    run-IsHeaped [] q h = h
    run-IsHeaped (e ∷ es) q h = run-IsHeaped es (step config heapq e q) (step-IsHeaped e q h)

-- A worker of the class went to the request, the first of its queue and of the least priority value
-- there; nobody else left the queue.
pub record TookLeast (config : Config) (r : Request) (kind : QueueType) (q next : Queues)
    : Type 0 where
  pub first : Request
  pub rest : List Request
  pub heads : queue kind q ≡ first ∷ rest
  pub same : is_request first r ≡ true
  pub least : IsLeast first rest
  pub left : Perm (queue kind next) rest
  pub counted : active kind next ≡ active kind q + 1

module _ (heapq : Heapq) (config : Config) (r : Request) where
  queue-admitted :
      (kind : QueueType) (first : Request) (rest : List Request) (q : Queues)
      → queue kind (admitted config heapq kind first rest q) ≡ heapq.heappop first rest
  unfolding admitted
  queue-admitted normal first rest q = queue-rebalance config normal _
  queue-admitted heavy first rest q = queue-rebalance config heavy _

  active-admitted :
      (kind : QueueType) (first : Request) (rest : List Request) (q : Queues)
      → active kind (admitted config heapq kind first rest q) ≡ active kind q + 1
  unfolding admitted
  active-admitted normal first rest q = active-rebalance config normal _
  active-admitted heavy first rest q = active-rebalance config heavy _

  -- After any sequence of events on queues that are heaps, a request that a round of `acquire` admits
  -- was first in its queue, no queued request of its class has a lower priority value, exactly it
  -- left the queue, and one more worker of the class is active.
  pub acquire-TookLeast :
      (es : List Event) (start : Queues) (kind : QueueType) (next : Queues)
      → IsHeaped heapq start
      → acquire config heapq r kind (run config heapq es start) ≡ some next
      → TookLeast config r kind (run config heapq es start) next
  acquire-TookLeast es start kind next h e =
      let q = run config heapq es start in
      let a = acquire-Admission config heapq r kind q next e in
      let heap =
        subst heapq.IsHeap a.heads
          (queue-IsHeap heapq kind q (run-IsHeaped heapq config es start h)) in
      record {
        first = a.first;
        rest = a.rest;
        heads = a.heads;
        same = a.same;
        least = heapq.heap-first a.first a.rest heap;
        left =
            subst (λ items. Perm items a.rest)
              (sym (ap (queue kind) a.result ∙ queue-admitted kind a.first a.rest q))
              (heapq.heappop-perm a.first a.rest);
        counted = ap (active kind) a.result ∙ active-admitted kind a.first a.rest q;
      }
