-- ===== src/Queue/Heap.antt =====
-- The requests of app/resilience/request_queue.py and what the queue relies on in Python's `heapq`, for
-- any way in which it orders equal priorities.
use mathlib.Core.List.Perm
use shopping_agent.Common.{
  ℕ, ◌≡◌, true, Option, List, [], ◌∷◌, Perm, Text, All, leb, Order, by_key, nat_order, insert, sort,
  sort-perm, IsSorted, sort-IsSorted, insert-IsSorted, insert-perm,
}

-- `PrioritizedRequest`; `object` is the identity of the Python object.
pub record Request : Type 0 where
  pub object : ℕ
  pub priority : ℕ
  pub timestamp : ℕ
  pub thread_id : Text
  pub query : Text
  pub user_id : Option Text

abbrev pub IsLeast : Request → List Request → Type 0
IsLeast first rest = All (λ x. leb first.priority x.priority ≡ true) rest

-- `heapq` over the order of the priorities. `heappop first rest` is what is left of the heap
-- `first ∷ rest` without its first item.
pub record Heapq : Type 1 where
  pub IsHeap : List Request → Type 0
  pub heappush : Request → List Request → List Request
  pub heappop : Request → List Request → List Request
  pub heapify : List Request → List Request
  pub empty-IsHeap : IsHeap []
  pub heap-first :
      (first : Request) (rest : List Request) → IsHeap (first ∷ rest) → IsLeast first rest
  pub heappush-IsHeap : (r : Request) (h : List Request) → IsHeap h → IsHeap (heappush r h)
  pub heappush-perm : (r : Request) (h : List Request) → Perm (heappush r h) (r ∷ h)
  pub heappop-IsHeap :
      (first : Request) (rest : List Request) → IsHeap (first ∷ rest) → IsHeap (heappop first rest)
  pub heappop-perm : (first : Request) (rest : List Request) → Perm (heappop first rest) rest
  pub heapify-IsHeap : (items : List Request) → IsHeap (heapify items)
  pub heapify-perm : (items : List Request) → Perm (heapify items) items

abbrev pub priority_order : Order Request
priority_order = by_key (λ r. r.priority) nat_order

-- A sorted list is a heap.
unfoldable pub sorted_heap : Heapq
sorted_heap = record {
  IsHeap = IsSorted priority_order;
  heappush = insert priority_order;
  heappop = λ first rest. rest;
  heapify = sort priority_order;
  empty-IsHeap = tt;
  heap-first = λ first rest h. h.0;
  heappush-IsHeap = insert-IsSorted priority_order;
  heappush-perm = insert-perm priority_order;
  heappop-IsHeap = λ first rest h. h.1;
  heappop-perm = λ first rest. Perm.refl rest;
  heapify-IsHeap = sort-IsSorted priority_order;
  heapify-perm = sort-perm priority_order;
}
