-- ===== src/Queue/Admission.antt =====
-- What a successful round of `acquire` found and did.
use shopping_agent.Common.{◌<◌, ◌≡◌, refl, true, some, List, [], ◌∷◌, arith}
use shopping_agent.Queue.Heap.{Request, Heapq}
use shopping_agent.Queue.{
  QueueType, Config, Queues, queue, active, capacity, is_request, admitted, acquire_from, acquire,
}

pub record Admission (config : Config) (heapq : Heapq) (r : Request) (kind : QueueType)
    (items : List Request) (q next : Queues) : Type 0 where
  pub first : Request
  pub rest : List Request
  pub heads : items ≡ first ∷ rest
  pub same : is_request first r ≡ true
  pub room : active kind q < capacity config kind q
  pub result : next ≡ admitted config heapq kind first rest q

module _ (config : Config) (heapq : Heapq) (r : Request) (kind : QueueType) (q next : Queues) where
  acquire_from-Admission :
      (items : List Request)
      → acquire_from config heapq r kind items q ≡ some next
      → Admission config heapq r kind items q next
  unfolding acquire_from
  acquire_from-Admission [] e = absurd (ground arith)
  acquire_from-Admission (first ∷ rest) e = record {
    first = first;
    rest = rest;
    heads = refl;
    same = ground arith;
    room = ground arith;
    result = ground arith;
  }

  pub acquire-Admission :
      acquire config heapq r kind q ≡ some next
      → Admission config heapq r kind (queue kind q) q next
  unfolding acquire
  acquire-Admission e = acquire_from-Admission (queue kind q) e
