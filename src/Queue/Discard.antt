-- ===== src/Queue/Discard.antt =====
-- Which request `discard` removes.
use mathlib.Core.List.Perm
use shopping_agent.Common.{
  ◌≡◌, refl, sym, subst, ap, ◌∙◌, Option, none, some, List, [], ◌∷◌, Perm, arith, ℕ_discrete,
  some-injective,
}
use shopping_agent.Queue.Heap.{Request, Heapq}
use shopping_agent.Queue.Heads.{queue-rebalance}
use shopping_agent.Queue.{
  QueueType, normal, heavy, Config, Queues, discard, list_remove, queue, replace_by, keep_item,
}

-- Removing one item leaves the others.
pub record Removal (r : Request) (items kept : List Request) : Type 0 where
  pub victim : Request
  pub alike : victim.priority ≡ r.priority
  pub others : Perm items (victim ∷ kept)

module _ (r : Request) where
  remove_under :
      (x : Request) (xs : List Request) (kept : List Request)
      → Removal r xs kept
      → Removal r (x ∷ xs) (x ∷ kept)
  remove_under x xs kept m = record {
    victim = m.victim;
    alike = m.alike;
    others = Perm.trans (Perm.cons x m.others) (Perm.swap m.victim x kept);
  }

  list_remove-Removal :
      (items kept : List Request) → list_remove r items ≡ some kept → Removal r items kept
  unfolding list_remove
  list_remove-Removal [] kept e = absurd (ground arith)
  list_remove-Removal (x ∷ xs) kept e = elim (ℕ_discrete x.priority r.priority) [
    | yes same ↦ here same (ground arith)
    | no differs ↦ there (list_remove r xs) (λ ks. list_remove-Removal xs ks) refl (ground arith)
  ]
    where
      here : x.priority ≡ r.priority → xs ≡ kept → Removal r (x ∷ xs) kept
      here same k = record {
        victim = x;
        alike = same;
        others = subst (λ ks. Perm (x ∷ xs) (x ∷ ks)) k (Perm.refl (x ∷ xs));
      }

      there :
          (found : Option (List Request))
          → ((ks : List Request) → list_remove r xs ≡ some ks → Removal r xs ks)
          → list_remove r xs ≡ found
          → keep_item x found ≡ some kept
          → Removal r (x ∷ xs) kept
      there none m f k = absurd (ground arith)
      there (some ks) m f k =
          subst (Removal r (x ∷ xs)) (some-injective (x ∷ ks) kept k)
            (remove_under x xs ks (m ks f))

  list_remove-first :
      (x : Request) (xs : List Request) → x.priority ≡ r.priority → list_remove r (x ∷ xs) ≡ some xs
  unfolding list_remove
  list_remove-first x xs e = ground arith

  module _ (config : Config) (heapq : Heapq) where
    queue-replace_by :
        (kind : QueueType) (kept : List Request) (q : Queues)
        → queue kind (replace_by config heapq kind (some kept) q) ≡ heapq.heapify kept
    unfolding replace_by
    queue-replace_by normal kept q = queue-rebalance config normal _
    queue-replace_by heavy kept q = queue-rebalance config heavy _

    -- Where the first request in the queue has the priority of the discarded one, it is the first
    -- that leaves, whichever request was discarded: every other request stays queued.
    pub discard-first :
        (kind : QueueType) (q : Queues) (first : Request) (rest : List Request)
        → queue kind q ≡ first ∷ rest
        → first.priority ≡ r.priority
        → Perm (queue kind (discard config heapq r kind q)) rest
    unfolding discard
    discard-first kind q first rest e p =
        subst (λ items. Perm items rest)
          (sym (
            ap (λ found. queue kind (replace_by config heapq kind found q))
              (ap (list_remove r) e ∙ list_remove-first first rest p)
            ∙ queue-replace_by kind rest q))
          (heapq.heapify-perm rest)

    -- When the queue holds a request that equals the discarded one, one request of the same priority
    -- leaves and every other stays queued.
    pub discard-Removal :
        (kind : QueueType) (q : Queues) (kept : List Request)
        → list_remove r (queue kind q) ≡ some kept
        → Removal r (queue kind q) (queue kind (discard config heapq r kind q))
    unfolding discard
    discard-Removal kind q kept e =
        let m = list_remove-Removal (queue kind q) kept e in
        let emptied =
          ap (λ found. queue kind (replace_by config heapq kind found q)) e
          ∙ queue-replace_by kind kept q in
        record {
          victim = m.victim;
          alike = m.alike;
          others =
              subst (λ items. Perm (queue kind q) (m.victim ∷ items)) (sym emptied)
                (Perm.trans m.others (Perm.cons m.victim (Perm.symm (heapq.heapify-perm kept))));
        }
