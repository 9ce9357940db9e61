-- ===== src/Compress/Prefix.antt =====
-- The recent window, and what compression leaves alone.
use shopping_agent.Common.{
  ℕ, zero, suc, ◌+◌, ◌-◌, ◌≤◌, ◌<◌, ◌≡◌, refl, sym, ap, ◌∙◌, Bool-cases, inl, inr, ◌⊎◌, some, List,
  [], ◌∷◌, length, drop, count_if, leb, arith,
}
use shopping_agent.Compress.{Message, is_tool, tool_indices, nth, compute_breakpoint}

length-tool_indices : (i : ℕ) (ms : List Message) → length (tool_indices i ms) ≡ count_if is_tool ms
unfolding tool_indices
length-tool_indices i [] = refl
length-tool_indices i (m ∷ ms) = ground (arith, length-tool_indices (i + 1) ms)

-- The index of a tool message, counted from the start of the rest, and the tool messages from it on.
record Points (i : ℕ) (ms : List Message) (n p : ℕ) : Type 0 where
  from : ℕ
  place : p ≡ i + from
  recent : count_if is_tool (drop from ms) ≡ count_if is_tool ms - n

later-Points :
    (i : ℕ) (m : Message) (ms : List Message) (n k p : ℕ)
    → count_if is_tool (m ∷ ms) - k ≡ count_if is_tool ms - n
    → Points (i + 1) ms n p
    → Points i (m ∷ ms) k p
later-Points i m ms n k p e h = record {
  from = suc h.from;
  place = omega (arith, h.place);
  recent = h.recent ∙ sym e;
}

-- An index into a list exists below its length.
record Found (n : ℕ) (is : List ℕ) : Type 0 where
  value : ℕ
  found : nth n is ≡ some value

nth-Found : (n : ℕ) (is : List ℕ) → n < length is → Found n is
unfolding nth
nth-Found n [] h = absurd (omega (arith, h))
nth-Found zero (i ∷ is) h = record { value = i; found = refl }
nth-Found (suc n) (i ∷ is) h =
    let f = nth-Found n is (omega (arith, h)) in record { value = f.value; found = f.found }

nth-Points :
    (i : ℕ) (ms : List Message) (n p : ℕ) → nth n (tool_indices i ms) ≡ some p → Points i ms n p
unfolding tool_indices nth
nth-Points i [] n p h = absurd (ground arith)
nth-Points i (m ∷ ms) zero p h = elim (Bool-cases (is_tool m)) [
  | inl tool ↦ record { from = 0; place = ground (arith, h, tool); recent = ground arith }
  | inr plain ↦
      later-Points i m ms zero zero p (ground (arith, plain))
        (nth-Points (i + 1) ms zero p (ground (arith, h, plain)))
]
nth-Points i (m ∷ ms) (suc n) p h = elim (Bool-cases (is_tool m)) [
  | inl tool ↦
      later-Points i m ms n (suc n) p (ground (arith, tool))
        (nth-Points (i + 1) ms n p (ground (arith, h, tool)))
  | inr plain ↦
      later-Points i m ms (suc n) (suc n) p (ground (arith, plain))
        (nth-Points (i + 1) ms (suc n) p (ground (arith, h, plain)))
]

-- Where the recent window of `keep` tool messages starts.
pub record IsWindow (messages : List Message) (keep : ℕ) : Type 0 where
  pub index : ℕ
  pub computed : compute_breakpoint messages keep ≡ some index
  pub window :
      (count_if is_tool (drop index messages) ≡ keep)
      ⊎ ((index ≡ length messages) × (count_if is_tool messages ≤ keep))

-- For every positive window, a breakpoint is found: either exactly that many tool messages follow it,
-- or the conversation has no more than that many and all of it is the prefix.
pub compute_breakpoint-IsWindow : (messages : List Message) (k : ℕ) → IsWindow messages (suc k)
unfolding compute_breakpoint
compute_breakpoint-IsWindow messages k =
    let counted = length-tool_indices 0 messages in
    elim (Bool-cases (leb (length (tool_indices 0 messages)) (suc k))) [
      | inl few ↦ record {
        index = length messages;
        computed = rw few refl;
        window = inr (refl, ground (arith, counted, few));
      }
      | inr many ↦
          let f =
            nth-Found (length (tool_indices 0 messages) - suc k) (tool_indices 0 messages)
              (ground (arith, many)) in
          let points = nth-Points 0 messages _ f.value f.found in
          record {
            index = f.value;
            computed = rw many f.found;
            window = inl (
                ap (λ i. count_if is_tool (drop i messages)) (omega (arith, points.place))
                ∙ points.recent
                ∙ ground (arith, counted, many));
          }
    ]
