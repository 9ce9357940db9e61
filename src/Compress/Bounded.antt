-- ===== src/Compress/Bounded.antt =====
-- What compression keeps and what it bounds.
use shopping_agent.Common.{
  ℕ, zero, suc, ◌-◌, ◌≤◌, min, max, ◌≡◌, refl, sym, subst, ap, true, false, Bool-cases, inl, inr,
  ◌⊎◌, some, List, [], ◌∷◌, ◌++◌, map, length, take, drop, leb, arith, All, length-append,
  length-take, length-drop, length-map,
}
use shopping_agent.Compress.{
  Message, Shape, context_message, dictionary, foreign, is_tool, suffix, rewritten,
  compress_message, compress_after_breakpoint,
}

-- Compression leaves objects of other types as they are.
abbrev pub IsBounded : ℕ → Message → Type 0
IsBounded limit m =
    (is_tool m ≡ false) ⊎ (m.shape ≡ foreign) ⊎ (length m.content ≤ max limit (length suffix))

pub record IsCompressed (messages : List Message) (breakpoint limit : ℕ) : Type 0 where
  pub result : List Message
  pub returned : compress_after_breakpoint messages breakpoint limit ≡ some result
  pub same_length : length result ≡ length messages
  pub same_prefix :
      take (min (length messages) breakpoint) result
      ≡ take (min (length messages) breakpoint) messages
  pub short : All (IsBounded limit) (drop (min (length messages) breakpoint) result)

module _ {ℓ} {A : Type ℓ} where
  take-append_take : (n : ℕ) (xs ys : List A) → n ≤ length xs → take n (take n xs ++ ys) ≡ take n xs
  take-append_take zero xs ys h = refl
  take-append_take (suc n) [] ys h = absurd (omega (arith, h))
  take-append_take (suc n) (x ∷ xs) ys h =
      ap (λ t. x ∷ t) (take-append_take n xs ys (omega (arith, h)))

  drop-append_take : (n : ℕ) (xs ys : List A) → n ≤ length xs → drop n (take n xs ++ ys) ≡ ys
  drop-append_take zero xs ys h = refl
  drop-append_take (suc n) [] ys h = absurd (omega (arith, h))
  drop-append_take (suc n) (x ∷ xs) ys h = drop-append_take n xs ys (omega (arith, h))

content-bound :
    (limit : ℕ) (t : List ℕ)
    → length (take (limit - length suffix) t ++ suffix) ≤ max limit (length suffix)
content-bound limit t = omega (
  arith,
  length-append (take (limit - length suffix) t) suffix,
  length-take (limit - length suffix) t,
)

rewritten-IsBounded :
    (limit : ℕ) (s : Shape) (m : Message)
    → m.shape ≡ s
    → is_tool m ≡ true
    → IsBounded limit (rewritten limit s m)
rewritten-IsBounded limit foreign m e t = inr (inl e)
rewritten-IsBounded limit context_message m e t = inr (inr (content-bound limit m.content))
rewritten-IsBounded limit dictionary m e t = inr (inr (content-bound limit m.content))

compress_message-IsBounded : (limit : ℕ) (m : Message) → IsBounded limit (compress_message limit m)
unfolding compress_message
compress_message-IsBounded limit m = elim (Bool-cases (is_tool m)) [
  | inr plain ↦ rw plain (inl plain)
  | inl tool ↦ elim (Bool-cases (leb (length m.content) limit)) [
    | inl fits ↦ rw (tool, fits) (inr (inr (ground (arith, fits))))
    | inr large ↦ rw (tool, large) (rewritten-IsBounded limit m.shape m refl tool)
  ]
]

All-compressed :
    (limit : ℕ) (ms : List Message) → All (IsBounded limit) (map (compress_message limit) ms)
All-compressed limit [] = tt
All-compressed limit (m ∷ ms) = (compress_message-IsBounded limit m, All-compressed limit ms)

-- For a positive limit, compression keeps the number of messages and the prefix, and every tool result
-- after it that is a context message or a dictionary has at most the limit's characters, or the
-- suffix's where the limit is smaller.
pub compress_after_breakpoint-IsCompressed :
    (messages : List Message) (breakpoint n : ℕ) → IsCompressed messages breakpoint (suc n)
unfolding compress_after_breakpoint
compress_after_breakpoint-IsCompressed messages breakpoint n =
    let boundary = min (length messages) breakpoint in
    let tail = map (compress_message (suc n)) (drop boundary messages) in
    record {
      result = take boundary messages ++ tail;
      returned = refl;
      same_length = omega (
        arith,
        length-append (take boundary messages) tail,
        length-take boundary messages,
        length-map (compress_message (suc n)) (drop boundary messages),
        length-drop boundary messages,
      );
      same_prefix = take-append_take boundary messages tail (omega arith);
      short =
          subst (All (IsBounded (suc n)))
            (sym (drop-append_take boundary messages tail (omega arith)))
            (All-compressed (suc n) (drop boundary messages));
    }
