-- ===== src/Decision/Identity/Compared.antt =====
-- app/tools/identity_matcher.py, the comparison of two offers' facts, read field by field.
use shopping_agent.Common.{
  ◌≡◌, refl, sym, ◌∙◌, ap, subst, Bool, true, false, ◌||◌, Bool-cases, inl, inr, Option, none, some,
  List, [], ◌∷◌, ◌++◌, Text, text_eq, text_eq_sound, text_eq_refl, text_mem, text_order, sort,
  insert, is_empty, arith,
}
use shopping_agent.Decision.Identity.{
  Facts, Comparison, keys, lookup, dedup, sorted_set, compare_fields, sort_field, without,
}

abbrev pub states : Option Text → Bool
states none = false
states (some v) = true

mem-append_left :
    (k : Text) (xs ys : List Text) → text_mem k xs ≡ true → text_mem k (xs ++ ys) ≡ true
unfolding text_mem
mem-append_left k [] ys h = cc
mem-append_left k (x ∷ xs) ys h = ground (arith, h, mem-append_left k xs ys)

mem-append_right :
    (k : Text) (xs ys : List Text) → text_mem k ys ≡ true → text_mem k (xs ++ ys) ≡ true
unfolding text_mem
mem-append_right k [] ys h = h
mem-append_right k (x ∷ xs) ys h = ground (arith, mem-append_right k xs ys h)

mem-keys :
    (k : Text) (facts : Facts) → states (lookup k facts) ≡ true → text_mem k (keys facts) ≡ true
unfolding lookup text_mem
mem-keys k [] h = cc
mem-keys k ((j, v) ∷ rest) h = elim (Bool-cases (text_eq j k)) [
  | inl same ↦
      subst (λ i. text_mem k (i ∷ keys rest) ≡ true) (sym (text_eq_sound j k same))
        (ground (arith, text_eq_refl k))
  | inr other ↦ ground (arith, h, other, mem-keys k rest)
]

mem-dedup : (k : Text) (xs : List Text) → text_mem k xs ≡ true → text_mem k (dedup xs) ≡ true
unfolding dedup text_mem
mem-dedup k [] h = h
mem-dedup k (x ∷ xs) h = elim (Bool-cases (text_mem x (dedup xs))) [
  | inr new ↦ rw new (ground (arith, h, mem-dedup k xs))
  | inl there ↦ rw there (elim (Bool-cases (text_eq k x)) [
    | inl same ↦ subst (λ j. text_mem j (dedup xs) ≡ true) (sym (text_eq_sound k x same)) there
    | inr other ↦ mem-dedup k xs (ground (arith, h, other))
  ])
]

mem-insert :
    (k x : Text) (xs : List Text) → text_mem k (insert text_order x xs) ≡ text_mem k (x ∷ xs)
unfolding insert text_mem
mem-insert k x [] = refl
mem-insert k x (y ∷ ys) = ground (arith, mem-insert k x ys)

mem-sort : (k : Text) (xs : List Text) → text_mem k (sort text_order xs) ≡ text_mem k xs
unfolding sort text_mem
mem-sort k [] = refl
mem-sort k (x ∷ xs) =
    mem-insert k x (sort text_order xs) ∙ ap (λ b. text_eq k x || b) (mem-sort k xs)

-- The comparison is of every field that a side states.
pub mem-sorted_set :
    (k : Text) (r c : Facts)
    → (states (lookup k r) || states (lookup k c)) ≡ true
    → text_mem k (sorted_set (keys r ++ keys c)) ≡ true
unfolding sorted_set sort
mem-sorted_set k r c h =
    mem-sort k (dedup (keys r ++ keys c))
    ∙ mem-dedup k (keys r ++ keys c) (elim (Bool-cases (states (lookup k r))) [
      | inl left ↦ mem-append_left k (keys r) (keys c) (mem-keys k r left)
      | inr silent ↦ mem-append_right k (keys r) (keys c) (mem-keys k c (ground (arith, h, silent)))
    ])

-- Both sides of a field that is neither missing nor in conflict.
abbrev pub Agree : Option Text → Option Text → Type 0
Agree (some v) (some w) = text_eq v w ≡ true
Agree _ _ = Unit

module _ (r c : Facts) where
  sort_field-conflicting :
      (f : Text) (a b : Option Text) (later : Comparison)
      → is_empty (sort_field f a b later).conflicting ≡ true
      → Agree a b × (is_empty later.conflicting ≡ true)
  sort_field-conflicting f none b later h = (tt, h)
  sort_field-conflicting f (some v) none later h = (tt, h)
  sort_field-conflicting f (some v) (some w) later h = ground (arith, h)

  pub conflicting-Agree :
      (k : Text) (fs : List Text)
      → text_mem k fs ≡ true
      → is_empty (compare_fields r c fs).conflicting ≡ true
      → Agree (lookup k r) (lookup k c)
  unfolding compare_fields text_mem
  conflicting-Agree k [] m h = cc
  conflicting-Agree k (f ∷ fs) m h =
      let (here, later) =
        sort_field-conflicting f (lookup f r) (lookup f c) (compare_fields r c fs) h in
      elim (Bool-cases (text_eq k f)) [
        | inl same ↦
            subst (λ j. Agree (lookup j r) (lookup j c)) (sym (text_eq_sound k f same)) here
        | inr other ↦ conflicting-Agree k fs (ground (arith, m, other)) later
      ]

  sort_field-missing :
      (f : Text) (a b : Option Text) (later : Comparison)
      → is_empty (sort_field f a b later).missing ≡ true
      → (states a ≡ true) × (states b ≡ true) × (is_empty later.missing ≡ true)
  sort_field-missing f none b later h = cc
  sort_field-missing f (some v) none later h = cc
  sort_field-missing f (some v) (some w) later h = ground (arith, h)

  pub missing-states :
      (k : Text) (fs : List Text)
      → text_mem k fs ≡ true
      → is_empty (compare_fields r c fs).missing ≡ true
      → (states (lookup k r) ≡ true) × (states (lookup k c) ≡ true)
  unfolding compare_fields text_mem
  missing-states k [] m h = cc
  missing-states k (f ∷ fs) m h =
      let (left, right, later) =
        sort_field-missing f (lookup f r) (lookup f c) (compare_fields r c fs) h in
      elim (Bool-cases (text_eq k f)) [
        | inl same ↦
            subst (λ j. (states (lookup j r) ≡ true) × (states (lookup j c) ≡ true))
              (sym (text_eq_sound k f same)) (left, right)
        | inr other ↦ missing-states k fs (ground (arith, m, other)) later
      ]

  sort_field-matched :
      (k f : Text) (a b : Option Text) (later : Comparison)
      → text_mem k (sort_field f a b later).matched ≡ true
      → (text_eq k f ≡ true → states a ≡ false → text_mem k later.matched ≡ true)
        × (text_eq k f ≡ false → text_mem k later.matched ≡ true)
  unfolding text_mem
  sort_field-matched k f none b later h = (λ s n. h, λ s. h)
  sort_field-matched k f (some v) none later h = (λ s n. h, λ s. h)
  sort_field-matched k f (some v) (some w) later h = (λ s n. cc, λ s. ground (arith, h, s))

  -- A field that matches is stated.
  pub matched-states :
      (k : Text) (fs : List Text)
      → text_mem k (compare_fields r c fs).matched ≡ true
      → states (lookup k r) ≡ true
  unfolding compare_fields text_mem
  matched-states k [] h = cc
  matched-states k (f ∷ fs) h =
      let (same_case, other_case) =
        sort_field-matched k f (lookup f r) (lookup f c) (compare_fields r c fs) h in
      elim (Bool-cases (text_eq k f)) [
        | inr other ↦ matched-states k fs (other_case other)
        | inl same ↦ elim (Bool-cases (states (lookup f r))) [
          | inl stated ↦
              subst (λ j. states (lookup j r) ≡ true) (sym (text_eq_sound k f same)) stated
          | inr silent ↦ matched-states k fs (same_case same silent)
        ]
      ]

pub without-mem :
    (k : Text) (ts found : List Text)
    → is_empty (without ts found) ≡ true
    → text_mem k ts ≡ true
    → text_mem k found ≡ true
unfolding text_mem
without-mem k [] found h m = cc
without-mem k (t ∷ ts) found h m = elim (Bool-cases (text_eq k t)) [
  | inl same ↦
      subst (λ j. text_mem j found ≡ true) (sym (text_eq_sound k t same)) (ground (arith, h))
  | inr other ↦ without-mem k ts found (ground (arith, h)) (ground (arith, m, other))
]
