-- ===== src/Common/Sorting.antt =====
-- Boolean total preorders as values, built from sort keys, and a stable sort by them.
use Prim.Native.Nat.{ℕ, zero, suc, ◌+◌}
use mathlib.Core.Path.{◌≡◌, refl}
use mathlib.Core.Logic.{inl, inr}
use mathlib.Core.Bool.{Bool, true, not, ◌&&◌, ◌||◌}
use mathlib.Core.List.{List, [], ◌∷◌, ◌++◌, Perm}
use mathlib.Core.List.Perm
use native.Mathlib.Omega.{arith}
use shopping_agent.Common.Tests.{leb, if◌then◌else◌, Bool-cases}
use shopping_agent.Common.Lists.{All, All-take, take, length, count_if}
use shopping_agent.Common.Texts.{Text, text_leb, text_leb-total, text_leb_trans}

pub record Order {ℓ} (A : Type ℓ) : Type ℓ where
  pub le : A → A → Bool
  pub total : (a b : A) → (le a b || le b a) ≡ true
  pub trans : (a b c : A) → le a b ≡ true → le b c ≡ true → le a c ≡ true

pub leb-total : (a b : ℕ) → (leb a b || leb b a) ≡ true
leb-total a b = ground arith

pub leb_trans : (a b c : ℕ) → leb a b ≡ true → leb b c ≡ true → leb a c ≡ true
leb_trans a b c p q = ground arith

abbrev pub nat_order : Order ℕ
nat_order = record { le = leb; total = leb-total; trans = leb_trans }

abbrev pub text_order : Order Text
text_order = record { le = text_leb; total = text_leb-total; trans = text_leb_trans }

-- Descending.
abbrev pub reversed {ℓ} : {A : Type ℓ} → Order A → Order A
reversed o = record {
  le = λ a b. o.le b a;
  total = λ a b. o.total b a;
  trans = λ a b c p q. o.trans c b a q p;
}

abbrev pub by_key {ℓ κ} : {A : Type ℓ} {K : Type κ} → (A → K) → Order K → Order A
by_key f o = record {
  le = λ a b. o.le (f a) (f b);
  total = λ a b. o.total (f a) (f b);
  trans = λ a b c. o.trans (f a) (f b) (f c);
}

abbrev pub both_le : Bool → Bool → Bool → Bool
both_le forth back next = forth && (not back || next)

pub lex-total :
    (p q r s : Bool) → (p || q) ≡ true → (r || s) ≡ true → (both_le p q r || both_le q p s) ≡ true
lex-total p q r s h k = ground arith

module _ {ℓ} {A : Type ℓ} (o r : Order A) where
  pub lex_trans :
      (a b c : A)
      → both_le (o.le a b) (o.le b a) (r.le a b) ≡ true
      → both_le (o.le b c) (o.le c b) (r.le b c) ≡ true
      → both_le (o.le a c) (o.le c a) (r.le a c) ≡ true
  lex_trans a b c p q = ground (arith, o.trans a b c, o.trans c a b, o.trans b c a, r.trans a b c)

-- First by one order, and among equals by the next: a tuple of keys.
infixr 40 ◌then_by◌
abbrev pub ◌then_by◌ {ℓ} : {A : Type ℓ} → Order A → Order A → Order A
o then_by r = record {
  le = λ a b. both_le (o.le a b) (o.le b a) (r.le a b);
  total = λ a b. lex-total (o.le a b) (o.le b a) (r.le a b) (r.le b a) (o.total a b) (r.total a b);
  trans = lex_trans o r;
}

module _ {ℓ} {A : Type ℓ} (o : Order A) where
  unfoldable pub insert : A → List A → List A
  insert x [] = x ∷ []
  insert x (y ∷ ys) = if o.le x y then x ∷ y ∷ ys else y ∷ insert x ys

  -- `sorted(xs, key=...)`: equal keys keep their order.
  unfoldable pub sort : List A → List A
  unfolding insert
  sort [] = []
  sort (x ∷ xs) = insert x (sort xs)

  abbrev pub IsSorted : List A → Type 0
  IsSorted [] = Unit
  IsSorted (x ∷ xs) = All (λ y. o.le x y ≡ true) xs × IsSorted xs

  pub insert-perm : (x : A) (xs : List A) → Perm (insert x xs) (x ∷ xs)
  unfolding insert
  insert-perm x [] = Perm.refl (x ∷ [])
  insert-perm x (y ∷ ys) = elim (Bool-cases (o.le x y)) [
    | inl e ↦ rw e (Perm.refl (x ∷ y ∷ ys))
    | inr e ↦ rw e (Perm.trans (Perm.cons y (insert-perm x ys)) (Perm.swap x y ys))
  ]

  pub sort-perm : (xs : List A) → Perm (sort xs) xs
  unfolding sort
  sort-perm [] = Perm.refl []
  sort-perm (x ∷ xs) = Perm.trans (insert-perm x (sort xs)) (Perm.cons x (sort-perm xs))

  All-weaken :
      (x y : A) (ys : List A)
      → o.le x y ≡ true
      → All (λ z. o.le y z ≡ true) ys
      → All (λ z. o.le x z ≡ true) ys
  All-weaken x y [] h k = tt
  All-weaken x y (z ∷ zs) h k = (o.trans x y z h k.0, All-weaken x y zs h k.1)

  All-insert {κ} : (P : A → Type κ) (x : A) (xs : List A) → P x → All P xs → All P (insert x xs)
  unfolding insert
  All-insert P x [] h k = (h, tt)
  All-insert P x (y ∷ ys) h k = elim (Bool-cases (o.le x y)) [
    | inl e ↦ rw e (h, k)
    | inr e ↦ rw e (k.0, All-insert P x ys h k.1)
  ]

  pub All-sort {κ} : (P : A → Type κ) (xs : List A) → All P xs → All P (sort xs)
  unfolding sort
  All-sort P [] h = tt
  All-sort P (x ∷ xs) h = All-insert P x (sort xs) h.0 (All-sort P xs h.1)

  pub insert-IsSorted : (x : A) (xs : List A) → IsSorted xs → IsSorted (insert x xs)
  unfolding insert
  insert-IsSorted x [] s = (tt, tt)
  insert-IsSorted x (y ∷ ys) s = elim (Bool-cases (o.le x y)) [
    | inl e ↦ rw e ((e, All-weaken x y ys e s.0), s)
    | inr e ↦ rw e (
      All-insert (λ z. o.le y z ≡ true) x ys (ground (arith, o.total x y)) s.0,
      insert-IsSorted x ys s.1,
    )
  ]

  pub sort-IsSorted : (xs : List A) → IsSorted (sort xs)
  unfolding sort
  sort-IsSorted [] = tt
  sort-IsSorted (x ∷ xs) = insert-IsSorted x (sort xs) (sort-IsSorted xs)

  pub take-IsSorted : (n : ℕ) (xs : List A) → IsSorted xs → IsSorted (take n xs)
  take-IsSorted zero xs s = tt
  take-IsSorted (suc n) [] s = tt
  take-IsSorted (suc n) (x ∷ xs) s =
      (All-take (λ y. o.le x y ≡ true) n xs s.0, take-IsSorted n xs s.1)

  length-insert : (x : A) (xs : List A) → length (insert x xs) ≡ suc (length xs)
  unfolding insert
  length-insert x [] = refl
  length-insert x (y ∷ ys) = ground (arith, length-insert x ys)

  pub length-sort : (xs : List A) → length (sort xs) ≡ length xs
  unfolding sort
  length-sort [] = refl
  length-sort (x ∷ xs) = omega (arith, length-insert x (sort xs), length-sort xs)

  count_if-insert :
      (p : A → Bool) (x : A) (xs : List A)
      → count_if p (insert x xs) ≡ count_if p (x ∷ []) + count_if p xs
  unfolding insert
  count_if-insert p x [] = omega arith
  count_if-insert p x (y ∷ ys) = ground (arith, count_if-insert p x ys)

  pub count_if-sort : (p : A → Bool) (xs : List A) → count_if p (sort xs) ≡ count_if p xs
  unfolding sort
  count_if-sort p [] = refl
  count_if-sort p (x ∷ xs) = ground (arith, count_if-insert p x (sort xs), count_if-sort p xs)

  pub le_refl : (x : A) → o.le x x ≡ true
  le_refl x = ground (arith, o.total x x)

pub middle-perm {ℓ} : {A : Type ℓ} (x : A) (xs ys : List A) → Perm (xs ++ x ∷ ys) (x ∷ xs ++ ys)
middle-perm x [] ys = Perm.refl (x ∷ ys)
middle-perm x (z ∷ xs) ys =
    Perm.trans (Perm.cons z (middle-perm x xs ys)) (Perm.swap x z (xs ++ ys))

pub append_left-perm {ℓ} :
    {A : Type ℓ} (zs xs ys : List A) → Perm xs ys → Perm (zs ++ xs) (zs ++ ys)
append_left-perm [] xs ys p = p
append_left-perm (z ∷ zs) xs ys p = Perm.cons z (append_left-perm zs xs ys p)
