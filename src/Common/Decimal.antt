-- ===== src/Common/Decimal.antt =====
-- Python's `decimal` in the default context: 28 significant digits, ROUND_HALF_EVEN, and
-- `quantize` to cents by ROUND_HALF_UP. Only values that are not negative occur; a value is
-- coefficient / 10 ^ scale. A float stands for the decimal that its `repr` denotes.
use Prim.Native.Nat.{ℕ, zero, suc, ◌+◌, ◌-◌, ◌*◌, ◌/◌, ◌%◌, ◌^◌, ◌≤◌, ◌<◌, max}
use mathlib.Core.Path.{◌≡◌, refl}
use native.Mathlib.Nat.{pow-suc, mul-le-mul_right, le_of_mul-le-mul_right, mod-lt, div-add-mod'}
use mathlib.Core.Bool.{Bool, true, false, ◌&&◌, ◌||◌}
use mathlib.Core.Option.{Option, none, some}
use native.Mathlib.Omega.{arith}
use shopping_agent.Common.Sorting.{Order}
use shopping_agent.Common.Tests.{ltb, leb, ◌==◌, if◌then◌else◌}

pub record Decimal : Type 0 where
  pub coefficient : ℕ
  pub scale : ℕ

-- What the interpreter makes of floats: `float(d)` of a decimal, and the sum of two floats.
pub record Floats : Type 0 where
  pub of_decimal : Decimal → Decimal
  pub plus : Decimal → Decimal → Decimal

abbrev pub decimal : ℕ → ℕ → Decimal
decimal c s = record { coefficient = c; scale = s }

-- The context's precision is 28 digits: the first coefficient with 29.
abbrev pub prec_limit : ℕ
prec_limit = 10000000000000000000000000000

-- How many digits a coefficient has beyond the precision; the fuel is the coefficient.
excess : ℕ → ℕ → ℕ
excess zero c = 0
excess (suc f) c = let more = suc (excess f (c / 10)) in if ltb c prec_limit then 0 else more

round_half_even : ℕ → ℕ → ℕ
round_half_even c unit =
    let q = c / unit in
    let r = c % unit in if ltb unit (2 * r) || ((2 * r == unit) && (q % 2 == 1)) then q + 1 else q

drop_digits : ℕ → ℕ → ℕ → Decimal
unfolding round_half_even
drop_digits k c s =
    if leb k s
    then decimal (round_half_even c (10 ^ k)) (s - k)
    else decimal (round_half_even c (10 ^ k) * 10 ^ (k - s)) 0

-- A result that is too long is rounded to the context's precision.
unfoldable pub fix : ℕ → ℕ → Decimal
unfolding excess drop_digits
fix c s = if ltb c prec_limit then decimal c s else drop_digits (excess c c) c s

unfoldable pub add : Decimal → Decimal → Decimal
unfolding fix
add a b =
    let s = max a.scale b.scale in
    fix (a.coefficient * 10 ^ (s - a.scale) + b.coefficient * 10 ^ (s - b.scale)) s

-- `a - b` where b is at most a.
unfoldable pub sub : Decimal → Decimal → Decimal
unfolding fix
sub a b =
    let s = max a.scale b.scale in
    fix (a.coefficient * 10 ^ (s - a.scale) - b.coefficient * 10 ^ (s - b.scale)) s

unfoldable pub mul : Decimal → Decimal → Decimal
unfolding fix
mul a b = fix (a.coefficient * b.coefficient) (a.scale + b.scale)

digits : ℕ → ℕ → ℕ
digits zero c = 0
digits (suc f) c = let more = suc (digits f (c / 10)) in if c == 0 then 0 else more

-- A quotient digit that must not look like a tie, when a remainder was cut off.
sticky : ℕ → ℕ → ℕ
sticky q r = if (r == 0) then q else if q % 5 == 0 then q + 1 else q

-- `a / b`; `none` is DivisionByZero. The quotient is computed to 29 digits or more, then rounded.
unfoldable pub div : Decimal → Decimal → Option Decimal
unfolding fix digits sticky
div a b =
    if b.coefficient == 0
    then none
    else (let shift = digits b.coefficient b.coefficient + 29 + b.scale in
        let n = a.coefficient * 10 ^ shift in
        some (fix (sticky (n / b.coefficient) (n % b.coefficient)) (a.scale + shift - b.scale)))

-- The cents nearest to c / 10 ^ s, ties upward.
unfoldable pub cents_half_up : ℕ → ℕ → ℕ
cents_half_up c s =
    if leb s 2 then c * 10 ^ (2 - s) else (2 * c + 10 ^ (s - 2)) / (2 * 10 ^ (s - 2))

-- `value.quantize(Decimal("0.01"), rounding=ROUND_HALF_UP)`; `none` is InvalidOperation.
unfoldable pub quantize_cents : Decimal → Option Decimal
unfolding cents_half_up
quantize_cents d =
    let q = cents_half_up d.coefficient d.scale in
    if ltb q prec_limit then some (decimal q 2) else none

abbrev pub is_zero : Decimal → Bool
is_zero d = d.coefficient == 0

-- `a <= b`
abbrev pub decimal_leb : Decimal → Decimal → Bool
decimal_leb a b = leb (a.coefficient * 10 ^ b.scale) (b.coefficient * 10 ^ a.scale)

power_pos : (n : ℕ) → zero < 10 ^ n
power_pos zero = omega arith
power_pos (suc n) = omega (arith, power_pos n, pow-suc 10 n)

scaled_trans : (a b c p q r : ℕ) → zero < q → a * q ≤ b * p → b * r ≤ c * q → a * r ≤ c * p
scaled_trans a b c p q r pos h k =
    le_of_mul-le-mul_right {k = q} (omega (arith, mul-le-mul_right r h, mul-le-mul_right p k)) pos

pub decimal_leb-total : (a b : Decimal) → (decimal_leb a b || decimal_leb b a) ≡ true
decimal_leb-total a b = ground arith

pub decimal_leb_trans :
    (a b c : Decimal) → decimal_leb a b ≡ true → decimal_leb b c ≡ true → decimal_leb a c ≡ true
decimal_leb_trans a b c h k = leb_intro (
    scaled_trans a.coefficient b.coefficient c.coefficient (10 ^ a.scale) (10 ^ b.scale)
      (10 ^ c.scale) (power_pos b.scale) (ground (arith, h)) (ground (arith, k)))
  where
    leb_intro : {m n : ℕ} → m ≤ n → leb m n ≡ true
    leb_intro {m} {n} l = ground arith

abbrev pub decimal_order : Order Decimal
decimal_order = record { le = decimal_leb; total = decimal_leb-total; trans = decimal_leb_trans }

third : div (decimal 1 0) (decimal 3 0) ≡ some (decimal 3333333333333333333333333333 28)
unfolding div
third = refl

two_thirds : div (decimal 2 0) (decimal 3 0) ≡ some (decimal 6666666666666666666666666667 28)
unfolding div
two_thirds = refl

half_up : quantize_cents (decimal 1005 3) ≡ some (decimal 101 2)
unfolding quantize_cents
half_up = refl

pub add_cents : (a b : ℕ) → a + b < prec_limit → add (decimal a 2) (decimal b 2) ≡ decimal (a + b) 2
unfolding add
add_cents a b h = ground arith

pub quantize_self : (a : ℕ) → a < prec_limit → quantize_cents (decimal a 2) ≡ some (decimal a 2)
unfolding quantize_cents
quantize_self a h = ground arith

-- A quantized value is in cents and within the precision.
pub quantize_scale :
    (d e : Decimal) → quantize_cents d ≡ some e → (e.scale ≡ 2) × (e.coefficient < prec_limit)
unfolding quantize_cents
quantize_scale d e h = ground arith

-- 10 ^ k is positive.
pow_pos : (k : ℕ) → 0 < 10 ^ k
pow_pos zero = omega arith
pow_pos (suc k) = simp pow-suc (omega (arith, pow_pos k))

-- Rounding to a multiple of 2 * u by adding u first.
half_unit :
    (n u q r : ℕ)
    → 0 < u
    → r < 2 * u
    → q * (2 * u) + r ≡ n + u
    → (2 * (q * u) ≤ n + u) × (n < 2 * (q * u) + u)
half_unit n u q r pos lt e = omega arith

-- For a value c with three or more decimals and u = 10 ^ (k + 1) units to a cent, the cents that
-- ROUND_HALF_UP gives lie at most half a cent above the value and less than half a cent below it.
pub cents_half_up_nearest :
    (c k : ℕ)
    → let cents = cents_half_up c (suc (suc (suc k))) in
      let u = 10 ^ suc k in (2 * (cents * u) ≤ 2 * c + u) × (2 * c < 2 * (cents * u) + u)
unfolding cents_half_up
cents_half_up_nearest c k =
    rw (over k, two_less k)
      (half_unit (2 * c) (10 ^ suc k) _ ((2 * c + 10 ^ suc k) % (2 * 10 ^ suc k)) (pow_pos (suc k))
        (mod-lt _ (omega (arith, pow_pos (suc k))))
        (div-add-mod' (2 * c + 10 ^ suc k) (2 * 10 ^ suc k)))
  where
    over : (n : ℕ) → leb (suc (suc (suc n))) 2 ≡ false
    over n = ground arith

    two_less : (n : ℕ) → suc (suc (suc n)) - 2 ≡ suc n
    two_less n = omega arith
