-- ===== src/Decision/Value.antt =====
-- Attribute values, their normalised text, and `_numeric`: app/tools/decision_engine.py. Texts are
-- ASCII or CJK, where `lower`, `\s` and `\d` act on ASCII characters alone.
use shopping_agent.Common.{
  ℕ, ◌+◌, ◌-◌, ◌*◌, ◌^◌, ltb, ◌≡◌, refl, Bool, true, false, not, ◌&&◌, ◌||◌, Option, none, some, [],
  ◌∷◌, ◌++◌, Text, codes, text_eq, leb, ◌==◌, if◌then◌else◌, length, is_empty, map,
}
use shopping_agent.Common.Decimal.{Decimal, decimal, decimal_leb, is_zero}

-- A finite float.
pub record Num : Type 0 where
  pub negative : Bool
  pub magnitude : Decimal

abbrev pub nonneg : Decimal → Num
nonneg d = record { negative = false; magnitude = d }

unfoldable pub num_leb : Num → Num → Bool
num_leb a b =
    if a.negative
    then (if b.negative then decimal_leb b.magnitude a.magnitude else true)
    else if b.negative
    then is_zero a.magnitude && is_zero b.magnitude
    else decimal_leb a.magnitude b.magnitude

unfoldable pub num_eq : Num → Num → Bool
unfolding num_leb
num_eq a b = num_leb a b && num_leb b a

-- A value of an attribute or a constraint; numbers and other JSON carry what `str` makes of them.
pub data Value : Type 0 where
  text : Text → Value
  number : Num → Text → Value
  not_finite : Text → Value
  flag : Bool → Value
  other : Text → Value

abbrev pub str : Value → Text
str (text t) = t
str (number n t) = t
str (not_finite t) = t
str (flag b) = if b then codes "True" else codes "False"
str (other t) = t

abbrev pub is_space : ℕ → Bool
is_space c = (c == 32) || (leb 9 c && leb c 13) || (leb 28 c && leb c 31)

abbrev pub lower : ℕ → ℕ
lower c = if leb b'A' c && leb c b'Z' then c + 32 else c

-- `re.sub(r"\s+", "", value).strip().lower()`
unfoldable pub normal : Text → Text
normal [] = []
normal (c ∷ cs) = let rest = normal cs in if is_space c then rest else lower c ∷ rest

unfoldable pub normal_text : Value → Text
unfolding normal
normal_text v = normal (str v)

abbrev is_digit : ℕ → Bool
is_digit c = leb b'0' c && leb c b'9'

abbrev is_letter : ℕ → Bool
is_letter c = (leb b'a' c && leb c b'z') || (leb b'A' c && leb c b'Z')

-- The longest run of characters that pass a test, and what follows it.
span : (ℕ → Bool) → Text → Text × Text
span p [] = ([], [])
span p (c ∷ cs) = let (run, rest) = span p cs in if p c then (c ∷ run, rest) else ([], c ∷ cs)

digits_value : ℕ → Text → ℕ
digits_value acc [] = acc
digits_value acc (c ∷ cs) = digits_value (acc * 10 + (c - b'0')) cs

-- `(?:\.\d+)?` behind the digits of the whole part.
fraction : Text → Text → Decimal × Text
unfolding span digits_value
fraction whole [] = (decimal (digits_value 0 whole) 0, [])
fraction whole (c ∷ cs) =
    let (run, rest) = span is_digit cs in
    if (c == b'.') && not (is_empty run)
    then (decimal (digits_value 0 (whole ++ run)) (length run), rest)
    else (decimal (digits_value 0 whole) 0, c ∷ cs)

-- The unit that group 2 captures, in lower case. Of the units in Chinese only the gram counts.
abbrev gram : Text
gram = codes "克"

unit_of : Text → Text
unfolding span
unit_of rest =
    let after = (span is_space rest).1 in
    let letters = (span is_letter after).0 in
    if not (is_empty letters)
    then map lower letters
    else elim after [ [] ↦ [] | c ∷ cs ↦ if text_eq (c ∷ []) gram then gram else [] ]

sign_of : Text → Bool × Text
sign_of [] = (false, [])
sign_of (c ∷ cs) = if c == b'-' then (true, cs) else (false, c ∷ cs)

scaled : Option Text → Text → Num → Num
scaled none source n = n
scaled (some unit) source n =
    if text_eq unit (codes "kg") && (text_eq source (codes "g") || text_eq source gram)
    then record n { magnitude = decimal n.magnitude.coefficient (n.magnitude.scale + 3) }
    else if text_eq unit (codes "gb") && (text_eq source (codes "tb") || text_eq source (codes "t"))
    then record n { magnitude = decimal (n.magnitude.coefficient * 1024) n.magnitude.scale }
    else n

-- What `float` and the operations on floats round to an infinity.
abbrev float_limit : ℕ
float_limit = 2 ^ 1024 - 2 ^ 970

is_finite : Decimal → Bool
is_finite d = ltb d.coefficient (float_limit * 10 ^ d.scale)

if_finite : Bool → Num → Option Num
if_finite true n = some n
if_finite false n = none

-- A number with its unit at the start of a text. Below the limit its digits are read exactly.
unfoldable pub numeric_text : Text → Option Text → Option Num
unfolding span fraction unit_of sign_of scaled text_eq is_finite if_finite
numeric_text t unit =
    let (negative, body) = sign_of (span is_space t).1 in
    let (whole, rest) = span is_digit body in
    let (magnitude, tail) = fraction whole rest in
    let n = scaled unit (unit_of tail) (record { negative = negative; magnitude = magnitude }) in
    if is_empty whole then none else if_finite (is_finite magnitude && is_finite n.magnitude) n

unfoldable pub numeric : Value → Option Text → Option Num
unfolding numeric_text
numeric (flag b) unit = none
numeric (number n t) unit = some n
numeric (not_finite t) unit = none
numeric (text t) unit = numeric_text t unit
numeric (other t) unit = none

grams : numeric (text (codes " 250 g")) (some (codes "kg")) ≡ some (nonneg (decimal 250 3))
unfolding numeric
grams = refl

terabytes : numeric (text (codes "1.5TB")) (some (codes "gb")) ≡ some (nonneg (decimal 15360 1))
unfolding numeric
terabytes = refl

no_digits : numeric (text (codes "about 3")) none ≡ none
unfolding numeric
no_digits = refl
