-- ===== src/Common/Numbers.antt =====
-- strconv.ParseInt at base 10 and 64 bits, and strconv.Atoi where int has 64 bits.
use Prim.Native.Nat.{ℕ, zero, suc, ◌+◌, ◌*◌, ◌-◌, ◌^◌, ◌≤◌, ◌<◌, ◌/◌, ◌%◌}
use mathlib.Core.Path.{◌≡◌, refl, sym, ap, subst, ◌∙◌}
use jobqueue.Common.Lists.{All}
use mathlib.Core.Bool.{Bool, true, false, ◌&&◌}
use mathlib.Core.Logic.{inl, inr}
use mathlib.Core.Option.{Option, none, some}
use mathlib.Core.List.{[], ◌∷◌}
use native.Mathlib.Omega.{arith}
use jobqueue.Common.Tests.{ltb, leb, ◌==◌, if◌then◌else◌, Bool-cases}
use jobqueue.Common.Int.{pos_part, neg_part, ℤ, pos, negsuc}
use jobqueue.Common.Bytes.{Text, text}

abbrev is_digit : ℕ → Bool
is_digit b = leb b'0' b && leb b b'9'

-- The value of a run of digits behind those read; `none` is a byte that is no digit.
digits_from : ℕ → Text → Option ℕ
digits_from n [] = some n
digits_from n (b ∷ t) =
    let rest = digits_from (n * 10 + (b - b'0')) t in if is_digit b then rest else none

read_digits : Text → Option ℕ
unfolding digits_from
read_digits [] = none
read_digits (b ∷ t) = digits_from 0 (b ∷ t)

abbrev positive : Option ℕ → Option ℤ
positive none = none
positive (some n) = if ltb n (2 ^ 63) then some (pos n) else none

abbrev negative : Option ℕ → Option ℤ
negative none = none
negative (some n) =
    if n == 0 then some (pos 0) else if leb n (2 ^ 63) then some (negsuc (n - 1)) else none

-- An optional sign, digits, and nothing else, within an int64.
unfoldable pub parse_int : Text → Option ℤ
unfolding read_digits
parse_int [] = none
parse_int (b ∷ t) =
    if b == b'-'
    then negative (read_digits t)
    else if b == b'+'
    then positive (read_digits t)
    else positive (read_digits (b ∷ t))

parse_int_example : parse_int (text "-42") ≡ some (negsuc 41)
unfolding parse_int
parse_int_example = refl

positive_range :
    (o : Option ℕ) (n : ℤ) → positive o ≡ some n → (pos_part n < 2 ^ 63) × (neg_part n ≤ 2 ^ 63)
positive_range none n h = absurd (cc h)
positive_range (some m) n h = ground arith

negative_range :
    (o : Option ℕ) (n : ℤ) → negative o ≡ some n → (pos_part n < 2 ^ 63) × (neg_part n ≤ 2 ^ 63)
negative_range none n h = absurd (cc h)
negative_range (some m) n h = ground arith

-- What is read fits an int64.
pub parse_int_range :
    (t : Text) (n : ℤ) → parse_int t ≡ some n → (pos_part n < 2 ^ 63) × (neg_part n ≤ 2 ^ 63)
unfolding parse_int
parse_int_range [] n h = absurd (cc h)
parse_int_range (b ∷ t) n h = ground (
  arith,
  negative_range (read_digits t) n,
  positive_range (read_digits t) n,
  positive_range (read_digits (b ∷ t)) n,
)

-- The decimal digits of a number, as %d prints them; one round for each digit is enough, and a number
-- has no more digits than its value, and one.
print_digits : ℕ → ℕ → Text → Text
print_digits zero n rest = rest
print_digits (suc fuel) n rest =
    let more = print_digits fuel (n / 10) ((b'0' + n % 10) ∷ rest) in
    if ltb n 10 then (b'0' + n) ∷ rest else more

unfoldable pub print_nat : ℕ → Text
unfolding print_digits
print_nat n = print_digits (suc n) n []

print_nat_example : print_nat 40960 ≡ text "40960"
unfolding print_nat
print_nat_example = refl

digits_from_digit :
    (n d : ℕ) (rest : Text)
    → d < 10
    → digits_from n ((b'0' + d) ∷ rest) ≡ digits_from (n * 10 + d) rest
unfolding digits_from
digits_from_digit n d rest h =
    let digit : is_digit (b'0' + d) ≡ true = ground arith in
    let value : n * 10 + (b'0' + d - b'0') ≡ n * 10 + d = omega arith in
    rw digit (ap (λ m. digits_from m rest) value)

-- Reading the digits that were printed goes on with the number.
digits_from-print_digits :
    (fuel n : ℕ) (rest : Text)
    → n < fuel
    → digits_from 0 (print_digits fuel n rest) ≡ digits_from n rest
unfolding print_digits
digits_from-print_digits zero n rest h = absurd (omega arith)
digits_from-print_digits (suc fuel) n rest h = elim (Bool-cases (ltb n 10)) [
  | inl y ↦
      let small : n < 10 = ground arith in
      let e : 0 * 10 + n ≡ n = omega arith in
      rw y (digits_from_digit 0 n rest small ∙ ap (λ m. digits_from m rest) e)
  | inr f ↦
      let less : n / 10 < fuel = ground arith in
      let e : n / 10 * 10 + n % 10 ≡ n = omega arith in
      rw f (
        digits_from-print_digits fuel (n / 10) ((b'0' + n % 10) ∷ rest) less
        ∙ digits_from_digit (n / 10) (n % 10) rest (omega arith)
        ∙ ap (λ m. digits_from m rest) e)
]

-- What is printed starts with a digit, so not with a sign.
print_digits_head :
    (fuel n : ℕ) (rest : Text)
    → n < fuel
    → (b : ℕ) × (t : Text) × (print_digits fuel n rest ≡ b ∷ t) × (b'0' ≤ b)
unfolding print_digits
print_digits_head zero n rest h = absurd (omega arith)
print_digits_head (suc fuel) n rest h = elim (Bool-cases (ltb n 10)) [
  | inl y ↦ (b'0' + n, rest, rw y refl, omega arith)
  | inr f ↦ rw f (print_digits_head fuel (n / 10) ((b'0' + n % 10) ∷ rest) (ground arith))
]

parse_int_unsigned :
    (b : ℕ) (t : Text) → b'0' ≤ b → parse_int (b ∷ t) ≡ positive (read_digits (b ∷ t))
unfolding parse_int
parse_int_unsigned b t h = ground arith

print_digits-All :
    (P : ℕ → Type 0)
    → ((d : ℕ) → d < 10 → P (b'0' + d))
    → (fuel n : ℕ) (rest : Text) → All P rest
    → All P (print_digits fuel n rest)
unfolding print_digits
print_digits-All P digit zero n rest h = h
print_digits-All P digit (suc fuel) n rest h = elim (Bool-cases (ltb n 10)) [
  | inl y ↦ rw y (digit n (ground arith), h)
  | inr f ↦ rw f (
      print_digits-All P digit fuel (n / 10) ((b'0' + n % 10) ∷ rest)
        (digit (n % 10) (omega arith), h))
]

-- What is printed is a run of digits, at least one.
pub print_nat-All :
    (P : ℕ → Type 0)
    → ((b : ℕ) → b'0' ≤ b → b ≤ b'9' → P b)
    → (n : ℕ) → (b : ℕ) × (t : Text) × (print_nat n ≡ b ∷ t) × P b × All P t
unfolding print_nat
print_nat-All P digit n =
    let (b, t, e, _) = print_digits_head (suc n) n [] (omega arith) in
    let all =
      print_digits-All P (λ d l. digit (b'0' + d) (omega arith) (omega (arith, l))) (suc n) n []
        tt in
    let both : All P (b ∷ t) = subst (λ s. All P s) e all in (b, t, e, both.0, both.1)

-- The digits alone, read back.
read_digits-print_nat : (n : ℕ) → read_digits (print_nat n) ≡ some n
unfolding print_nat
read_digits-print_nat n =
    let (b, t, e, digit) = print_digits_head (suc n) n [] (omega arith) in
    let read : digits_from 0 (b ∷ t) ≡ some n =
      ap (digits_from 0) (sym e)
      ∙ digits_from-print_digits (suc n) n [] (omega arith)
      ∙ unfold digits_from in refl in
    ap read_digits e ∙ unfold read_digits in read

-- What %d prints of a number below 2^63 reads back as that number.
pub parse_int-print_nat : (n : ℕ) → n < 2 ^ 63 → parse_int (print_nat n) ≡ some (pos n)
unfolding print_nat
parse_int-print_nat n h =
    let (b, t, e, digit) = print_digits_head (suc n) n [] (omega arith) in
    let fits : ltb n (2 ^ 63) ≡ true = ground arith in
    ap parse_int e
    ∙ parse_int_unsigned b t digit
    ∙ ap positive (ap read_digits (sym e) ∙ read_digits-print_nat n)
    ∙ rw fits refl

-- %d of an int64.
unfoldable pub print_int : ℤ → Text
unfolding print_nat
print_int (pos n) = print_nat n
print_int (negsuc n) = b'-' ∷ print_nat (n + 1)

-- What %d prints of an int64 reads back as that number.
pub parse_int-print_int :
    (n : ℤ) → pos_part n < 2 ^ 63 → neg_part n ≤ 2 ^ 63 → parse_int (print_int n) ≡ some n
unfolding print_int
parse_int-print_int (pos n) h k = parse_int-print_nat n h
parse_int-print_int (negsuc n) h k =
    let positive : (n + 1 == 0) ≡ false = ground arith in
    let fits : leb (n + 1) (2 ^ 63) ≡ true = ground arith in
    let back : n + 1 - 1 ≡ n = omega arith in
    unfold parse_int in
    rw (read_digits-print_nat (n + 1)) (rw (positive, fits) (ap (λ m. some (negsuc m)) back))
