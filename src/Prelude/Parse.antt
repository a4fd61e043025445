-- ===== src/Prelude/Parse.antt =====
-- `strconv.ParseInt(s, 10, 64)`.
use Prim.Native.Nat.{ℕ, zero, suc, ◌+◌, ◌-◌, ◌*◌, ◌/◌, ◌%◌, ◌^◌, ◌<◌, ◌≤◌}
use mathlib.Core.Path.{◌≡◌, refl, sym, ap, ◌∙◌}
use mathlib.Core.Logic.{inl, inr}
use mathlib.Core.Bool.{Bool, true, false, ◌&&◌}
use mathlib.Core.Option.{Option, none, some}
use mathlib.Core.List.{[], ◌∷◌}
use native.Mathlib.Omega.{arith}
use hubsync.Prelude.Tests.{if◌then◌else◌, Bool-cases, ltb, leb, nat_beq}
use hubsync.Prelude.Int.{ℤ, pos, negsuc}
use hubsync.Prelude.Text.{Bytes, digits, decimal}

abbrev is_digit : ℕ → Bool
is_digit c = leb 48 c && leb c 57

-- The digits behind the number so far.
unfoldable pub parse_digits : ℕ → Bytes → Option ℕ
parse_digits n [] = some n
parse_digits n (c ∷ s) =
    let rest = parse_digits (n * 10 + (c - 48)) s in if is_digit c then rest else none

abbrev parse_magnitude : Bytes → Option ℕ
parse_magnitude [] = none
parse_magnitude (c ∷ s) = parse_digits 0 (c ∷ s)

abbrev bounded : Option ℕ → Option ℤ
bounded none = none
bounded (some n) = if ltb n (2 ^ 63) then some (pos n) else none

abbrev negated : ℕ → ℤ
negated zero = pos 0
negated (suc n) = negsuc n

abbrev bounded_below : Option ℕ → Option ℤ
bounded_below none = none
bounded_below (some n) = if leb n (2 ^ 63) then some (negated n) else none

unfoldable pub parse_int : Bytes → Option ℤ
unfolding parse_digits
parse_int [] = none
parse_int (c ∷ s) =
    if nat_beq c 43
    then bounded (parse_magnitude s)
    else if nat_beq c 45
    then bounded_below (parse_magnitude s)
    else bounded (parse_magnitude (c ∷ s))

parse_one_digit :
    (n d : ℕ) (rest : Bytes)
    → d < 10
    → parse_digits n ((48 + d) ∷ rest) ≡ parse_digits (n * 10 + d) rest
unfolding parse_digits
parse_one_digit n d rest h =
    let inside : is_digit (48 + d) ≡ true = ground (arith, h) in
    let back : 48 + d - 48 ≡ d = omega arith in rw (inside, back) refl

parse_digits-digits :
    (fuel n : ℕ) (rest : Bytes)
    → n < fuel
    → parse_digits 0 (digits fuel n rest) ≡ parse_digits n rest
unfolding digits
parse_digits-digits zero n rest h = absurd (omega arith)
parse_digits-digits (suc fuel) n rest h = elim (Bool-cases (ltb n 10)) [
  | inl last ↦ rw last (
      parse_one_digit 0 (n % 10) rest (omega arith)
      ∙ ap (λ k. parse_digits k rest) (ground (arith, last)))
  | inr more ↦ rw more (
      parse_digits-digits fuel (n / 10) ((48 + n % 10) ∷ rest) (ground (arith, more, h))
      ∙ parse_one_digit (n / 10) (n % 10) rest (omega arith)
      ∙ ap (λ k. parse_digits k rest) (omega arith))
]

-- The text begins with a digit, behind which comes no sign.
digits-head :
    (fuel n : ℕ) (rest : Bytes)
    → n < fuel
    → (c : ℕ) × (s : Bytes) × (digits fuel n rest ≡ c ∷ s) × (48 ≤ c)
unfolding digits
digits-head zero n rest h = absurd (omega arith)
digits-head (suc fuel) n rest h = elim (Bool-cases (ltb n 10)) [
  | inl last ↦ (48 + n % 10, rest, rw last refl, omega arith)
  | inr more ↦
      let (c, s, e, d) =
        digits-head fuel (n / 10) ((48 + n % 10) ∷ rest) (ground (arith, more, h)) in
      (c, s, rw more e, d)
]

parse_int_unsigned :
    (c : ℕ) (s : Bytes) → 48 ≤ c → parse_int (c ∷ s) ≡ bounded (parse_digits 0 (c ∷ s))
unfolding parse_int
parse_int_unsigned c s h =
    let plus : nat_beq c 43 ≡ false = ground (arith, h) in
    let minus : nat_beq c 45 ≡ false = ground (arith, h) in rw (plus, minus) refl

parse_end : (n : ℕ) → parse_digits n [] ≡ some n
unfolding parse_digits
parse_end n = refl

in_bounds : (n : ℕ) → n < 2 ^ 63 → bounded (some n) ≡ some (pos n)
in_bounds n h = ground (arith, h)

pub parse_int-decimal : (n : ℕ) → n < 2 ^ 63 → parse_int (decimal n) ≡ some (pos n)
unfolding decimal
parse_int-decimal n h =
    let (c, s, e, d) = digits-head (n + 1) n [] (omega arith) in
    let number : parse_digits 0 (c ∷ s) ≡ some n =
      ap (parse_digits 0) (sym e) ∙ parse_digits-digits (n + 1) n [] (omega arith) ∙ parse_end n in
    ap parse_int e ∙ parse_int_unsigned c s d ∙ ap bounded number ∙ in_bounds n h
