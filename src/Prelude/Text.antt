-- ===== src/Prelude/Text.antt =====
-- Go strings and byte slices, as lists of bytes: equality, order and prefixes.
use Prim.Native.Nat.{ℕ, zero, suc, ◌+◌, ◌-◌, ◌*◌, ◌/◌, ◌%◌, ◌<◌}
use mathlib.Core.Option.{Option, none, some}
use Prim.Native.Char.{code}
use Prim.Native.String.{String}
use mathlib.Core.Path.{◌≡◌, refl, sym, ap, ◌∙◌}
use mathlib.Core.Logic.{◌↔◌, inl, inr}
use mathlib.Core.Bool.{Bool, true, false, ◌&&◌, ◌||◌}
use mathlib.Core.List.{List, [], ◌∷◌, ◌++◌}
use native.Mathlib.Omega.{arith}
use hubsync.Prelude.Tests.{nat_beq, nat_beq_iff, ltb, if◌then◌else◌, Bool-cases}
use hubsync.Prelude.Lists.{length, drop}
use hubsync.Prelude.Equality.{Eq}

abbrev pub Bytes : Type 0
Bytes = List ℕ

-- The bytes of an ASCII literal.
abbrev pub codes : String → Bytes
codes String.[] = []
codes (String.◌∷◌ c s) = code c ∷ codes s

unfoldable pub bytes_beq : Bytes → Bytes → Bool
bytes_beq [] [] = true
bytes_beq [] (y ∷ ys) = false
bytes_beq (x ∷ xs) [] = false
bytes_beq (x ∷ xs) (y ∷ ys) = nat_beq x y && bytes_beq xs ys

pub bytes_beq_iff : (a b : Bytes) → (bytes_beq a b ≡ true) ↔ (a ≡ b)
unfolding bytes_beq
bytes_beq_iff [] [] = ground arith
bytes_beq_iff [] (y ∷ ys) = ground arith
bytes_beq_iff (x ∷ xs) [] = ground arith
bytes_beq_iff (x ∷ xs) (y ∷ ys) = ground (arith, bytes_beq_iff xs ys, nat_beq_iff x y)

instance abbrev pub bytes_eq : Eq Bytes
bytes_eq = record { equal = bytes_beq; equal_iff = bytes_beq_iff }

-- `<` on Go strings.
unfoldable pub bytes_lt : Bytes → Bytes → Bool
bytes_lt [] [] = false
bytes_lt [] (y ∷ ys) = true
bytes_lt (x ∷ xs) [] = false
bytes_lt (x ∷ xs) (y ∷ ys) = if nat_beq x y then bytes_lt xs ys else ltb x y

-- `strings.HasPrefix(s, prefix)`.
unfoldable pub has_prefix : Bytes → Bytes → Bool
has_prefix s [] = true
has_prefix [] (p ∷ ps) = false
has_prefix (c ∷ s) (p ∷ ps) = nat_beq c p && has_prefix s ps

pub has_prefix-append : (p s : Bytes) → has_prefix (p ++ s) p ≡ true
unfolding has_prefix
has_prefix-append [] s = refl
has_prefix-append (c ∷ p) s = ground (arith, has_prefix-append p s)

-- A string with a prefix is the prefix and what a slice behind it holds.
pub has_prefix-split : (s p : Bytes) → has_prefix s p ≡ true → p ++ drop (length p) s ≡ s
unfolding has_prefix
has_prefix-split s [] h = refl
has_prefix-split [] (p ∷ ps) h = ground arith
has_prefix-split (c ∷ s) (p ∷ ps) h = ground (arith, has_prefix-split s ps, nat_beq_iff c p)

pub has_prefix-append-append : (p s q : Bytes) → has_prefix (p ++ s) (p ++ q) ≡ has_prefix s q
unfolding has_prefix
has_prefix-append-append [] s q = refl
has_prefix-append-append (c ∷ p) s q =
    ground (arith, has_prefix-append-append p s q, nat_beq_iff c c)

pub drop-append {ℓ} : {A : Type ℓ} → (p s : List A) → drop (length p) (p ++ s) ≡ s
drop-append [] s = refl
drop-append (c ∷ p) s = drop-append p s

-- `strings.HasSuffix(s, suffix)`.
unfoldable pub has_suffix : Bytes → Bytes → Bool
has_suffix [] suffix = bytes_beq [] suffix
has_suffix (c ∷ s) suffix = bytes_beq (c ∷ s) suffix || has_suffix s suffix

-- `strings.TrimPrefix(s, prefix)`.
unfoldable pub trim_prefix : Bytes → Bytes → Bytes
trim_prefix s prefix = if has_prefix s prefix then drop (length prefix) s else s

-- `strings.TrimSuffix(s, suffix)`.
unfoldable pub trim_suffix : Bytes → Bytes → Bytes
trim_suffix [] suffix = []
trim_suffix (c ∷ s) suffix =
    let rest = trim_suffix s suffix in if bytes_beq (c ∷ s) suffix then [] else c ∷ rest

pub trim_suffix-snoc : (p : Bytes) (x : ℕ) → trim_suffix (p ++ x ∷ []) (x ∷ []) ≡ p
unfolding trim_suffix bytes_beq
trim_suffix-snoc [] x = ground (arith, nat_beq_iff x x)
trim_suffix-snoc (c ∷ []) x = ground (arith, trim_suffix-snoc [] x)
trim_suffix-snoc (c ∷ d ∷ p) x = ground (arith, trim_suffix-snoc (d ∷ p) x)

-- `strings.Index(s, sub)`; `none` is -1.
unfoldable pub index_of : Bytes → Bytes → Option ℕ
index_of [] sub = if has_prefix [] sub then some 0 else none
index_of (c ∷ s) sub =
    let later = index_of s sub in
    if has_prefix (c ∷ s) sub then some 0 else elim later [ none ↦ none | some i ↦ some (i + 1) ]

unfoldable pub digits : ℕ → ℕ → Bytes → Bytes
digits zero n rest = rest
digits (suc fuel) n rest =
    let here = (48 + n % 10) ∷ rest in
    let more = digits fuel (n / 10) here in if ltb n 10 then here else more

-- `%d`; a number has at most as many digits as its successor says.
unfoldable pub decimal : ℕ → Bytes
unfolding digits
decimal n = digits (n + 1) n []

-- `filepath.Split`: behind the last slash.
unfoldable pub split_path : Bytes → Bytes × Bytes
split_path [] = ([], [])
split_path (c ∷ path) =
    let (dir, base) = split_path path in
    if nat_beq 0 (length dir)
    then if nat_beq c 47 then (c ∷ [], base) else ([], c ∷ base)
    else (c ∷ dir, base)

-- A name without its `filepath.Ext`, and the extension, which begins at the last dot.
unfoldable pub split_ext : Bytes → Bytes × Bytes
split_ext [] = ([], [])
split_ext (c ∷ name) =
    let (stem, ext) = split_ext name in
    if nat_beq 0 (length ext)
    then if nat_beq c 46 then ([], c ∷ stem) else (c ∷ stem, [])
    else (c ∷ stem, ext)

value : ℕ → Bytes → ℕ
value n [] = n
value n (c ∷ s) = value (n * 10 + (c - 48)) s

value-digits : (fuel n : ℕ) (rest : Bytes) → n < fuel → value 0 (digits fuel n rest) ≡ value n rest
unfolding digits value
value-digits zero n rest h = absurd (omega arith)
value-digits (suc fuel) n rest h = elim (Bool-cases (ltb n 10)) [
  | inl last ↦ rw last (ap (λ k. value k rest) (ground arith))
  | inr more ↦ rw more (
      value-digits fuel (n / 10) ((48 + n % 10) ∷ rest) (ground arith)
      ∙ ap (λ k. value k rest) (omega arith))
]

-- Two numbers that are written the same are the same.
pub decimal_injective : (m n : ℕ) → decimal m ≡ decimal n → m ≡ n
unfolding decimal value
decimal_injective m n e =
    sym (value-digits (m + 1) m [] (omega arith))
    ∙ ap (value 0) e
    ∙ value-digits (n + 1) n [] (omega arith)
