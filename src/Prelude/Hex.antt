-- ===== src/Prelude/Hex.antt =====
-- `encoding/hex`: two lower-case digits for each byte, and back.
use mathlib.Core.Path.{◌≡◌, refl, ◌∙◌}
use mathlib.Core.Bool.{Bool, true, false, ◌&&◌}
use mathlib.Core.Option.{Option, none, some}
use mathlib.Core.List.{[], ◌∷◌}
use Prim.Native.Nat.{ℕ, ◌+◌, ◌-◌, ◌*◌, ◌/◌, ◌%◌, ◌<◌}
use native.Mathlib.Omega.{arith}
use hubsync.Prelude.Tests.{if◌then◌else◌, ltb, leb}
use hubsync.Prelude.Lists.{All}
use hubsync.Prelude.Text.{Bytes}

abbrev hex_value : ℕ → Option ℕ
hex_value c =
    if leb 48 c && leb c 57
    then some (c - 48)
    else if leb 97 c && leb c 102
    then some (c - 87)
    else if leb 65 c && leb c 70
    then some (c - 55)
    else none

-- `hex.DecodeString`: the bytes before the first error, and whether there was none.
unfoldable pub hex_decode : Bytes → Bytes × Bool
hex_decode [] = ([], true)
hex_decode (a ∷ []) = ([], false)
hex_decode (a ∷ b ∷ s) =
    let (rest, good) = hex_decode s in
    elim (hex_value a) [
      | none ↦ ([], false)
      | some x ↦ elim (hex_value b) [ none ↦ ([], false) | some y ↦ ((x * 16 + y) ∷ rest, good) ]
    ]

abbrev hex_digit : ℕ → ℕ
hex_digit n = if ltb n 10 then 48 + n else 87 + n

-- `hex.EncodeToString`.
unfoldable pub hex_encode : Bytes → Bytes
hex_encode [] = []
hex_encode (c ∷ s) = hex_digit (c / 16) ∷ hex_digit (c % 16) ∷ hex_encode s

abbrev pub IsBytes : Bytes → Type 0
IsBytes s = All (λ c. c < 256) s

hex_value-hex_digit : (n : ℕ) → n < 16 → hex_value (hex_digit n) ≡ some n
hex_value-hex_digit n h = ground (arith, h)

hex_decode_pair :
    (a b : ℕ) (s : Bytes) {x y : ℕ}
    → hex_value a ≡ some x
    → hex_value b ≡ some y
    → hex_decode (a ∷ b ∷ s) ≡ ((x * 16 + y) ∷ (hex_decode s).0, (hex_decode s).1)
unfolding hex_decode
hex_decode_pair a b s high low = rw (high, low, hex_decode) refl

pub hex_decode-hex_encode : (s : Bytes) → IsBytes s → hex_decode (hex_encode s) ≡ (s, true)
unfolding hex_decode hex_encode
hex_decode-hex_encode [] h = refl
hex_decode-hex_encode (c ∷ s) h =
    let high : hex_value (hex_digit (c / 16)) ≡ some (c / 16) =
      hex_value-hex_digit (c / 16) (omega (arith, h.0)) in
    let low : hex_value (hex_digit (c % 16)) ≡ some (c % 16) =
      hex_value-hex_digit (c % 16) (omega arith) in
    let whole : c / 16 * 16 + c % 16 ≡ c = omega arith in
    hex_decode_pair (hex_digit (c / 16)) (hex_digit (c % 16)) (hex_encode s) high low
    ∙ rw (hex_decode-hex_encode s h.1, whole) refl
