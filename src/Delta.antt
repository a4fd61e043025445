-- ===== src/Delta.antt =====
-- delta.go: block signatures of a base file, the delta of a target file against them, and the
-- reconstruction. `sha256` is a parameter. A block size is an `int` that comes from
-- `OptimalBlockSize` or a `uint32`, so it is a number; positions and lengths are numbers too.
pub mod BlockSize
pub mod Signature
mod Match
pub mod RoundTrip
pub mod Wire
mod Samples
use hubsync.Prelude.{
  ℕ, zero, suc, ◌+◌, ◌-◌, ◌*◌, ◌/◌, ◌%◌, ◌^◌, min, Bool, true, false, ◌≡◌, Option, none, some, List,
  [], ◌∷◌, ◌++◌, Bytes, ℤ, pos, negsuc, length, take, drop, ltb, leb, if◌then◌else◌, ◌==◌, nat_eq,
  bytes_eq, run_loop,
}
use hubsync.Prelude.Table.{find, upsert}

abbrev pub min_block_size : ℕ
min_block_size = 1024

abbrev pub max_block_size : ℕ
max_block_size = 64 * 1024

abbrev pub default_block_size : ℕ
default_block_size = 8 * 1024

-- `math.Sqrt` cut to an `int`, digit by digit. Where the root is at most `max_block_size` the float
-- is nearer to it than any other cut; above, both pass `max_block_size`.
pub isqrt : ℕ → ℕ → ℕ
isqrt zero n = 0
isqrt (suc digits) n =
    let r = 2 * isqrt digits (n / 4) in if leb ((r + 1) * (r + 1)) n then r + 1 else r

-- The sides of an `int64` times 24 have at most 68 bits, 34 digits in base 4.
pub sqrt : ℕ → ℕ
unfolding isqrt
sqrt n = isqrt 34 n

pub clamp_block_size : ℕ → ℕ
clamp_block_size bs =
    if ltb bs min_block_size
    then min_block_size
    else if ltb max_block_size bs
    then max_block_size
    else bs

unfoldable pub optimal_block_size : ℤ → ℕ
unfolding sqrt clamp_block_size
optimal_block_size (negsuc n) = default_block_size
optimal_block_size (pos zero) = default_block_size
optimal_block_size (pos n) = clamp_block_size (sqrt (24 * n))

pub record BlockSig : Type 0 where
  pub index : ℕ
  pub weak_hash : ℕ
  pub strong_hash : Bytes

pub data DeltaOp : Type 0 where
  copy : ℕ → DeltaOp
  literal : Bytes → DeltaOp

pub record DeltaOps : Type 0 where
  pub ops : List DeltaOp
  pub target_size : ℕ

-- The loop over the bytes; `n` is `len(data) - i`, and both sums wrap as `uint32`.
pub weak_sums : ℕ → ℕ → ℕ → Bytes → ℕ × ℕ
weak_sums r1 r2 n [] = (r1, r2)
weak_sums r1 r2 n (b ∷ rest) =
    weak_sums ((r1 + b) % 2 ^ 32) ((r2 + n * b % 2 ^ 32) % 2 ^ 32) (n - 1) rest

-- The halves of `r1 | (r2 << 16)` do not overlap, so the result is their sum.
pub weak_hash : Bytes → ℕ
unfolding weak_sums
weak_hash bytes =
    let (r1, r2) = weak_sums 0 0 (length bytes) bytes in r1 % 2 ^ 16 + r2 % 2 ^ 16 * 2 ^ 16

-- Go's `bytes[i:j]`.
abbrev pub slice : ℕ → ℕ → Bytes → Bytes
slice i j bytes = take (j - i) (drop i bytes)

unfoldable pub block_size_or_default : ℕ → ℕ
block_size_or_default block_size = if leb block_size 0 then default_block_size else block_size

-- The block that starts at `i`, clipped at the end of the file.
unfoldable pub block_at : Bytes → ℕ → ℕ → Bytes
block_at bytes block_size i =
    let end = i + block_size in slice i (if ltb (length bytes) end then length bytes else end) bytes

abbrev pub WeakMap : Type 0
WeakMap = List (ℕ × List BlockSig)

abbrev pub weak_key : ℕ × List BlockSig → ℕ
weak_key row = row.0

-- `weakMap[sig.WeakHash] = append(weakMap[sig.WeakHash], sig)`.
pub add_weak : BlockSig → WeakMap → WeakMap
add_weak sig m = elim (find weak_key sig.weak_hash m) [
  | none ↦ upsert weak_key (sig.weak_hash, sig ∷ []) m
  | some (_, sigs) ↦ upsert weak_key (sig.weak_hash, sigs ++ sig ∷ []) m
]

pub weak_map : List BlockSig → WeakMap → WeakMap
weak_map [] m = m
weak_map (sig ∷ sigs) m = weak_map sigs (add_weak sig m)

-- The candidate loop: the first one with the window's strong hash.
pub strong_match : Bytes → List BlockSig → Option BlockSig
strong_match sh [] = none
strong_match sh (sig ∷ candidates) =
    if sig.strong_hash == sh then some sig else strong_match sh candidates

pub flush : Bytes → List DeltaOp → List DeltaOp
flush pending ops = if ltb 0 (length pending) then ops ++ literal pending ∷ [] else ops

-- The state of the signature loop.
pub record Signing : Type 0 where
  pub i : ℕ
  pub sigs : List BlockSig

-- The state of the window loop.
pub record Scan : Type 0 where
  pub at : ℕ
  pub pending : Bytes
  pub ops : List DeltaOp

abbrev pub signing_start : Signing
signing_start = record { i = 0; sigs = [] }

abbrev pub scan_start : Scan
scan_start = record { at = 0; pending = []; ops = [] }

-- The test of the window loop, `pos <= len(target)-blockSize`, where `pos` is not negative.
abbrev pub window_fits : Bytes → ℕ → Scan → Bool
window_fits target bs s = leb (s.at + bs) (length target)

-- No match: the byte at the window's start waits, and the window moves on by one.
pub advance : Bytes → Scan → Scan
advance target s = record s { at = s.at + 1; pending = s.pending ++ slice s.at (s.at + 1) target }

-- A match: flush what waits, then copy the block.
pub emit_copy : ℕ → Scan → BlockSig → Scan
emit_copy bs s sig = record {
  at = s.at + bs;
  pending = [];
  ops = flush s.pending s.ops ++ copy sig.index ∷ [];
}

-- The bytes behind the last window, and the last flush.
pub finish : Bytes → Scan → List DeltaOp
finish target s =
    let pending = if ltb s.at (length target) then s.pending ++ drop s.at target else s.pending in
    flush pending s.ops

pub apply_op : Bytes → ℕ → Bytes → DeltaOp → Bytes
apply_op base bs out (copy index) =
    let start = index * bs in
    let end = start + bs in
    if ltb start (length base)
    then out ++ slice start (if ltb (length base) end then length base else end) base
    else out
apply_op base bs out (literal bytes) = out ++ bytes

pub apply_ops : Bytes → ℕ → Bytes → List DeltaOp → Bytes
apply_ops base bs out [] = out
apply_ops base bs out (op ∷ ops) = apply_ops base bs (apply_op base bs out op) ops

-- The target's size is only the capacity of the output.
unfoldable pub apply_delta : Bytes → DeltaOps → ℕ → Bytes
unfolding apply_ops apply_op block_size_or_default
apply_delta base d block_size = apply_ops base (block_size_or_default block_size) [] d.ops

module _ (sha256 : Bytes → Bytes) where
  pub sign_block : Bytes → ℕ → Signing → Signing
  unfolding block_at
  sign_block base bs s =
      let block = block_at base bs s.i in
      record {
        i = s.i + bs;
        sigs =
            s.sigs
            ++ record {
              index = length s.sigs % 2 ^ 32;
              weak_hash = weak_hash block;
              strong_hash = sha256 block;
            }
              ∷ [];
      }

  -- Each round moves `i` by at least one, so the length of the file is fuel enough.
  unfoldable pub compute_signature : Bytes → ℕ → List BlockSig
  unfolding sign_block block_size_or_default run_loop weak_hash
  compute_signature base block_size =
      let bs = block_size_or_default block_size in
      (run_loop (λ s. ltb s.i (length base)) (sign_block base bs) (length base + 1)
        signing_start).sigs

  pub scan_window : Bytes → WeakMap → ℕ → Scan → Scan
  unfolding strong_match emit_copy advance flush find
  scan_window target weak bs s =
      let window = slice s.at (s.at + bs) target in
      elim (find weak_key (weak_hash window) weak) [
        | none ↦ advance target s
        | some (_, candidates) ↦ elim (strong_match (sha256 window) candidates) [
          | none ↦ advance target s
          | some sig ↦ emit_copy bs s sig
        ]
      ]

  pub scan_windows : Bytes → List BlockSig → ℕ → Scan
  unfolding scan_window run_loop weak_map add_weak weak_hash find upsert
  scan_windows target sigs bs =
      run_loop (window_fits target bs) (scan_window target (weak_map sigs []) bs)
        (length target + 1) scan_start

  unfoldable pub compute_delta : Bytes → List BlockSig → ℕ → DeltaOps
  unfolding scan_windows finish block_size_or_default flush
  compute_delta target [] block_size = record {
    ops = if ltb 0 (length target) then literal target ∷ [] else [];
    target_size = length target;
  }
  compute_delta target (sig ∷ sigs) block_size = record {
    ops =
        if length target == 0
        then []
        else finish target (scan_windows target (sig ∷ sigs) (block_size_or_default block_size));
    target_size = length target;
  }
