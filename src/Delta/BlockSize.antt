-- ===== src/Delta/BlockSize.antt =====
-- The bounds of `OptimalBlockSize`, and the root that it takes.
use native.Mathlib.Nat.{pow-suc}
use hubsync.Prelude.{
  ℕ, zero, suc, ◌+◌, ◌*◌, ◌/◌, ◌^◌, ◌≤◌, ◌<◌, ◌≡◌, arith, ℤ, pos, negsuc, leb, ltb, refl, ◌⊎◌,
  if◌then◌else◌, Bool-cases, inl, inr,
}
use hubsync.Delta.{
  isqrt, sqrt, clamp_block_size, optimal_block_size, min_block_size, max_block_size,
}

abbrev pub IsRoot : ℕ → ℕ → Type 0
IsRoot r n = (r * r ≤ n) × (n < (r + 1) * (r + 1))

-- One more digit.
IsRoot-digit :
    (s n : ℕ)
    → IsRoot s (n / 4)
    → let r = 2 * s in IsRoot (if leb ((r + 1) * (r + 1)) n then r + 1 else r) n
IsRoot-digit s n h = elim (Bool-cases (leb ((2 * s + 1) * (2 * s + 1)) n)) [
  | inl e ↦ rw e (ground arith)
  | inr e ↦ rw e (ground arith)
]

isqrt-IsRoot : (d n : ℕ) → n < 4 ^ d → IsRoot (isqrt d n) n
unfolding isqrt
isqrt-IsRoot zero n h = omega arith
isqrt-IsRoot (suc d) n h =
    IsRoot-digit (isqrt d (n / 4)) n (isqrt-IsRoot d (n / 4) (omega (arith, pow-suc 4 d)))

sqrt-IsRoot : (n : ℕ) → n < 4 ^ 34 → IsRoot (sqrt n) n
unfolding sqrt
sqrt-IsRoot n h = isqrt-IsRoot 34 n h

clamp_bounds :
    (bs : ℕ) → (min_block_size ≤ clamp_block_size bs) × (clamp_block_size bs ≤ max_block_size)
unfolding clamp_block_size
clamp_bounds bs = ground arith

-- Every block size lies between 1 KiB and 64 KiB.
pub optimal_block_size_bounds :
    (size : ℤ)
    → (min_block_size ≤ optimal_block_size size) × (optimal_block_size size ≤ max_block_size)
unfolding optimal_block_size
optimal_block_size_bounds (negsuc n) = omega arith
optimal_block_size_bounds (pos zero) = omega arith
optimal_block_size_bounds (pos (suc n)) = clamp_bounds (sqrt (24 * suc n))

-- What the block size of a file of so many bytes is: 8 KiB where there are none; else between 1 KiB
-- and 64 KiB, at most the root of 24 times the size unless it is 1 KiB, and at least the whole part
-- of that root unless it is 64 KiB.
abbrev pub IsOptimal : ℤ → ℕ → Type 0
IsOptimal (negsuc n) b = b ≡ 8192
IsOptimal (pos zero) b = b ≡ 8192
IsOptimal (pos (suc n)) b =
    (1024 ≤ b)
    × (b ≤ 65536)
    × ((b ≡ 1024) ⊎ (b * b ≤ 24 * suc n))
    × ((b ≡ 65536) ⊎ (24 * suc n < (b + 1) * (b + 1)))

root_below : (r n b : ℕ) → r * r ≤ n → b ≤ r → b * b ≤ n
root_below r n b h le = grind arith

root_above : (r n b : ℕ) → n < (r + 1) * (r + 1) → r ≤ b → n < (b + 1) * (b + 1)
root_above r n b h le = grind arith

clamp-IsOptimal : (r n : ℕ) → IsRoot r (24 * suc n) → IsOptimal (pos (suc n)) (clamp_block_size r)
unfolding clamp_block_size
clamp-IsOptimal r n (above, below) = elim (Bool-cases (ltb r min_block_size)) [
  | inl small ↦ rw small (
    omega arith,
    omega arith,
    inl refl,
    inr (root_above r (24 * suc n) 1024 below (ground (arith, small))),
  )
  | inr large ↦ elim (Bool-cases (ltb max_block_size r)) [
    | inl huge ↦
        rw (large, huge)
          (
            omega arith,
            omega arith,
            inr (root_below r (24 * suc n) 65536 above (ground (arith, huge))),
            inl refl,
          )
    | inr fits ↦ rw (large, fits) (ground arith, ground arith, inr above, inr below)
  ]
]

abbrev pub IsInt64 : ℤ → Type 0
IsInt64 (negsuc n) = n < 2 ^ 63
IsInt64 (pos n) = n < 2 ^ 63

-- The block size for every size of an `int64`: 8 KiB without bytes; else the whole part of the square
-- root of 24 times the size, brought between 1 KiB and 64 KiB.
pub optimal_block_size-IsOptimal :
    (size : ℤ) → IsInt64 size → IsOptimal size (optimal_block_size size)
unfolding optimal_block_size
optimal_block_size-IsOptimal (negsuc n) bound = refl
optimal_block_size-IsOptimal (pos zero) bound = refl
optimal_block_size-IsOptimal (pos (suc n)) bound =
    clamp-IsOptimal (sqrt (24 * suc n)) n (sqrt-IsRoot (24 * suc n) (omega arith))
