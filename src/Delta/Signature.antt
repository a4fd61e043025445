-- ===== src/Delta/Signature.antt =====
-- What `ComputeSignature` returns: a signature for each block of the base.
use hubsync.Prelude.{
  ℕ, ◌+◌, ◌-◌, ◌*◌, ◌%◌, ◌^◌, ◌≤◌, ◌<◌, ◌≡◌, refl, true, false, arith, Bytes, length, ltb, All,
  All-append, length-snoc, run_loop, run_loop-ends,
}
use hubsync.Delta.{
  BlockSig, Signing, signing_start, block_at, block_size_or_default, sign_block, compute_signature,
}

pub block_size_or_default_pos : (block_size : ℕ) → 0 < block_size_or_default block_size
unfolding block_size_or_default
block_size_or_default_pos block_size = ground arith

module _ (sha256 : Bytes → Bytes) (base : Bytes) (bs : ℕ) where
  -- `sig` is the signature of a block of the base, its index wrapped to a `uint32`.
  abbrev pub Signs : BlockSig → Type 0
  Signs sig =
      (k : ℕ) × (k * bs < length base)
      × (sig.index ≡ k % 2 ^ 32)
      × (sig.strong_hash ≡ sha256 (block_at base bs (k * bs)))

  abbrev Signed : Signing → Type 0
  Signed s = (s.i ≡ length s.sigs * bs) × (s.i < length base + bs) × All Signs s.sigs

  Signed-sign_block :
      (s : Signing)
      → 0 < bs
      → Signed s
      → ltb s.i (length base) ≡ true
      → Signed (sign_block sha256 base bs s)
        × (length base - (sign_block sha256 base bs s).i < length base - s.i)
  unfolding sign_block
  Signed-sign_block s p (at, near, signed) more = (
    (
      rw length-snoc (omega arith),
      ground arith,
      All-append Signs s.sigs _ signed ((length s.sigs, ground arith, refl, rw at refl), tt),
    ),
    ground arith,
  )

  Signed-loop :
      0 < bs
      → let s =
          run_loop
            (λ s. ltb s.i (length base))
            (sign_block sha256 base bs)
            (length base + 1)
            signing_start in
        (ltb s.i (length base) ≡ false) × Signed s
  Signed-loop p =
      run_loop-ends (λ s. ltb s.i (length base)) (sign_block sha256 base bs) Signed
        (λ s. length base - s.i)
        (λ s more h. let (kept, less) = Signed-sign_block s p h more in (less, kept))
        (length base + 1) signing_start (omega arith) (omega arith)

module _ (sha256 : Bytes → Bytes) (base : Bytes) (block_size : ℕ) where
  -- Every entry signs a block of the base.
  pub compute_signature-Signs :
      All
        (Signs sha256 base (block_size_or_default block_size))
        (compute_signature sha256 base block_size)
  unfolding compute_signature
  compute_signature-Signs = (Signed-loop sha256 base _ (block_size_or_default_pos block_size)).1.2

  -- The entries are as many as the blocks: their number times the block size reaches the end of
  -- the base, and does not pass it by a whole block.
  pub length-compute_signature :
      let bs = block_size_or_default block_size in
      let n = length (compute_signature sha256 base block_size) in
      (length base ≤ n * bs) × (n * bs < length base + bs)
  unfolding compute_signature
  length-compute_signature =
      let p = block_size_or_default_pos block_size in
      let h = Signed-loop sha256 base _ p in ground (arith, h)
