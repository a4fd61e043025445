-- ===== src/Delta/Samples.antt =====
-- Small runs of delta.go, with a strong hash that keeps its input.
use hubsync.Prelude.{◌≡◌, refl, [], ◌∷◌, Bytes, bytes_beq, codes, pos, arith}
use hubsync.Delta.{
  copy, literal, compute_signature, compute_delta, apply_delta, optimal_block_size,
  block_size_or_default,
}
use hubsync.Delta.BlockSize.{IsOptimal, optimal_block_size-IsOptimal}
use hubsync.Delta.RoundTrip.{apply_delta-compute_delta}

abbrev plain_hash : Bytes → Bytes
plain_hash bytes = bytes

abbrev old : Bytes
old = codes "abcdefgh"

abbrev new : Bytes
new = codes "xefghabcdy"

delta_run : compute_delta plain_hash new (compute_signature plain_hash old 4) 4 ≡ record {
  ops = literal (codes "x") ∷ copy 1 ∷ copy 0 ∷ literal (codes "y") ∷ [];
  target_size = 10;
}
unfolding bytes_beq compute_delta compute_signature
delta_run = refl

size_run : optimal_block_size (pos 1000000) ≡ 4898
unfolding optimal_block_size
size_run = refl

apply_delta-compute_delta_example :
    apply_delta old (compute_delta plain_hash new (compute_signature plain_hash old 4) 4) 4 ≡ new
unfolding block_size_or_default
apply_delta-compute_delta_example =
    apply_delta-compute_delta plain_hash old new 4 (omega arith) (λ i j e. e)

optimal_block_size-IsOptimal_example : IsOptimal (pos 1000000) (optimal_block_size (pos 1000000))
optimal_block_size-IsOptimal_example = optimal_block_size-IsOptimal (pos 1000000) (omega arith)
