-- ===== src/Server/Transfer.antt =====
-- A delta between a client and its hub, end to end.
use hubsync.Prelude.{
  ℕ, ◌*◌, ◌^◌, ◌≤◌, ◌<◌, ◌≡◌, ◌≢◌, refl, ap, ◌∙◌, arith, false, Option, some, List, [], ◌∷◌, map,
  Bytes, All, length, nat_eq, bytes_eq, ==_refl, leb, pos,
}
use hubsync.Model.{Digest, FilePath}
use hubsync.Disk.{DiskFile, stat}
use hubsync.Store.{path_by_digest}
use hubsync.Delta.{
  BlockSig, optimal_block_size, block_size_or_default, block_at, compute_signature, compute_delta,
  apply_delta,
}
use hubsync.Delta.BlockSize.{optimal_block_size_bounds}
use hubsync.Delta.Signature.{Signs, compute_signature-Signs}
use hubsync.Delta.RoundTrip.{NoCollision, apply_delta-compute_delta}
use hubsync.Delta.Wire.{to_proto, delta_ops_from_proto, delta_ops_from_proto-to_proto}
use hubsync.Push.{Hub}
use hubsync.Event.{fetch_delta}
use hubsync.Server.{handle_delta, received_sig, asking}

received_sigs :
    (sha256 : Bytes → Bytes) (base : Bytes) (bs : ℕ) (sigs : List BlockSig)
    → ((bytes : Bytes) → length (sha256 bytes) ≡ 32)
    → All (Signs sha256 base bs) sigs
    → map received_sig sigs ≡ sigs
received_sigs sha256 base bs [] wide h = refl
received_sigs sha256 base bs (sig ∷ sigs) wide ((k, inside, index, strong), h) = ground (
  arith,
  received_sigs sha256 base bs sigs wide h,
  ap length strong,
  wide (block_at base bs (k * bs)),
)

handle_delta_found :
    (sha256 : Bytes → Bytes) (digest : Digest) (bs : ℕ) (sigs : List BlockSig) (hub : Hub)
    (path : FilePath) (f : DiskFile)
    → digest ≢ []
    → 0 < bs
    → path_by_digest digest hub.store ≡ some path
    → stat path hub.disk ≡ some f
    → map received_sig sigs ≡ sigs
    → handle_delta sha256 digest bs sigs hub
      ≡ some (to_proto digest (compute_delta sha256 f.bytes sigs bs))
unfolding handle_delta
handle_delta_found sha256 [] bs sigs hub path f some' p at there same = absurd (some' refl)
handle_delta_found sha256 (b ∷ digest) bs sigs hub path f some' p at there same =
    let positive : leb bs 0 ≡ false = ground arith in
    rw (at, there, same, positive, handle_delta) refl

-- A client that has `local` asks its hub for the content of a digest, and the hub has a file of that
-- digest under the row it finds: the delta is served, goes over the wire, and gives exactly the
-- hub's bytes. This is for a local file of at most 2 ^ 32 blocks, where no block of it shares its
-- strong hash with a different window of the hub's file.
pub fetch_delta-handle_delta :
    (sum sha256 : Bytes → Bytes) (fetch : Bytes → Option Bytes)
    (presign : Option (Bytes → Option Bytes)) (prefix : Bytes) (hub : Hub) (digest : Digest)
    (path : FilePath) (f : DiskFile) (local : Bytes)
    → ((bytes : Bytes) → length (sha256 bytes) ≡ 32)
    → digest ≢ []
    → path_by_digest digest hub.store ≡ some path
    → stat path hub.disk ≡ some f
    → sum f.bytes ≡ digest
    → length local ≤ 2 ^ 32 * block_size_or_default (optimal_block_size (pos (length local)))
    → NoCollision sha256 local f.bytes
        (block_size_or_default (optimal_block_size (pos (length local))))
    → fetch_delta sum sha256 (asking sha256 fetch presign prefix hub) digest local ≡ some f.bytes
unfolding fetch_delta
fetch_delta-handle_delta sum sha256 fetch presign prefix hub digest path f local wide some' at there
      right few distinct =
    let bs = optimal_block_size (pos (length local)) in
    let sigs = compute_signature sha256 local bs in
    let positive : 0 < bs = omega (arith, optimal_block_size_bounds (pos (length local))) in
    let served = handle_delta_found sha256 digest bs sigs hub path f some' positive at there (
      received_sigs sha256 local (block_size_or_default bs) sigs wide
        (compute_signature-Signs sha256 local bs)) in
    let result : apply_delta local
          (delta_ops_from_proto (to_proto digest (compute_delta sha256 f.bytes sigs bs))) bs
        ≡ f.bytes =
      ap (λ d. apply_delta local d bs)
        (delta_ops_from_proto-to_proto digest (compute_delta sha256 f.bytes sigs bs))
      ∙ apply_delta-compute_delta sha256 local f.bytes bs few distinct in
    rw (served, fetch_delta) (rw (result, right, ==_refl digest) refl)
