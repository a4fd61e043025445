-- ===== src/Server.antt =====
-- server.go: the handlers that serve content, on the decoded request. The hub's store and directory
-- are the state; the error texts are left out.
pub mod Transfer
pub mod Routes
pub mod Holds
pub mod Guarded
pub mod Bootstrapped
mod Samples
use hubsync.Prelude.{
  ℕ, zero, suc, Bool, true, false, not, Option, none, some, List, [], ◌∷◌, map, Bytes, length,
  if◌then◌else◌, ◌==◌, nat_eq, bytes_eq, leb,
}
use hubsync.Model.{Digest, FilePath, unpinned, state_eq, HubEntry}
use hubsync.Disk.{stat}
use hubsync.Store.{path_by_digest, entry_lookup}
use hubsync.Archive.{join_key}
use hubsync.Delta.{BlockSig, default_block_size, compute_delta}
use hubsync.Delta.Wire.{DeltaResponse, to_proto}
use hubsync.Push.{Hub}
use hubsync.Event.{Remote}

pub data BlobReply : Type 0 where
  content redirect : Bytes → BlobReply
  not_found bad_gateway : BlobReply

-- The fallback for a file that is not in the directory: a redirect for an unpinned row, if an
-- archive is configured.
abbrev presigned : Option (Bytes → Option Bytes) → Bytes → FilePath → BlobReply
presigned none prefix path = not_found
presigned (some presign) prefix path = elim (presign (join_key prefix path)) [
  | none ↦ bad_gateway
  | some url ↦ redirect url
]

unfoldable pub absent_blob : Option (Bytes → Option Bytes) → Bytes → FilePath → Hub → BlobReply
absent_blob presign prefix path hub = elim (entry_lookup path hub.store) [
  | none ↦ not_found
  | some e ↦ if e.archive_state == unpinned then presigned presign prefix path else not_found
]

unfoldable pub handle_blob : Option (Bytes → Option Bytes) → Bytes → Digest → Hub → BlobReply
unfolding absent_blob
handle_blob presign prefix digest hub = elim (path_by_digest digest hub.store) [
  | none ↦ not_found
  | some path ↦ elim (stat path hub.disk) [
    | none ↦ absent_blob presign prefix path hub
    | some f ↦ content f.bytes
  ]
]

abbrev pub zeros : ℕ → Bytes
zeros zero = []
zeros (suc n) = 0 ∷ zeros n

-- The strong hash is an array of 32 bytes, and a hash of another length is not copied to it.
abbrev pub received_sig : BlockSig → BlockSig
received_sig sig = record sig {
  strong_hash = if length sig.strong_hash == 32 then sig.strong_hash else zeros 32;
}

-- `none` is a status that is not 200.
unfoldable pub handle_delta :
    (Bytes → Bytes) → Digest → ℕ → List BlockSig → Hub → Option DeltaResponse
handle_delta sha256 [] block_size sigs hub = none
handle_delta sha256 (b ∷ digest) block_size sigs hub =
    elim (path_by_digest (b ∷ digest) hub.store) [
      | none ↦ none
      | some path ↦ elim (stat path hub.disk) [
        | none ↦ none
        | some f ↦
            let bs = if leb block_size 0 then default_block_size else block_size in
            some (to_proto (b ∷ digest) (compute_delta sha256 f.bytes (map received_sig sigs) bs))
      ]
    ]

-- The client's HTTP library follows the redirect to the archive.
abbrev pub served_blob : (Bytes → Option Bytes) → BlobReply → Option Bytes
served_blob fetch (content bytes) = some bytes
served_blob fetch (redirect url) = fetch url
served_blob fetch not_found = none
served_blob fetch bad_gateway = none

-- A client that asks this hub.
abbrev pub asking :
    (Bytes → Bytes) → (Bytes → Option Bytes) → Option (Bytes → Option Bytes) → Bytes → Hub → Remote
asking sha256 fetch presign prefix hub = record {
  blob = λ digest. served_blob fetch (handle_blob presign prefix digest hub);
  post_delta = λ digest block_size sigs. handle_delta sha256 digest block_size sigs hub;
}
