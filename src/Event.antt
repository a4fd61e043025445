-- ===== src/Event.antt =====
-- The events of the sync stream: `writeEvent` of server.go makes one from a change, `applyEvent` of
-- client.go takes it in, and `fetchLargeFile` finds the content that is not inlined. The client's own
-- disk and database do not fail here; the answers of the hub do, at will.
pub mod Replication
pub mod Files
pub mod Content
mod Samples
use hubsync.Prelude.{
  ℕ, ◌*◌, Bool, true, false, ◌&&◌, Option, none, some, List, [], ◌∷◌, Bytes, ℤ, pos, length, ltb,
  leb, if◌then◌else◌, ◌==◌, bytes_eq,
}
use hubsync.Prelude.Table.{find}
use hubsync.Model.{
  Digest, FilePath, FileKind, file, ChangeOp, create, change_update, delete, ChangeEntry,
}
use hubsync.Delta.{BlockSig, optimal_block_size, compute_signature, apply_delta}
use hubsync.Delta.Wire.{DeltaResponse, delta_ops_from_proto}
use hubsync.Disk.{Disk, DiskFile, stat, write_file, remove_file, set_mtime}
use hubsync.ClientStore.{ClientStore, apply_change, lookup_by_digest}

abbrev pub inline_threshold : ℕ
inline_threshold = 64 * 1024

pub record FileChange : Type 0 where
  pub kind : FileKind
  pub digest : Digest
  pub size : ℕ
  pub mode : ℕ
  pub mtime : ℤ
  pub inlined : Bytes

pub data Payload : Type 0 where
  changed : FileChange → Payload
  deleted : Payload

pub record SyncEvent : Type 0 where
  pub version : ℕ
  pub path : FilePath
  pub payload : Payload

-- The content of a small file goes with its event, if the file is there to read.
inline_content : Disk → ChangeEntry → Bytes
inline_content disk c =
    if ltb 0 c.size && leb c.size inline_threshold
    then elim (stat c.path disk) [ none ↦ [] | some f ↦ f.bytes ]
    else []

pub change_of : Disk → ChangeEntry → FileChange
unfolding inline_content
change_of disk c = record {
  kind = c.kind;
  digest = c.digest;
  size = c.size;
  mode = c.mode;
  mtime = c.mtime;
  inlined = inline_content disk c;
}

pub payload_of : Disk → ChangeOp → ChangeEntry → Payload
unfolding change_of
payload_of disk delete c = deleted
payload_of disk create c = changed (change_of disk c)
payload_of disk change_update c = changed (change_of disk c)

unfoldable pub write_event : Disk → ChangeEntry → SyncEvent
unfolding payload_of
write_event disk c = record { version = c.version; path = c.path; payload = payload_of disk c.op c }

-- What the hub answers over HTTP: `GET /blobs/{digest}`, and `POST /blobs/delta` with a digest, a
-- block size and a signature. `none` is a failed request, or a status that is not 200.
pub record Remote : Type 0 where
  pub blob : Digest → Option Bytes
  pub post_delta : Digest → ℕ → List BlockSig → Option DeltaResponse

pub record Replica : Type 0 where
  pub store : ClientStore
  pub disk : Disk
  -- `localEditPaths`; nil outside of write mode.
  pub local_edits : Option (List FilePath)

unfoldable pub contains : FilePath → List FilePath → Bool
contains path [] = false
contains path (p ∷ paths) = if p == path then true else contains path paths

unfoldable pub skip_path : FilePath → Replica → Bool
unfolding contains
skip_path path r = elim r.local_edits [ none ↦ false | some paths ↦ contains path paths ]

-- The client's hasher, the SHA-256 of the signatures, and the hub.
module _ (sum sha256 : Bytes → Bytes) (remote : Remote) where
  -- The result is used only if it has the digest.
  unfoldable pub fetch_delta : Digest → Bytes → Option Bytes
  fetch_delta digest local =
      let block_size = optimal_block_size (pos (length local)) in
      elim (remote.post_delta digest block_size (compute_signature sha256 local block_size)) [
        | none ↦ none
        | some response ↦
            let result = apply_delta local (delta_ops_from_proto response) block_size in
            if sum result == digest then some result else none
      ]

  full_content : Digest → Option Bytes
  full_content digest = remote.blob digest

  -- A delta, where a file with content stands at the path.
  delta_content : Digest → FilePath → Disk → Option Bytes
  unfolding fetch_delta
  delta_content digest path disk = elim (stat path disk) [
    | none ↦ full_content digest
    | some local ↦
        if ltb 0 (length local.bytes)
        then elim (fetch_delta digest local.bytes) [
          | none ↦ full_content digest
          | some bytes ↦ some bytes
        ]
        else full_content digest
  ]

  -- The three ways in their order: a local copy of the same digest, a delta, the whole blob.
  unfoldable pub large_content : Digest → FilePath → Replica → Option Bytes
  unfolding delta_content full_content
  large_content digest path r = elim (lookup_by_digest digest path r.store) [
    | none ↦ delta_content digest path r.disk
    | some other ↦ elim (stat other r.disk) [
      | none ↦ delta_content digest path r.disk
      | some f ↦ some f.bytes
    ]
  ]

  unfoldable pub content_of : FilePath → FileChange → Replica → Option Bytes
  content_of path change r =
      if ltb 0 (length change.inlined)
      then some change.inlined
      else large_content change.digest path r

  -- `none` is the error of the fetch, which leaves the client as it was.
  unfoldable pub written : ℤ → FilePath → FileChange → Replica → Option Disk
  written now path change r =
      if skip_path path r then some r.disk else elim (content_of path change r) [
        | none ↦ none
        | some bytes ↦
            some (set_mtime change.mtime path (write_file now path bytes change.mode r.disk))
      ]

  unfoldable pub apply_payload : ℤ → ℕ → FilePath → Payload → Replica → Option Replica
  apply_payload now version path (changed change) r = elim (written now path change r) [
    | none ↦ none
    | some disk ↦ some (record r {
      disk = disk;
      store =
          apply_change version path create change.kind change.digest change.size change.mode
            change.mtime r.store;
    })
  ]
  apply_payload now version path deleted r = some (record r {
    disk = if skip_path path r then r.disk else remove_file path r.disk;
    store = apply_change version path delete file [] 0 0 (pos 0) r.store;
  })

  unfoldable pub apply_event : ℤ → SyncEvent → Replica → Option Replica
  unfolding apply_payload written content_of large_content skip_path
  apply_event now ev r = apply_payload now ev.version ev.path ev.payload r

  -- The loop of `syncOnce` over the events that arrive; an error ends it.
  unfoldable pub apply_events : ℤ → List SyncEvent → Replica → Option Replica
  unfolding apply_event
  apply_events now [] r = some r
  apply_events now (ev ∷ evs) r = elim (apply_event now ev r) [
    | none ↦ none
    | some r' ↦ apply_events now evs r'
  ]
