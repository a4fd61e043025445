-- ===== src/Event/Content.antt =====
-- What a client's files hold: the digest of their rows, outside of write mode.
use hubsync.Prelude.{
  pos, ℕ, ◌<◌, ◌≡◌, refl, ap, ◌∙◌, arith, if◌then◌else◌, ◌==◌, ltb, bytes_eq, ℤ, false, Bool-cases,
  Option-cases, inl, inr, none, some, Bytes, length, ==_iff,
}
use hubsync.Prelude.Table.{
  find, upsert, remove, NodupKeys, find-upsert, find-remove, upsert-NodupKeys, remove-NodupKeys,
}
use hubsync.Model.{Digest, FilePath, HubTreeEntry, hub_tree_path}
use hubsync.Disk.{Disk, disk_path, stat, write_file, remove_file}
use hubsync.ClientStore.{lookup_by_digest, apply_change}
use hubsync.Delta.{optimal_block_size, compute_signature, apply_delta}
use hubsync.Delta.Wire.{delta_ops_from_proto}
use hubsync.Event.{
  fetch_delta, FileChange, changed, deleted, Payload, SyncEvent, Remote, Replica, written,
  content_of, full_content, delta_content, large_content, apply_payload, apply_event, skip_path,
}
use hubsync.Event.Files.{bytes_at, bytes_at-write_file, bytes_at-set_mtime, lookup_by_digest-find}

-- What an honest hub sends: bytes of the digest that is asked for.
pub record IsHonest (sum : Bytes → Digest) (remote : Remote) : Type 0 where
  pub blobs : (d : Digest) (b : Bytes) → remote.blob d ≡ some b → sum b ≡ d

-- Inlined content has the event's digest.
abbrev pub IsHonestPayload : (Bytes → Digest) → Payload → Type 0
IsHonestPayload sum (changed c) = 0 < length c.inlined → sum c.inlined ≡ c.digest
IsHonestPayload sum deleted = Unit

-- Every tracked path that has a file has one of its row's digest, and the paths are distinct.
pub record IsFaithful (sum : Bytes → Digest) (r : Replica) : Type 0 where
  pub distinct : NodupKeys hub_tree_path r.store.hub_tree
  pub contents :
      (k : FilePath) (e : HubTreeEntry) (b : Bytes)
      → find hub_tree_path k r.store.hub_tree ≡ some e
      → bytes_at k r.disk ≡ some b
      → sum b ≡ e.digest

module _ (sum sha256 : Bytes → Digest) (remote : Remote) where
  -- The disk after a change: the content at its path, and the others' files as they were.
  pub written-bytes_at :
      (now : ℤ) (path : FilePath) (change : FileChange) (r : Replica) {disk : Disk}
      → skip_path path r ≡ false
      → written sum sha256 remote now path change r ≡ some disk
      → (b : Bytes) × (content_of sum sha256 remote path change r ≡ some b)
        × ((k : FilePath) → bytes_at k disk ≡ (if path == k then some b else bytes_at k r.disk))
  unfolding written
  written-bytes_at now path change r keep h =
      elim (Option-cases (content_of sum sha256 remote path change r)) [
        | inl e ↦ absurd (ground arith)
        | inr (b, e) ↦ (
          b,
          e,
          λ k. ground (
            arith,
            bytes_at-set_mtime change.mtime path k (write_file now path b change.mode r.disk),
            bytes_at-write_file now path k b change.mode r.disk,
          ),
        )
      ]

module _ (sum sha256 : Bytes → Digest) (remote : Remote) (honest : IsHonest sum remote) where
  fetch_delta-sum :
      (digest : Digest) (local b : Bytes)
      → fetch_delta sum sha256 remote digest local ≡ some b
      → sum b ≡ digest
  unfolding fetch_delta
  fetch_delta-sum digest local b h =
      let bs = optimal_block_size (pos (length local)) in
      elim (Option-cases (remote.post_delta digest bs (compute_signature sha256 local bs))) [
        | inl e ↦ absurd (ground (arith, e, h))
        | inr (response, e) ↦
            let result = apply_delta local (delta_ops_from_proto response) bs in
            ground (arith, e, h, ==_iff (sum result) digest)
      ]

  delta_content-sum :
      (digest : Digest) (path : FilePath) (disk : Disk) (b : Bytes)
      → delta_content sum sha256 remote digest path disk ≡ some b
      → sum b ≡ digest
  unfolding delta_content full_content
  delta_content-sum digest path disk b h = elim (Option-cases (stat path disk)) [
    | inl e ↦ ground (arith, honest.blobs digest b)
    | inr (f, e) ↦ ground (arith, honest.blobs digest b, fetch_delta-sum digest f.bytes b)
  ]

  large_content-sum :
      (digest : Digest) (path : FilePath) (r : Replica) (b : Bytes)
      → IsFaithful sum r
      → large_content sum sha256 remote digest path r ≡ some b
      → sum b ≡ digest
  unfolding large_content
  large_content-sum digest path r b faithful h =
      elim (Option-cases (lookup_by_digest digest path r.store)) [
        | inl e ↦ delta_content-sum digest path r.disk b (rw (e, large_content) at h)
        | inr (p, e) ↦ elim (Option-cases (stat p r.disk)) [
          | inl gone ↦ delta_content-sum digest path r.disk b (rw (e, gone, large_content) at h)
          | inr (f, there) ↦
              let (row, at, same) = lookup_by_digest-find digest path r.store faithful.distinct e in
              ground (arith, faithful.contents p row f.bytes at (ground arith), e, there, same)
        ]
      ]

  content_of-sum :
      (path : FilePath) (change : FileChange) (r : Replica) (b : Bytes)
      → IsFaithful sum r
      → IsHonestPayload sum (changed change)
      → content_of sum sha256 remote path change r ≡ some b
      → sum b ≡ change.digest
  unfolding content_of
  content_of-sum path change r b faithful inlined h =
      elim (Bool-cases (ltb 0 (length change.inlined))) [
        | inl full ↦ ground (arith, inlined (ground arith))
        | inr empty ↦
            large_content-sum change.digest path r b faithful (rw (empty, content_of) at h)
      ]

  upsert-IsFaithful :
      (row : HubTreeEntry) (b : Bytes) (r r' : Replica)
      → IsFaithful sum r
      → r'.store.hub_tree ≡ upsert hub_tree_path row r.store.hub_tree
      → ((k : FilePath)
          → bytes_at k r'.disk ≡ (if row.path == k then some b else bytes_at k r.disk))
      → sum b ≡ row.digest
      → IsFaithful sum r'
  upsert-IsFaithful row b r r' h tree disk right = record {
    distinct = rw tree (upsert-NodupKeys hub_tree_path row r.store.hub_tree h.distinct);
    contents = λ k e b' at has. ground (
      arith,
      h.contents k e b',
      disk k,
      ap (find hub_tree_path k) tree,
      find-upsert hub_tree_path k row r.store.hub_tree,
      at,
      has,
      right,
    );
  }

  remove-IsFaithful :
      (path : FilePath) (r r' : Replica)
      → IsFaithful sum r
      → r'.store.hub_tree ≡ remove hub_tree_path path r.store.hub_tree
      → ((k : FilePath) → bytes_at k r'.disk ≡ (if path == k then none else bytes_at k r.disk))
      → IsFaithful sum r'
  remove-IsFaithful path r r' h tree disk = record {
    distinct = rw tree (remove-NodupKeys hub_tree_path path r.store.hub_tree h.distinct);
    contents = λ k e b' at has. ground (
      arith,
      h.contents k e b',
      disk k,
      ap (find hub_tree_path k) tree,
      find-remove hub_tree_path k path r.store.hub_tree,
      at,
      has,
    );
  }

  changed-IsFaithful :
      (now : ℤ) (version : ℕ) (path : FilePath) (c : FileChange) (r r' : Replica)
      → IsFaithful sum r
      → skip_path path r ≡ false
      → IsHonestPayload sum (changed c)
      → apply_payload sum sha256 remote now version path (changed c) r ≡ some r'
      → IsFaithful sum r'
  unfolding apply_payload apply_change
  changed-IsFaithful now version path c r r' h keep inlined done =
      elim (Option-cases (written sum sha256 remote now path c r)) [
        | inl e ↦ absurd (ground arith)
        | inr (disk, e) ↦
            let (b, content, bytes) = written-bytes_at sum sha256 remote now path c r keep e in
            let right : sum b ≡ c.digest = content_of-sum path c r b h inlined content in
            let row : HubTreeEntry = record {
              entry = record {
                path = path;
                kind = c.kind;
                digest = c.digest;
                size = c.size;
                mode = c.mode;
                mtime = c.mtime;
              };
              version = version;
            } in
            let tree : r'.store.hub_tree ≡ upsert hub_tree_path row r.store.hub_tree =
              ground (arith, e) in
            let same : r'.disk ≡ disk = ground (arith, e) in
            upsert-IsFaithful row b r r' h tree (λ k. ap (bytes_at k) same ∙ bytes k) right
      ]

  deleted_disk :
      (now : ℤ) (version : ℕ) (path : FilePath) (r r' : Replica)
      → skip_path path r ≡ false
      → apply_payload sum sha256 remote now version path deleted r ≡ some r'
      → r'.disk ≡ remove_file path r.disk
  unfolding apply_payload apply_change
  deleted_disk now version path r r' keep done = ground arith

  deleted-IsFaithful :
      (now : ℤ) (version : ℕ) (path : FilePath) (r r' : Replica)
      → IsFaithful sum r
      → skip_path path r ≡ false
      → apply_payload sum sha256 remote now version path deleted r ≡ some r'
      → IsFaithful sum r'
  unfolding apply_payload apply_change
  deleted-IsFaithful now version path r r' h keep done =
      remove-IsFaithful path r r' h (ground arith) λ k. ground (
        arith,
        find-remove disk_path k path r.disk,
        ap (bytes_at k) (deleted_disk now version path r r' keep done),
      )

  -- In read-only mode every event that is taken in leaves each tracked path that has a file with
  -- content of the digest in its row, if the hub and the inlined content are honest. This covers
  -- inlined content, copies of local files, deltas, whole blobs, and deletions.
  pub apply_event-IsFaithful :
      (now : ℤ) (ev : SyncEvent) (r r' : Replica)
      → IsFaithful sum r
      → r.local_edits ≡ none
      → IsHonestPayload sum ev.payload
      → apply_event sum sha256 remote now ev r ≡ some r'
      → IsFaithful sum r'
  unfolding apply_event
  apply_event-IsFaithful now ev r r' h mode inlined done =
      elim ev.payload
          as (λ p.
            IsHonestPayload sum p
            → apply_payload sum sha256 remote now ev.version ev.path p r ≡ some r'
            → IsFaithful sum r') [
              | changed c ↦ λ i d. changed-IsFaithful now ev.version ev.path c r r' h keep i d
              | deleted ↦ λ i d. deleted-IsFaithful now ev.version ev.path r r' h keep d
            ]
        inlined done
    where
      keep : skip_path ev.path r ≡ false
      keep = unfold skip_path in rw (mode, skip_path) refl
