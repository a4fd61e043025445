-- ===== src/Reconciler/RoundTrip.antt =====
-- Without failures: each step's result, and content that comes back after an eviction.
use mathlib.Core.Option
use hubsync.Prelude.{
  hex_decode, ℕ, ◌+◌, ◌≡◌, refl, sym, ap, ◌∙◌, ℤ, true, false, ◌⊎◌, inl, inr, Option, none, some,
  Bytes, List, [], ◌∷◌, length, ◌==◌, nat_eq, bytes_eq, ==_refl,
}
use hubsync.Prelude.Table.{find-upsert, find-remove}
use hubsync.Model.{Digest, FilePath, is_file, archived, unpinned, unset, dirty, state_eq, HubEntry}
use hubsync.Disk.{DiskFile, disk_path, stat, remove_file}
use hubsync.Store.{HubStore, entry_lookup, mark_archived, mark_unpinned, as_archived, as_unpinned}
use hubsync.Archive.{RemoteInfo, UploadRequest, zero_time, Storage, head_of, join_key, IsUploading}
use hubsync.Reconciler.{
  Failure, Site, Io, calm, head_mismatch, find_head, unpin_and_remove, evict_row, evict_with,
  archive, archive_row, upload_file, restore, restore_row, restore_bytes, put_file, apply_steps,
  apply_step, archive_step, evict_step, apply, plan_unpin, unpin_steps, PlanStep,
}
use hubsync.Reconciler.Marks.{entry_lookup-mark_unpinned, entry_lookup-mark_archived}
use hubsync.Reconciler.Evict.{head_mismatch_same}

module _ {S : Type 0} (sum : Bytes → Digest) (algo prefix : Bytes) (storage : Storage S)
    (seconds : ℕ) (mtime : ℤ) (path : FilePath) where
  abbrev pub request : HubEntry → Bytes → UploadRequest
  request e bytes = record {
    key = join_key prefix path;
    size = e.size;
    mtime = zero_time;
    source = bytes;
    digest = e.digest;
    digest_algo = algo;
    content_sha1 = [];
  }

  abbrev after_archive : RemoteInfo → S → Site S → Site S
  after_archive info remote site = record site {
    store =
        mark_archived seconds path info.file_id (hex_decode info.content_sha1).0 info.uploaded_at
          site.store;
    remote = remote;
  }

  archive-calm :
      (site : Site S) (e : HubEntry) (f : DiskFile) (info : RemoteInfo)
      → entry_lookup path site.store ≡ some e
      → is_file e.kind ≡ true
      → (e.archive_state == archived) ≡ false
      → stat path site.disk ≡ some f
      → (storage.upload (request e f.bytes) site.remote).0 ≡ some info
      → archive sum algo prefix storage (calm seconds mtime) path site
        ≡ (none, after_archive info (storage.upload (request e f.bytes) site.remote).1 site)
  unfolding archive archive_row upload_file
  archive-calm site e f info at kind state there uploaded =
      rw (at, kind, state, there, uploaded, archive, archive_row, upload_file) refl

  abbrev after_evict : Site S → Site S
  after_evict site = record site {
    store = mark_unpinned seconds path site.store;
    disk = remove_file path site.disk;
  }

  evict_with-calm :
      (site : Site S) (e : HubEntry) (head : RemoteInfo)
      → entry_lookup path site.store ≡ some e
      → e.archive_state ≡ archived
      → storage.head_by_key (join_key prefix path) site.remote ≡ head_of head
      → head_mismatch head e ≡ none
      → evict_with sum algo prefix storage (calm seconds mtime) none path site
        ≡ (none, after_evict site)
  unfolding evict_with evict_row find_head unpin_and_remove
  evict_with-calm site e head at state there same =
      rw (at, state, there, same, evict_with, evict_row, find_head) refl

  abbrev after_restore : HubEntry → Bytes → Site S → Site S
  after_restore e bytes site = record site {
    store =
        mark_archived seconds path e.archive_file_id e.archive_sha1 e.archive_uploaded_at
          site.store;
    disk = put_file sum algo prefix storage (calm seconds mtime) path e bytes site.disk;
  }

  restore-calm :
      (site : Site S) (e : HubEntry) (bytes : Bytes)
      → entry_lookup path site.store ≡ some e
      → e.archive_state ≡ unpinned
      → storage.download (join_key prefix path) site.remote ≡ some bytes
      → sum bytes ≡ e.digest
      → restore sum algo prefix storage (calm seconds mtime) path site
        ≡ (none, after_restore e bytes site)
  unfolding restore restore_row restore_bytes
  restore-calm site e bytes at state there right =
      rw (at, state, there, right, ==_refl e.digest, restore, restore_row, restore_bytes) refl

-- The row of the path after both marks.
abbrev pub touched : ℕ → HubEntry → HubEntry
touched seconds e = record e { updated_at = seconds }

lookup_unpinned :
    (seconds : ℕ) (path : FilePath) (s : HubStore) (e : HubEntry)
    → entry_lookup path s ≡ some e
    → entry_lookup path (mark_unpinned seconds path s) ≡ some (as_unpinned seconds e)
lookup_unpinned seconds path s e at =
    entry_lookup-mark_unpinned seconds path path s ∙ rw (==_refl path, at) refl

lookup_archived :
    (seconds : ℕ) (path : FilePath) (id sha1 : Bytes) (uploaded_at : ℤ) (s : HubStore)
    (e : HubEntry)
    → entry_lookup path s ≡ some e
    → entry_lookup path (mark_archived seconds path id sha1 uploaded_at s)
      ≡ some (as_archived seconds id sha1 uploaded_at e)
lookup_archived seconds path id sha1 uploaded_at s e at =
    entry_lookup-mark_archived seconds path path id sha1 uploaded_at s ∙ rw (==_refl path, at) refl

-- Without failures, an archived row whose remote head has its file id, size and digest, and whose
-- remote bytes have its digest: the eviction succeeds and removes the local file, and the restoring
-- after it succeeds and puts the remote bytes at the path. The row is then the row from before, but
-- for the time of its update.
pub restore-evict_with :
    {S : Type 0} (sum : Bytes → Digest) (algo prefix : Bytes) (storage : Storage S) (t t' : ℕ)
    (m m' : ℤ) (path : FilePath) (site : Site S) (e : HubEntry) (head : RemoteInfo) (bytes : Bytes)
    → entry_lookup path site.store ≡ some e
    → e.archive_state ≡ archived
    → storage.head_by_key (join_key prefix path) site.remote ≡ head_of head
    → (head.file_id ≡ e.archive_file_id) × (head.size ≡ e.size) × (head.digest ≡ e.digest)
    → storage.download (join_key prefix path) site.remote ≡ some bytes
    → sum bytes ≡ e.digest
    → (gone back : Site S) × (evict_with sum algo prefix storage (calm t m) none path site
        ≡ (none, gone))
      × (stat path gone.disk ≡ none)
      × (restore sum algo prefix storage (calm t' m') path gone ≡ (none, back))
      × (Option.map (λ f. f.bytes) (stat path back.disk) ≡ some bytes)
      × (entry_lookup path back.store ≡ some (touched t' e))
restore-evict_with sum algo prefix storage t t' m m' path site e head bytes at state there same down
      right =
    let gone = after_evict sum algo prefix storage t m path site in
    let unpinned_at = lookup_unpinned t path site.store e at in
    let back = after_restore sum algo prefix storage t' m' path (as_unpinned t e) bytes gone in
    (
      gone,
      back,
      evict_with-calm sum algo prefix storage t m path site e head at state there
          (head_mismatch_same head e same.0 same.1 same.2),
      find-remove disk_path path path site.disk ∙ rw (==_refl path) refl,
      restore-calm sum algo prefix storage t' m' path gone (as_unpinned t e) bytes unpinned_at refl
          down right,
      rw (find-upsert, ==_refl path) refl,
      lookup_archived t' path e.archive_file_id e.archive_sha1 e.archive_uploaded_at gone.store
            (as_unpinned t e) unpinned_at
          ∙ ap (λ s. some (record e { archive_state = s; updated_at = t' })) (sym state),
    )

-- A step that succeeds hands its site to the next.
apply_cons :
    {S : Type 0} (sum : Bytes → Digest) (algo prefix : Bytes) (storage : Storage S) (io : ℕ → Io)
    (path : FilePath) (step : PlanStep) (steps : List PlanStep) (site mid : Site S)
    → apply_step sum algo prefix storage (io 0) none step path site ≡ (none, mid)
    → apply_steps sum algo prefix storage io none path (step ∷ steps) site
      ≡ apply_steps sum algo prefix storage (λ i. io (i + 1)) none path steps mid
unfolding apply_steps
apply_cons {S} sum algo prefix storage io path step steps site mid done =
    ap
      (λ p. elim p.0 as (λ _. Option Failure × Site S) [
        | some f ↦ (some f, p.1)
        | none ↦ apply_steps sum algo prefix storage (λ i. io (i + 1)) none path steps p.1
      ])
      done

apply_two :
    {S : Type 0} (sum : Bytes → Digest) (algo prefix : Bytes) (storage : Storage S) (io : ℕ → Io)
    (path : FilePath) (first second : PlanStep) (site mid last : Site S)
    → apply_step sum algo prefix storage (io 0) none first path site ≡ (none, mid)
    → apply_step sum algo prefix storage (io 1) none second path mid ≡ (none, last)
    → apply_steps sum algo prefix storage io none path (first ∷ second ∷ []) site ≡ (none, last)
unfolding apply_steps
apply_two sum algo prefix storage io path first second site mid last a b =
    apply_cons sum algo prefix storage io path first (second ∷ []) site mid a
    ∙ apply_cons sum algo prefix storage (λ i. io (i + 1)) path second [] mid last b

-- Without failures, a file whose row is new or dirty and has its size: the plan to unpin it, run
-- against a storage that keeps the promises of uploads and takes this one, succeeds. The row is then
-- unpinned, the local file is gone, and the remote store gives back the very bytes of that file.
pub apply-plan_unpin :
    {S : Type 0} (sum : Bytes → Digest) (algo prefix : Bytes) (storage : Storage S) (t : ℕ) (m : ℤ)
    (path : FilePath) (site : Site S) (e : HubEntry) (f : DiskFile) (info : RemoteInfo)
    → IsUploading storage
    → entry_lookup path site.store ≡ some e
    → is_file e.kind ≡ true
    → (e.archive_state ≡ unset) ⊎ (e.archive_state ≡ dirty)
    → stat path site.disk ≡ some f
    → e.size ≡ length f.bytes
    → (storage.upload (request sum algo prefix storage t m path e f.bytes) site.remote).0
      ≡ some info
    → (site' : Site S) × (apply sum algo prefix storage
          (λ _. calm t m)
          none
          (plan_unpin path site).0
          site
        ≡ (none, site'))
      × (Option.map (λ r. r.archive_state) (entry_lookup path site'.store) ≡ some unpinned)
      × (stat path site'.disk ≡ none)
      × (storage.download (join_key prefix path) site'.remote ≡ some f.bytes)
unfolding apply plan_unpin apply_step
apply-plan_unpin sum algo prefix storage t m path site e f info lawful at kind state there size
      uploaded =
    let req = request sum algo prefix storage t m path e f.bytes in
    let remote' = (storage.upload req site.remote).1 in
    let mid = after_archive sum algo prefix storage t m path info remote' site in
    let last = after_evict sum algo prefix storage t m path mid in
    let row = as_archived t info.file_id (hex_decode info.content_sha1).0 info.uploaded_at e in
    let row_at =
      lookup_archived t path info.file_id (hex_decode info.content_sha1).0 info.uploaded_at
        site.store e at in
    let (info_size, info_digest, _) = lawful.uploaded_as req site.remote info uploaded in
    (
      last,
      planned
          ∙ apply_two sum algo prefix storage (λ _. calm t m) path archive_step evict_step site mid
              last
              (archive-calm sum algo prefix storage t m path site e f info at kind not_archived
                there uploaded)
              (evict_with-calm sum algo prefix storage t m path mid row info row_at refl
                (lawful.head_uploaded req site.remote info uploaded)
                (head_mismatch_same info row refl (info_size ∙ sym size) info_digest)),
      rw (lookup_unpinned t path mid.store row row_at) refl,
      find-remove disk_path path path mid.disk ∙ rw (==_refl path) refl,
      lawful.download_uploaded req site.remote info uploaded,
    )
  where
    not_archived : (e.archive_state == archived) ≡ false
    not_archived = elim state [ inl a ↦ rw a refl | inr a ↦ rw a refl ]

    steps : unpin_steps e.archive_state ≡ archive_step ∷ evict_step ∷ []
    steps = elim state [ inl a ↦ rw a refl | inr a ↦ rw a refl ]

    planned :
        apply sum algo prefix storage (λ _. calm t m) none (plan_unpin path site).0 site
        ≡ apply_steps sum algo prefix storage
            (λ _. calm t m)
            none
            path
            (archive_step ∷ evict_step ∷ [])
            site
    planned = rw (at, plan_unpin, steps) refl
