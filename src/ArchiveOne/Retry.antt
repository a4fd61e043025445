-- ===== src/ArchiveOne/Retry.antt =====
-- A retry after an upload that was not recorded.
use mathlib.Core.Option
use hubsync.Prelude.{
  ◌≡◌, ◌≢◌, refl, ◌∙◌, arith, Bool, true, false, some, Bytes, [], ◌∷◌, ◌==◌, bytes_eq, ==_refl,
  ==_iff, ℕ, ℤ,
}
use hubsync.Model.{FilePath, is_file, ArchiveState, archived, unpinned, state_eq, HubEntry}
use hubsync.Disk.{DiskFile, stat}
use hubsync.Store.{entry_lookup, mark_archived}
use hubsync.Archive.{RemoteInfo, UploadRequest, Storage, not_exist, join_key, IsUploading}
use hubsync.Reconciler.{Site, Io, calm}
use hubsync.Reconciler.Marks.{entry_lookup-mark_archived}
use hubsync.ArchiveOne.{
  failed, mark_failed, head_matched, head_matches, mark, upload_one, by_head, archive_file,
  archive_one, sha1_bytes,
}

head_matches_same :
    (head : RemoteInfo) (digest algo : Bytes)
    → digest ≢ []
    → head.digest ≡ digest
    → head.digest_algo ≡ algo
    → head_matches head digest algo ≡ true
unfolding head_matches
head_matches_same head [] algo some' d a = absurd (some' refl)
head_matches_same head (b ∷ digest) algo some' d a =
    rw (d, a, ==_refl algo, ==_refl (b ∷ digest), head_matches)
      (ground (arith, ==_iff (b ∷ digest) []))

module _ {S : Type 0} (algo prefix : Bytes) (storage : Storage S) (path : FilePath) (site : Site S)
    (e : HubEntry) where
  abbrev pub sent : Bytes → UploadRequest
  sent bytes = record {
    key = join_key prefix path;
    size = e.size;
    mtime = e.mtime;
    source = bytes;
    digest = e.digest;
    digest_algo = algo;
    content_sha1 = [];
  }

  -- The row waits for an upload.
  abbrev pub Waits : Type 0
  Waits =
      (entry_lookup path site.store ≡ some e)
      × (is_file e.kind ≡ true)
      × ((e.archive_state == archived) ≡ false)
      × ((e.archive_state == unpinned) ≡ false)

  module _ (seconds : ℕ) (mtime : ℤ) (store : Bool) where
    -- Only the database may fail, and only to write.
    abbrev pub io_of : Io
    io_of = record (calm seconds mtime) { store = store }

    at_head :
        Waits
        → archive_one algo prefix storage io_of path site
          ≡ by_head algo prefix storage
              (storage.head_by_key (join_key prefix path) site.remote)
              io_of
              path
              e
              site
    unfolding archive_one archive_file
    at_head (at, kind, a, u) = rw (at, kind, a, u, archive_one, archive_file) refl

  upload_unmarked :
      (seconds : ℕ) (mtime : ℤ) (f : DiskFile) (info : RemoteInfo)
      → stat path site.disk ≡ some f
      → (storage.upload (sent f.bytes) site.remote).0 ≡ some info
      → upload_one algo prefix storage (io_of seconds mtime true) path e site ≡ (
        failed mark_failed,
        record site { remote = (storage.upload (sent f.bytes) site.remote).1 },
      )
  unfolding upload_one mark
  upload_unmarked seconds mtime f info there done = rw (there, done, upload_one, mark) refl

-- A file is uploaded and the database then fails to record it. A retry in which nothing fails does
-- not upload again: it finds the head of its own digest and algorithm, leaves the remote store as it
-- is, and marks the row as archived with the file id of the first upload. This is for a row with a
-- digest, a key without an object before, and a storage that keeps the promises of uploads.
pub archive_one_retry :
    {S : Type 0} (algo prefix : Bytes) (storage : Storage S) (path : FilePath) (site : Site S)
    (e : HubEntry) (t t' : ℕ) (m m' : ℤ) (f : DiskFile) (info : RemoteInfo)
    → IsUploading storage
    → Waits algo prefix storage path site e
    → e.digest ≢ []
    → storage.head_by_key (join_key prefix path) site.remote ≡ not_exist
    → stat path site.disk ≡ some f
    → (storage.upload (sent algo prefix storage path site e f.bytes) site.remote).0 ≡ some info
    → (first second : Site S) × (archive_one algo prefix storage
          (io_of algo prefix storage path site e t m true)
          path
          site
        ≡ (failed mark_failed, first))
      × (first.store ≡ site.store)
      × (archive_one algo prefix storage
            (io_of algo prefix storage path site e t' m' false)
            path
            first
          ≡ (head_matched info, second))
      × (second.remote ≡ first.remote)
      × (Option.map {B = ArchiveState × Bytes}
            (λ r. (r.archive_state, r.archive_file_id))
            (entry_lookup path second.store)
          ≡ some (archived, info.file_id))
unfolding by_head mark
archive_one_retry algo prefix storage path site e t t' m m' f info lawful waits digest none_yet
      there done =
    let req = sent algo prefix storage path site e f.bytes in
    let first = record site { remote = (storage.upload req site.remote).1 } in
    let (size, stamped, by) = lawful.uploaded_as req site.remote info done in
    let same = head_matches_same info e.digest algo digest stamped by in
    let sha1 = sha1_bytes info.content_sha1 in
    (
      first,
      record first { store = mark_archived t' path info.file_id sha1 info.uploaded_at site.store },
      at_head algo prefix storage path site e t m true waits
          ∙ rw none_yet (upload_unmarked algo prefix storage path site e t m f info there done),
      refl,
      at_head algo prefix storage path first e t' m' false waits
          ∙ rw (lawful.head_uploaded req site.remote info done, same) refl,
      refl,
      rw
          (
            entry_lookup-mark_archived t' path path info.file_id sha1 info.uploaded_at site.store,
            ==_refl path,
            waits.0,
          )
          refl,
    )
