-- ===== src/Reconciler.antt =====
-- reconciler.go: the steps of a plan, on the database, the files and the remote store.
-- What may fail outside of the program is in `Io`, one field for each kind of call.
mod Plans
pub mod Marks
pub mod Evict
mod Targets
mod RoundTrip
pub mod Samples
unfoldable pub use Plans.*
use hubsync.Prelude.{
  hex_decode, ℕ, zero, suc, ◌+◌, ◌*◌, ◌-◌, ℤ, Bool, true, false, ◌&&◌, not, Option, none, some,
  List, [], ◌∷◌, Bytes, ltb, leb, length, if◌then◌else◌, ◌==◌, nat_eq, bytes_eq,
}
use hubsync.Prelude.Table.{find, upsert}
use hubsync.Model.{
  Digest, FilePath, file, is_file, create, ChangeEntry, ArchiveState, unset, dirty, archived,
  unpinned, state_eq, HubEntry,
}
use hubsync.Disk.{Disk, DiskFile, disk_path, stat, remove_file}
use hubsync.Store.{HubStore, append, entry_lookup, mark_archived, mark_unpinned}
use hubsync.Archive.{
  RemoteInfo, Storage, Head, head_of, not_exist, head_failed, join_key, zero_time,
}

-- The checks of the remote head against the row, in their order.
unfoldable pub head_mismatch : RemoteInfo → HubEntry → Option Failure
head_mismatch head e =
    if not (head.file_id == e.archive_file_id)
    then some file_id_differs
    else if not (head.size == e.size)
    then some size_differs
    else if not (head.digest == e.digest)
    then some digest_differs
    else none

-- A pre-fetched listing, by key.
abbrev pub Listing : Type 0
Listing = List RemoteInfo

abbrev pub listing_key : RemoteInfo → Bytes
listing_key ri = ri.key

pub data Found : Type 0 where
  found : RemoteInfo → Found
  missing : Failure → Found

-- What the reconciler is made with: the hasher, the prefix and the storage.
module _ {S : Type 0} (sum : Bytes → Digest) (algo prefix : Bytes) (storage : Storage S) where
  unfoldable pub seed_row : Io → FilePath → Site S → Option Failure × Site S
  seed_row io path site = elim (stat path site.disk) [
    | none ↦ (some open_failed, site)
    | some f ↦
        let c : ChangeEntry = record {
          version = 0;
          path = path;
          op = create;
          kind = file;
          digest = sum f.bytes;
          size = length f.bytes;
          mode = f.mode;
          mtime = f.mtime;
        } in
        let store' = (append io.store io.seconds c site.store).1 in
        (if io.store then some store_failed else none, record site { store = store' })
  ]

  unfoldable pub upload_file : Io → FilePath → HubEntry → Bytes → Site S → Option Failure × Site S
  unfolding hex_decode
  upload_file io path e bytes site =
      let (uploaded, remote') =
        storage.upload
          (record {
            key = join_key prefix path;
            size = e.size;
            mtime = zero_time;
            source = bytes;
            digest = e.digest;
            digest_algo = algo;
            content_sha1 = [];
          })
          site.remote in
      elim uploaded [
        | none ↦ (some upload_failed, record site { remote = remote' })
        | some info ↦ if io.store then (some store_failed, record site { remote = remote' }) else (
          none,
          record site {
            store =
                mark_archived io.seconds path info.file_id (hex_decode info.content_sha1).0
                  info.uploaded_at site.store;
            remote = remote';
          },
        )
      ]

  unfoldable pub archive_row : Io → FilePath → HubEntry → Site S → Option Failure × Site S
  unfolding upload_file
  archive_row io path e site =
      if not (is_file e.kind)
      then (some no_row, site)
      else if e.archive_state == archived
      then (none, site)
      else elim (stat path site.disk) [
        | none ↦ (some open_failed, site)
        | some f ↦ upload_file io path e f.bytes site
      ]

  unfoldable pub archive : Io → FilePath → Site S → Option Failure × Site S
  unfolding archive_row
  archive io path site =
      if io.lookup then (some lookup_failed, site) else elim (entry_lookup path site.store) [
        | none ↦ (some no_row, site)
        | some e ↦ archive_row io path e site
      ]

  unfoldable pub find_head : Option Listing → Bytes → S → Found
  find_head none key remote = elim (storage.head_by_key key remote) [
    | head_of info ↦ found info
    | not_exist ↦ missing no_head
    | head_failed ↦ missing no_head
  ]
  find_head (some listing) key remote = elim (find listing_key key listing) [
    | none ↦ missing not_listed
    | some info ↦ found info
  ]

  -- The row first, then the file; a file that is not there is no error.
  unfoldable pub unpin_and_remove : Io → FilePath → Site S → Option Failure × Site S
  unpin_and_remove io path site =
      if io.store
      then (some store_failed, site)
      else let marked = record site { store = mark_unpinned io.seconds path site.store } in
        if io.remove
        then (some remove_failed, marked)
        else (none, record marked { disk = remove_file path site.disk })

  unfoldable pub evict_row :
      Io → Option Listing → FilePath → HubEntry → Site S → Option Failure × Site S
  unfolding find_head head_mismatch unpin_and_remove
  evict_row io listing path e site =
      if not (e.archive_state == archived)
      then (some wrong_state, site)
      else elim (find_head listing (join_key prefix path) site.remote) [
        | missing failure ↦ (some failure, site)
        | found head ↦ elim (head_mismatch head e) [
          | some failure ↦ (some failure, site)
          | none ↦ unpin_and_remove io path site
        ]
      ]

  unfoldable pub evict_with : Io → Option Listing → FilePath → Site S → Option Failure × Site S
  unfolding evict_row
  evict_with io listing path site =
      if io.lookup then (some lookup_failed, site) else elim (entry_lookup path site.store) [
        | none ↦ (some no_row, site)
        | some e ↦ evict_row io listing path e site
      ]

  -- `os.Rename` of the staging file, which was made with mode 0600, onto the path.
  abbrev pub put_file : Io → FilePath → HubEntry → Bytes → Disk → Disk
  put_file io path e bytes disk =
      upsert disk_path
        (record {
          path = path;
          bytes = bytes;
          mode = if e.mode == 0 then 0o600 else e.mode;
          mtime = io.mtime;
        })
        disk

  unfoldable pub restore_bytes : Io → FilePath → HubEntry → Bytes → Site S → Option Failure × Site S
  restore_bytes io path e bytes site =
      if not (sum bytes == e.digest)
      then (some digest_mismatch, site)
      else if io.sync
      then (some sync_failed, site)
      else if io.store
      then (some store_failed, site)
      else let marked = record site {
        store =
            mark_archived io.seconds path e.archive_file_id e.archive_sha1 e.archive_uploaded_at
              site.store;
      } in
        if io.rename
        then (some rename_failed, marked)
        else (none, record marked { disk = put_file io path e bytes site.disk })

  unfoldable pub restore_row : Io → FilePath → HubEntry → Site S → Option Failure × Site S
  unfolding restore_bytes
  restore_row io path e site =
      if not (e.archive_state == unpinned)
      then (some wrong_state, site)
      else if io.prepare
      then (some prepare_failed, site)
      else elim (storage.download (join_key prefix path) site.remote) [
        | none ↦ (some download_failed, site)
        | some bytes ↦ restore_bytes io path e bytes site
      ]

  unfoldable pub restore : Io → FilePath → Site S → Option Failure × Site S
  unfolding restore_row
  restore io path site =
      if io.lookup then (some lookup_failed, site) else elim (entry_lookup path site.store) [
        | none ↦ (some no_row, site)
        | some e ↦ restore_row io path e site
      ]

  unfoldable pub apply_step :
      Io → Option Listing → PlanStep → FilePath → Site S → Option Failure × Site S
  unfolding seed_row archive evict_with restore
  apply_step io listing noop_step path site = (none, site)
  apply_step io listing seed_step path site = seed_row io path site
  apply_step io listing archive_step path site = archive io path site
  apply_step io listing evict_step path site = evict_with io listing path site
  apply_step io listing restore_step path site = restore io path site

  -- Each step has its own environment; the first failure ends the plan.
  unfoldable pub apply_steps :
      (ℕ → Io) → Option Listing → FilePath → List PlanStep → Site S → Option Failure × Site S
  unfolding apply_step
  apply_steps io listing path [] site = (none, site)
  apply_steps io listing path (step ∷ steps) site =
      let (failure, site') = apply_step (io 0) listing step path site in
      let rest = apply_steps (λ i. io (i + 1)) listing path steps site' in
      elim failure [ some f ↦ (some f, site') | none ↦ rest ]

  unfoldable pub apply : (ℕ → Io) → Option Listing → Plan → Site S → Option Failure × Site S
  unfolding apply_steps
  apply io listing plan site = apply_steps io listing plan.path plan.steps site
