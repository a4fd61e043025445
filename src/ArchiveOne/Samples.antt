-- ===== src/ArchiveOne/Samples.antt =====
-- A retry against the store in memory.
use hubsync.Prelude.{
  ◌≡◌, refl, arith, Bytes, codes, pos, some, [], ◌∷◌, bytes_beq, bytes_eq, true, false, decimal,
  trim_suffix, trim_prefix, has_prefix,
}
use mathlib.Core.Option
use hubsync.Prelude.Table.{find, upsert}
use hubsync.Model.{HubEntry, file, unset, archived, ArchiveState}
use hubsync.Disk.{DiskFile}
use hubsync.Store.{entry_lookup, append}
use hubsync.Store.Samples.{one_file}
use hubsync.Archive.{RemoteInfo, join_key}
use hubsync.Archive.Fake.{FakeStorage, fake, fake_head_by_key, fake_upload, new_fake_storage}
use hubsync.Archive.Lawful.{fake-IsUploading}
use hubsync.Reconciler.{Site}
use hubsync.ArchiveOne.{failed, mark_failed, head_matched, archive_one}
use hubsync.ArchiveOne.Retry.{io_of, archive_one_retry}

abbrev algo : Bytes
algo = codes "plain"

abbrev here : DiskFile
here = record { path = codes "a"; bytes = codes "xyz"; mode = 0o644; mtime = pos 7 }

abbrev site : Site FakeStorage
site = record { store = one_file; disk = here ∷ []; remote = new_fake_storage }

abbrev row : HubEntry
row = record {
  path = codes "a";
  kind = file;
  digest = codes "x";
  size = 3;
  mode = 0o644;
  mtime = pos 7;
  version = 1;
  archive_state = unset;
  archive_file_id = [];
  archive_sha1 = [];
  archive_uploaded_at = pos 0;
  updated_at = 100;
}

abbrev uploaded : RemoteInfo
uploaded = record {
  file_id = codes "fake-1";
  key = codes "h/a";
  size = 3;
  digest = codes "x";
  digest_algo = algo;
  content_sha1 = [];
  uploaded_at = pos 5;
}

archive_one_retry_example :
    (first second : Site FakeStorage) × (archive_one algo
        (codes "h/")
        (fake (pos 5))
        (io_of algo (codes "h/") (fake (pos 5)) (codes "a") site row 200 (pos 200) true)
        (codes "a")
        site
      ≡ (failed mark_failed, first))
    × (first.store ≡ one_file)
    × (archive_one algo
          (codes "h/")
          (fake (pos 5))
          (io_of algo (codes "h/") (fake (pos 5)) (codes "a") site row 201 (pos 201) false)
          (codes "a")
          first
        ≡ (head_matched uploaded, second))
    × (second.remote ≡ first.remote)
    × (Option.map {B = ArchiveState × Bytes}
          (λ r. (r.archive_state, r.archive_file_id))
          (entry_lookup (codes "a") second.store)
        ≡ some (archived, codes "fake-1"))
unfolding entry_lookup append find upsert bytes_beq fake_upload fake_head_by_key join_key decimal
    trim_suffix trim_prefix has_prefix
archive_one_retry_example =
    archive_one_retry algo (codes "h/") (fake (pos 5)) (codes "a") site row 200 201 (pos 200)
      (pos 201) here uploaded (fake-IsUploading (pos 5)) (refl, refl, refl, refl)
      (λ e. absurd (ground arith)) refl refl refl
