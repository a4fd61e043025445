-- ===== src/Reconciler/Samples.antt =====
-- A hub with the file `d/b`, whose bucket is the store in memory.
use hubsync.Prelude.{
  ◌≡◌, refl, Bytes, codes, pos, none, some, [], ◌∷◌, bytes_beq, bytes_eq, trim_suffix, trim_prefix,
  has_prefix,
}
use hubsync.Prelude.Table.{find}
use mathlib.Core.Option
use hubsync.Model.{Digest, HubEntry, file, unset, archived, unpinned}
use hubsync.Disk.{DiskFile, stat}
use hubsync.Store.{empty_store, entry_lookup}
use hubsync.Store.Samples.{one_file}
use hubsync.Archive.{RemoteInfo, join_key}
use hubsync.Archive.Fake.{FakeStorage, fake, fake_head_by_key, fake_download, new_fake_storage}
use hubsync.Reconciler.{Site, calm, evict_with, restore, apply, plan_pin, plan_unpin, no_head}
use hubsync.Reconciler.Evict.{Evicted, evict_with-Evicted}
use hubsync.Reconciler.RoundTrip.{touched, restore-evict_with}
use hubsync.Reconciler.Targets.{Reaches, apply-Reaches}

abbrev pub plain : Bytes → Digest
plain bytes = bytes

abbrev pub algo : Bytes
algo = codes "plain"

abbrev here : DiskFile
here = record { path = codes "a"; bytes = codes "xyz"; mode = 0o644; mtime = pos 7 }

-- The row of `a`, of size 3, is new.
abbrev fresh : Site FakeStorage
fresh = record { store = one_file; disk = here ∷ []; remote = new_fake_storage }

abbrev pub fresh_row : HubEntry
fresh_row = record {
  path = codes "a";
  kind = file;
  digest = codes "x";
  size = 3;
  mode = 0o644;
  mtime = pos 7;
  version = 1;
  archive_state = unset;
  archive_file_id = [];
  archive_sha1 = [];
  archive_uploaded_at = pos 0;
  updated_at = 100;
}

-- The same after an upload by hand.
abbrev kept_row : HubEntry
kept_row = record fresh_row {
  digest = codes "xyz";
  archive_state = archived;
  archive_file_id = codes "id";
}

abbrev pub kept_head : RemoteInfo
kept_head = record {
  file_id = codes "id";
  key = codes "h/a";
  size = 3;
  digest = codes "xyz";
  digest_algo = algo;
  content_sha1 = [];
  uploaded_at = pos 5;
}

abbrev pub kept : Site FakeStorage
kept = record {
  store = record empty_store { hub_entry = kept_row ∷ [] };
  disk = here ∷ [];
  remote = record {
    counter = 1;
    versions =
        record {
          key = codes "h/a";
          older = [];
          latest = record { info = kept_head; bytes = codes "xyz" };
        }
        ∷ [];
  };
}

-- Without a remote head, the eviction of an archived row fails, and the file stays.
no_head_run :
    evict_with plain algo (codes "g/") (fake (pos 5)) (calm 200 (pos 200)) none (codes "a") kept
    ≡ (some no_head, kept)
unfolding evict_with entry_lookup join_key find bytes_beq fake_head_by_key trim_suffix trim_prefix
    has_prefix
no_head_run = refl

evict_with-Evicted_example :
    Evicted plain algo
      (codes "h/")
      (fake (pos 5))
      (calm 200 (pos 200))
      none
      (codes "a")
      kept
      (evict_with plain algo (codes "h/") (fake (pos 5)) (calm 200 (pos 200)) none (codes "a") kept)
evict_with-Evicted_example =
    evict_with-Evicted plain algo (codes "h/") (fake (pos 5)) (calm 200 (pos 200)) none (codes "a")
      kept

restore-evict_with_example :
    (gone back : Site FakeStorage) × (evict_with plain algo
        (codes "h/")
        (fake (pos 5))
        (calm 200 (pos 200))
        none
        (codes "a")
        kept
      ≡ (none, gone))
    × (stat (codes "a") gone.disk ≡ none)
    × (restore plain algo (codes "h/") (fake (pos 5)) (calm 300 (pos 300)) (codes "a") gone
        ≡ (none, back))
    × (Option.map (λ f. f.bytes) (stat (codes "a") back.disk) ≡ some (codes "xyz"))
    × (entry_lookup (codes "a") back.store ≡ some (touched 300 kept_row))
unfolding entry_lookup join_key find bytes_beq fake_head_by_key fake_download trim_suffix
    trim_prefix has_prefix
restore-evict_with_example =
    restore-evict_with plain algo (codes "h/") (fake (pos 5)) 200 300 (pos 200) (pos 300)
      (codes "a") kept kept_row kept_head (codes "xyz") refl refl refl (refl, refl, refl) refl refl

abbrev uploaded : RemoteInfo
uploaded = record {
  file_id = codes "fake-1";
  key = codes "h/a";
  size = 3;
  digest = codes "x";
  digest_algo = algo;
  content_sha1 = [];
  uploaded_at = pos 5;
}

apply-Reaches_example :
    ((plan_pin (codes "a") fresh).1 ≡ none
      → Reaches archived (codes "a") (
          apply plain algo
            (codes "h/")
            (fake (pos 5))
            (λ _. calm 200 (pos 200))
            none
            (plan_pin (codes "a") fresh).0
            fresh))
    × ((plan_unpin (codes "a") fresh).1 ≡ none
        → Reaches unpinned (codes "a") (
            apply plain algo
              (codes "h/")
              (fake (pos 5))
              (λ _. calm 200 (pos 200))
              none
              (plan_unpin (codes "a") fresh).0
              fresh))
apply-Reaches_example =
    apply-Reaches plain algo (codes "h/") (fake (pos 5)) (codes "a") none (λ _. calm 200 (pos 200))
      fresh
