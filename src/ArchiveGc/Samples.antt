-- ===== src/ArchiveGc/Samples.antt =====
-- Collections over a bucket with `h/a` and `h/d/b`, for a hub that has the file `d/b`.
use hubsync.Prelude.{
  ◌≡◌, refl, arith, codes, pos, [], ◌∷◌, inr, bytes_beq, bytes_eq, true, false, index_of, sort_by,
  map, has_prefix, has_suffix, trim_suffix, trim_prefix,
}
use hubsync.Prelude.Table.{find, upsert}
use hubsync.Model.{create}
use hubsync.Store.{HubStore, empty_store, append}
use hubsync.Store.Samples.{change}
use hubsync.Archive.{join_key}
use hubsync.Archive.Fake.{fake, fake_head_by_key, fake_upload, fake_list_keys}
use hubsync.Archive.Lawful.{IsFiledStorage, fake-IsLawful}
use hubsync.Archive.Samples.{bucket}
use hubsync.ArchiveGc.{run, member, keep, delete_file, delete_subtree}
use hubsync.ArchiveGc.Safety.{run-Kept}

abbrev hub : HubStore
hub = (append false 100 (change create (codes "d/b") (codes "y")) empty_store).1

-- The actions for `h/a` and for `h/d/`, where the prefix is `h/`.
closed_run :
    map (λ e. e.action) (run (fake (pos 5)) (codes "h/") hub (codes "h/") true bucket).0
    ≡ delete_file ∷ keep ∷ []
unfolding run fake_list_keys find upsert bytes_beq append sort_by fake_upload has_prefix index_of
    has_suffix join_key trim_suffix trim_prefix
closed_run = refl

-- The same with the prefix written as `h`: the claimed directory is to be deleted.
open_run :
    map (λ e. e.action) (run (fake (pos 5)) (codes "h") hub (join_key (codes "h") []) true bucket).0
    ≡ delete_file ∷ delete_subtree ∷ []
unfolding run fake_list_keys find upsert bytes_beq append sort_by fake_upload has_prefix index_of
    has_suffix join_key trim_suffix trim_prefix
open_run = refl

filed : IsFiledStorage bucket
unfolding find upsert bytes_beq fake_upload
filed = ((refl, λ e. absurd (ground arith)), ((refl, λ e. absurd (ground arith)), tt))

run-Kept_example :
    fake_head_by_key
      (join_key (codes "h/") (codes "d/b"))
      (run (fake (pos 5)) (codes "h/") hub (join_key (codes "h/") []) false bucket).3
    ≡ fake_head_by_key (join_key (codes "h/") (codes "d/b")) bucket
unfolding find upsert bytes_beq append fake_upload has_prefix member
run-Kept_example =
    run-Kept (fake (pos 5)) IsFiledStorage (fake-IsLawful (pos 5)) (codes "h/") hub [] false bucket
      (codes "d/b") (inr (codes "h", refl)) refl refl filed
