-- ===== src/Rpc/Samples.antt =====
-- A hub with an archived file in a bucket in memory.
use hubsync.Prelude.{
  hex_decode, ◌≡◌, refl, arith, inl, Bool, true, false, Option, none, some, [], ◌∷◌, List, map,
  Bytes, codes, pos, bytes_beq, bytes_eq, has_prefix, trim_prefix, trim_suffix, index_of, sort_by,
  insert_by, bytes_lt, decimal,
}
use hubsync.Prelude.Table.{find, upsert, update}
use hubsync.Model.{FilePath, hub_path}
use hubsync.Store.{HubStore, entry_lookup, mark_archived}
use hubsync.Archive.{join_key}
use hubsync.Archive.Fake.{
  fake, fake_list_keys, list_from, list_one, common_tail, FakeStorage, fake_upload,
  new_fake_storage,
}
use hubsync.Reconciler.{
  Site, calm, evict_with, not_listed, Failure, plan_unpin, apply, apply_steps, apply_step, archive,
  archive_row, upload_file, evict_row, find_head,
}
use hubsync.Reconciler.Samples.{kept, kept_head, plain, algo, fresh_row}
use hubsync.Rpc.{
  match_globs, literal_prefix, is_in, merged, lookup_from, remote_lookup_for_globs, PinRequest,
  target_unpinned, run_reconcile, reconcile_all, reconcile_one, match_all, match_glob, RunEnd,
  LsRequest, local_ls, delimited_entries, files_of, dirs_of, entries_by_prefix, place_of, results,
  bad_glob, no_matches, list_failed,
}
use hubsync.Rpc.Lookup.{ended, evict_with-remote_lookup}
use hubsync.Rpc.Calls.{call_rpc}
use hubsync.Rpc.Called.{Admitted, run_here, call_rpc-run_reconcile}
use hubsync.Rpc.FakeListing.{fake-IsListing}

lookup_run :
    remote_lookup_for_globs (codes "h/") (fake (pos 5)) (codes "a*" ∷ codes "a?" ∷ []) kept.remote
    ≡ some (kept_head ∷ [])
unfolding remote_lookup_for_globs lookup_from literal_prefix is_in merged join_key trim_prefix
    trim_suffix has_prefix bytes_beq fake_list_keys list_from list_one common_tail sort_by insert_by
    bytes_lt upsert
lookup_run = refl

evict_with-remote_lookup_example :
    ended (
      evict_with plain algo
        (codes "h/")
        (fake (pos 5))
        (calm 200 (pos 200))
        (some (kept_head ∷ []))
        (codes "a")
        kept)
    ≡ ended (
        evict_with plain algo
          (codes "h/")
          (fake (pos 5))
          (calm 200 (pos 200))
          none
          (codes "a")
          kept)
unfolding find has_prefix literal_prefix
evict_with-remote_lookup_example =
    evict_with-remote_lookup plain algo (codes "h/") (fake (pos 5)) (calm 200 (pos 200))
      (codes "a*" ∷ codes "a?" ∷ []) (codes "a*") (codes "a") kept (kept_head ∷ [])
      (fake-IsListing (pos 5))
      (record { distinct = (refl, tt); filed = ((refl, (λ e. absurd (ground (arith, e)))), tt) })
      lookup_run (inl refl) refl refl

-- A row that is not archived yet: the listing is taken before the upload, so that the eviction does not
-- find the object that the same plan has uploaded.
abbrev prefix_match : Bytes → FilePath → Option Bool
prefix_match glob path = some (has_prefix path (literal_prefix glob))

abbrev unarchived : Site FakeStorage
unarchived = record kept {
  store = record (kept.store) { hub_entry = fresh_row ∷ [] };
  remote = new_fake_storage;
}

abbrev unpin_all : PinRequest
unpin_all = record { globs = codes "*" ∷ []; dry = false }

abbrev failures : RunEnd → List (Option Failure)
failures bad_glob = []
failures no_matches = []
failures list_failed = []
failures (results rs) = map (λ r. r.failure) rs

stale_listing_run :
    failures
      (run_reconcile plain algo
        (codes "h/")
        (fake (pos 5))
        prefix_match
        unpin_all
        target_unpinned
        (λ i j. calm 200 (pos 200))
        unarchived).0
    ≡ some not_listed ∷ []
unfolding run_reconcile reconcile_all reconcile_one match_globs match_all match_glob
    remote_lookup_for_globs lookup_from literal_prefix is_in merged join_key trim_prefix trim_suffix
    has_prefix bytes_beq fake_list_keys list_from list_one common_tail sort_by insert_by bytes_lt
    upsert find update entry_lookup plan_unpin apply apply_steps apply_step archive archive_row
    upload_file fake_upload evict_with evict_row find_head hex_decode mark_archived decimal
stale_listing_run = refl

-- One level below `d/`: the row of `d/e/f` is a directory, the row of `d/g` is shown.
abbrev deep_store : HubStore
deep_store = record (kept.store) {
  hub_entry =
      record fresh_row { path = codes "d/e/f" }
      ∷ record fresh_row { path = codes "d/g" }
      ∷ fresh_row
      ∷ [];
}

abbrev one_level : LsRequest
one_level = record { prefix = codes "d/"; all = false }

local_ls_run :
    map hub_path (local_ls (λ p path. has_prefix path p) one_level deep_store)
    ≡ codes "d/e/" ∷ codes "d/g" ∷ []
unfolding local_ls delimited_entries files_of dirs_of entries_by_prefix place_of index_of has_prefix
    bytes_beq find is_in sort_by insert_by bytes_lt trim_suffix
local_ls_run = refl

call_rpc-run_reconcile_example :
    (Admitted (codes "t") (codes "t")
      → call_rpc plain algo
          (codes "h/")
          (fake (pos 5))
          prefix_match
          (codes "t")
          true
          false
          (λ i j. calm 200 (pos 200))
          (codes "t")
          target_unpinned
          unpin_all
          kept
        ≡ run_here plain algo
            (codes "h/")
            (fake (pos 5))
            prefix_match
            (codes "t")
            false
            target_unpinned
            (λ i j. calm 200 (pos 200))
            unpin_all
            kept)
    × (¬ Admitted (codes "t") (codes "t")
        → call_rpc plain algo
            (codes "h/")
            (fake (pos 5))
            prefix_match
            (codes "t")
            true
            false
            (λ i j. calm 200 (pos 200))
            (codes "t")
            target_unpinned
            unpin_all
            kept
          ≡ (none, kept))
call_rpc-run_reconcile_example =
    call_rpc-run_reconcile plain algo (codes "h/") (fake (pos 5)) prefix_match (codes "t") false
      (codes "t") target_unpinned (λ i j. calm 200 (pos 200)) unpin_all kept
