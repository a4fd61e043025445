-- ===== src/ArchiveGc.antt =====
-- archive_gc.go: the deletion of remote objects that no row claims.
mod Classified
mod Safety
mod Samples
use hubsync.Prelude.{
  ℕ, ◌+◌, ℤ, Bool, true, false, ◌&&◌, not, Option, none, some, List, [], ◌∷◌, ◌++◌, map, Bytes,
  codes, length, drop, select, if◌then◌else◌, ◌==◌, bytes_eq, has_prefix, has_suffix, pos,
}
use hubsync.Model.{FilePath, is_file, HubEntry}
use hubsync.Store.{HubStore, entry_snapshot}
use hubsync.Archive.{RemoteInfo, Storage, join_key}

pub data EntryKind : Type 0 where
  file_entry dir_entry : EntryKind

pub data Action : Type 0 where
  keep delete_file delete_subtree : Action

pub record GcEntry : Type 0 where
  pub kind : EntryKind
  pub key : Bytes
  pub path : FilePath
  pub claimed : Bool
  pub action : Action
  pub file_id : Bytes
  pub size : ℕ
  pub uploaded_at : ℤ
  pub deleted : Bool
  pub deleted_n : ℕ
  pub error : Bool

pub record GcSummary : Type 0 where
  pub orphan_files : ℕ
  pub orphan_dirs : ℕ
  pub kept_files : ℕ
  pub kept_dirs : ℕ
  pub deleted_files : ℕ
  pub deleted_bytes : ℕ
  pub errors : ℕ

abbrev pub no_summary : GcSummary
no_summary = record {
  orphan_files = 0;
  orphan_dirs = 0;
  kept_files = 0;
  kept_dirs = 0;
  deleted_files = 0;
  deleted_bytes = 0;
  errors = 0;
}

-- The keys and the paths of the rows of files.
pub record ClaimSet : Type 0 where
  pub file_keys : List Bytes
  pub paths : List FilePath

abbrev pub file_paths : List HubEntry → List FilePath
file_paths [] = []
file_paths (r ∷ t) = if is_file r.kind then r.path ∷ file_paths t else file_paths t

unfoldable pub collect_claims : Bytes → HubStore → ClaimSet
collect_claims prefix s = record {
  file_keys = map (join_key prefix) (file_paths (entry_snapshot s));
  paths = file_paths (entry_snapshot s);
}

unfoldable pub member : Bytes → List Bytes → Bool
member k [] = false
member k (x ∷ xs) = if x == k then true else member k xs

unfoldable pub has_dir_claim : Bytes → List FilePath → Bool
has_dir_claim hub_rel [] = false
has_dir_claim hub_rel (p ∷ ps) = if has_prefix p hub_rel then true else has_dir_claim hub_rel ps

abbrev pub hub_rel_of : Bytes → Bytes → Bytes
hub_rel_of prefix key = if has_prefix key prefix then drop (length prefix) key else []

abbrev pub is_dir : RemoteInfo → Bool
is_dir ri = has_suffix ri.key (codes "/") && ri.file_id == []

abbrev pub fresh_entry : EntryKind → Bytes → FilePath → Bool → Action → GcEntry
fresh_entry kind key path claimed action = record {
  kind = kind;
  key = key;
  path = path;
  claimed = claimed;
  action = action;
  file_id = [];
  size = 0;
  uploaded_at = pos 0;
  deleted = false;
  deleted_n = 0;
  error = false;
}

abbrev pub file_details : RemoteInfo → GcEntry → GcEntry
file_details ri e = record e { file_id = ri.file_id; size = ri.size; uploaded_at = ri.uploaded_at }

unfoldable pub classify : Bytes → RemoteInfo → ClaimSet → GcEntry
unfolding member has_dir_claim
classify prefix ri claims =
    let hub_rel = hub_rel_of prefix ri.key in
    if is_dir ri
    then if not (hub_rel == []) && has_dir_claim hub_rel claims.paths
      then fresh_entry dir_entry ri.key hub_rel true keep
      else fresh_entry dir_entry ri.key hub_rel false delete_subtree
    else if member ri.key claims.file_keys
    then file_details ri (fresh_entry file_entry ri.key hub_rel true keep)
    else file_details ri (fresh_entry file_entry ri.key hub_rel false delete_file)

-- What a walk over a subtree has deleted, and whether anything failed.
pub record Swept : Type 0 where
  pub count : ℕ
  pub bytes : ℕ
  pub failed : Bool

module _ {S : Type 0} (storage : Storage S) where
  sweep_one : RemoteInfo → Swept → S → Swept × S
  sweep_one ri w s =
      let (done, s') = storage.delete_by_key ri.key ri.file_id s in
      if ri.file_id == []
      then (w, s)
      else if done
      then (record w { count = w.count + 1; bytes = w.bytes + ri.size }, s')
      else (record w { failed = true }, s')

  unfoldable pub sweep : List RemoteInfo → Swept → S → Swept × S
  unfolding sweep_one
  sweep [] w s = (w, s)
  sweep (ri ∷ ris) w s = let (w', s') = sweep_one ri w s in sweep ris w' s'

  unfoldable pub sweep_subtree : Bytes → S → Swept × S
  unfolding sweep
  sweep_subtree prefix s =
      let (entries, complete) = storage.list_keys prefix [] s in
      let (w, s') = sweep entries (record { count = 0; bytes = 0; failed = false }) s in
      (if complete then w else record w { failed = true }, s')

  act_on : Action → GcEntry → GcSummary → S → GcEntry × GcSummary × S
  unfolding sweep_subtree
  act_on keep entry summary s = (entry, summary, s)
  act_on delete_file entry summary s =
      let (done, s') = storage.delete_by_key entry.key entry.file_id s in
      if done
      then (
        record entry { deleted = true },
        record summary {
          deleted_files = summary.deleted_files + 1;
          deleted_bytes = summary.deleted_bytes + entry.size;
        },
        s',
      )
      else (record entry { error = true }, record summary { errors = summary.errors + 1 }, s')
  act_on delete_subtree entry summary s =
      let (w, s') = sweep_subtree entry.key s in
      let summary' = record summary {
        deleted_files = summary.deleted_files + w.count;
        deleted_bytes = summary.deleted_bytes + w.bytes;
      } in
      if w.failed
      then (
        record entry { deleted_n = w.count; error = true },
        record summary' { errors = summary.errors + 1 },
        s',
      )
      else (record entry { deleted_n = w.count; deleted = true }, summary', s')

  unfoldable pub act : GcEntry → GcSummary → S → GcEntry × GcSummary × S
  unfolding act_on
  act entry summary s = act_on entry.action entry summary s

  count_entry : Action → EntryKind → GcSummary → GcSummary
  count_entry delete_file kind m = record m { orphan_files = m.orphan_files + 1 }
  count_entry delete_subtree kind m = record m { orphan_dirs = m.orphan_dirs + 1 }
  count_entry keep file_entry m = record m { kept_files = m.kept_files + 1 }
  count_entry keep dir_entry m = record m { kept_dirs = m.kept_dirs + 1 }

  -- The loop of `Run`; the emitted entries are returned in order.
  unfoldable pub run_entries :
      Bytes → ClaimSet → Bool → List RemoteInfo → GcSummary → S → List GcEntry × GcSummary × S
  unfolding classify act count_entry
  run_entries prefix claims dry [] summary s = ([], summary, s)
  run_entries prefix claims dry (ri ∷ ris) summary s =
      let planned = classify prefix ri claims in
      let (entry, summary', s') = if dry then (planned, summary, s) else act planned summary s in
      let (emitted, summary'', s'') =
        run_entries prefix claims dry ris (count_entry entry.action entry.kind summary') s' in
      (entry ∷ emitted, summary'', s'')

  -- The last component is `it.Err()`: whether the listing was complete. The store and the storage
  -- are there.
  unfoldable pub run : Bytes → HubStore → Bytes → Bool → S → List GcEntry × GcSummary × Bool × S
  unfolding run_entries collect_claims
  run hub_prefix store prefix dry s =
      let (entries, complete) = storage.list_keys prefix (codes "/") s in
      let (emitted, summary, s') =
        run_entries hub_prefix (collect_claims hub_prefix store) dry entries no_summary s in
      (emitted, summary, complete, s')
