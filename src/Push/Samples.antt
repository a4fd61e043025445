-- ===== src/Push/Samples.antt =====
-- Pushes to a hub with the files `a`, version 1, and `b`, version 2.
use hubsync.Prelude.{
  ℕ, some, none, ◌≡◌, ◌↔◌, ◌++◌, refl, arith, Bytes, codes, pos, [], ◌∷◌, length, bytes_beq,
}
use hubsync.Prelude.Table.{find, upsert}
use hubsync.Model.{Digest, HubEntry, ChangeEntry, change_update, file, unset}
use hubsync.Store.{append, entry_lookup, changes_since, tree_lookup}
use hubsync.Store.Materialized.{IsConsistent}
use hubsync.Store.Samples.{two_files, two_files-IsConsistent}
use hubsync.Push.{
  Hub, no_faults, Now, PushOp, PushRequest, accepted, conflict, fail, hub_wins, OpKind, op_update,
  op_delete, process_push_op, process_push, version_for_entry, delete_conflict, accept_write,
}
use hubsync.Push.Outcomes.{Fair, process_push_op-Fair}
use hubsync.Store.Log.{replay}
use hubsync.ClientStore.{fresh_client}
use hubsync.Event.{Remote, Replica}
use hubsync.Push.Safety.{process_push-broadcasts}
use hubsync.Push.Permission.{IsAccepted, Permitted, process_push_op-fail}
use hubsync.Push.Effects.{HoldsContent, process_push_op-HoldsContent}

abbrev plain : Bytes → Digest
plain bytes = bytes

abbrev hub : Hub
hub = record { store = two_files; disk = []; sent = [] }

abbrev noon : Now
noon = record { seconds = 200; mtime = pos 200 }

abbrev op : OpKind → ℕ → PushOp
op kind base = record { path = codes "a"; op = kind; base_version = base; content = codes "new" }

abbrev request : PushRequest
request = record { ops = op op_update 1 ∷ op op_update 1 ∷ []; on_conflict = fail }

abbrev row_a : HubEntry
row_a = record {
  path = codes "a";
  kind = file;
  digest = codes "x";
  size = 3;
  mode = 0o644;
  mtime = pos 7;
  version = 1;
  archive_state = unset;
  archive_file_id = [];
  archive_sha1 = [];
  archive_uploaded_at = pos 0;
  updated_at = 100;
}

-- A delete with an old base version: refused under FAIL, and accepted under HUB_WINS.
stale_delete_run :
    (process_push_op plain no_faults noon (op op_delete 0) fail hub).0.outcome
    ≡ conflict delete_conflict 1 (codes "x")
unfolding process_push_op version_for_entry tree_lookup append find upsert bytes_beq
stale_delete_run = refl

hub_wins_delete_run :
    (process_push_op plain no_faults noon (op op_delete 0) hub_wins hub).0.outcome ≡ accepted 3
unfolding process_push_op version_for_entry tree_lookup append find upsert bytes_beq
hub_wins_delete_run = refl

process_push_op-Fair_example :
    Fair no_faults hub (process_push_op plain no_faults noon (op op_update 7) fail hub)
process_push_op-Fair_example = process_push_op-Fair no_faults noon plain (op op_update 7) fail hub

process_push-broadcasts_example :
    (length (process_push plain (λ _. (no_faults, noon)) request hub).0 ≡ 2)
    × IsConsistent (process_push plain (λ _. (no_faults, noon)) request hub).1.store
    × ((process_push plain (λ _. (no_faults, noon)) request hub).1.sent
        ≡ []
          ++ changes_since two_files.last_version
              (process_push plain (λ _. (no_faults, noon)) request hub).1.store)
process_push-broadcasts_example =
    process_push-broadcasts plain (λ _. (no_faults, noon)) request hub two_files-IsConsistent

process_push_op-fail_example :
    IsAccepted (process_push_op plain no_faults noon (op op_update 7) fail hub).0.outcome
    ↔ Permitted op_update 7 (entry_lookup (codes "a") two_files)
process_push_op-fail_example =
    process_push_op-fail plain noon (op op_update 7) hub two_files-IsConsistent

process_push_op-HoldsContent_example :
    HoldsContent plain noon
      (op op_update 1)
      hub
      3
      (process_push_op plain no_faults noon (op op_update 1) fail hub).1
unfolding process_push_op version_for_entry tree_lookup append find upsert bytes_beq accept_write
process_push_op-HoldsContent_example =
    process_push_op-HoldsContent plain no_faults noon (op op_update 1) fail hub 3
      (λ e. absurd (ground arith)) refl

-- A client that has the hub's rows, and the one event of the request's two updates.
abbrev connected : Replica
connected = record {
  store = record fresh_client { hub_tree = replay [] two_files.change_log; hub_version = 2 };
  disk = [];
  local_edits = none;
}

abbrev pushed : Hub
pushed = (process_push plain (λ _. (no_faults, noon)) request hub).1

abbrev third : ChangeEntry
third = record {
  version = 3;
  path = codes "a";
  op = change_update;
  kind = file;
  digest = codes "new";
  size = 3;
  mode = 0o644;
  mtime = pos 200;
}

abbrev anything : Remote
anything = record { blob = λ d. some d; post_delta = λ d size sigs. none }
