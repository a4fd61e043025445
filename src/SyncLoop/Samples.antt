-- ===== src/SyncLoop/Samples.antt =====
-- A client in write mode with a new file `a`, of which the hub has another one.
use hubsync.Prelude.{
  true, ◌≡◌, refl, arith, false, none, some, List, [], ◌∷◌, map, Bytes, codes, pos, bytes_eq,
  bytes_beq, decimal, split_path, split_ext,
}
use hubsync.Prelude.Table.{find, upsert, remove}
use hubsync.Model.{Digest, file, create}
use hubsync.Disk.{Disk, write_file, set_mtime}
use hubsync.ClientStore.{fresh_client, apply_change, upsert_entry}
use hubsync.Scanner.{Visited}
use hubsync.Event.{
  Remote, Replica, SyncEvent, FileChange, changed, apply_event, apply_payload, written, content_of,
  skip_path, contains,
}
use hubsync.Store.{append, entry_lookup, tree_lookup}
use hubsync.Store.Samples.{two_files, two_files-IsConsistent}
use hubsync.Reconciler.Samples.{fresh_row}
use hubsync.Push.{
  op_path, PushResult, PushOp, Hub, Now, fail, no_faults, process_push_op, op_update, accept_write,
  version_for_entry, path_version,
}
use hubsync.Push.Permission.{IsAccepted}
use hubsync.ClientPush.{
  LocalChange, scan_local, build_push_ops, changes_of, deletions_of, is_seen, pending_push_paths,
  handle_conflict, refresh_local_edit_paths, conflicted_copy_path, first_free, conflicted_name,
}
use hubsync.SyncLoop.{Answers, sync_once}
use hubsync.SyncLoop.Interleaved.{
  Loops, arrive, ticker, idle, Move, take_event, user_edit, no_files, taken, Steps, event, write,
  scanned, scan, here, then_step,
}
use hubsync.SyncLoop.Unharmed.{Holds, Steps-Holds}
use hubsync.SyncLoop.Rebased.{process_push_op_rebased}

abbrev plain : Bytes → Digest
plain bytes = bytes

abbrev remote : Remote
remote = record { blob = λ d. some d; post_delta = λ d size sigs. none }

abbrev visit_all : Disk → List Visited
visit_all disk = map (λ f. record { path = f.path; is_dir = false; size = 4; mtime = f.mtime }) disk

abbrev edited : Replica
edited = record {
  store = fresh_client;
  disk = record { path = codes "a"; bytes = codes "mine"; mode = 0o600; mtime = pos 9 } ∷ [];
  local_edits = none;
}

abbrev their_change : FileChange
their_change = record {
  kind = file;
  digest = codes "x";
  size = 1;
  mode = 0o644;
  mtime = pos 7;
  inlined = codes "x";
}

abbrev their_event : SyncEvent
their_event = record { version = 1; path = codes "a"; payload = changed their_change }

abbrev answers : Answers
answers = record { subscribe = λ version. some (their_event ∷ []); send = λ request. none }

edits_run : pending_push_paths plain (visit_all edited.disk) edited ≡ some (codes "a" ∷ [])
unfolding pending_push_paths scan_local changes_of deletions_of is_seen find bytes_beq
edits_run = refl

abbrev held : Replica
held = record edited { local_edits = some (codes "a" ∷ []) }

abbrev rebased : Replica
rebased = record held {
  store = apply_change 1 (codes "a") create file (codes "x") 1 0o644 (pos 7) fresh_client;
}

taken_run : apply_event plain plain remote (pos 20) their_event held ≡ some rebased
unfolding apply_event apply_payload written skip_path contains bytes_beq
taken_run = refl

abbrev my_change : LocalChange
my_change = record {
  path = codes "a";
  digest = codes "mine";
  content = codes "mine";
  hub_entry = some (record {
    entry = record {
      path = codes "a";
      kind = file;
      digest = codes "x";
      size = 1;
      mode = 0o644;
      mtime = pos 7;
    };
    version = 1;
  });
}

scan_run :
    scan_local plain (visit_all held.disk) rebased.disk rebased.store ≡ some (my_change ∷ [], [])
unfolding scan_local changes_of deletions_of is_seen find bytes_beq apply_change upsert_entry upsert
scan_run = refl

abbrev my_op : PushOp
my_op = record { path = codes "a"; op = op_update; base_version = 1; content = codes "mine" }

found_run : find op_path (codes "a") (build_push_ops (my_change ∷ []) []) ≡ some my_op
unfolding find build_push_ops bytes_beq
found_run = refl

row_run : entry_lookup (codes "a") two_files ≡ some fresh_row
unfolding entry_lookup append find upsert bytes_beq
row_run = refl

abbrev their_hub : Hub
their_hub = record { store = two_files; disk = []; sent = [] }

abbrev later : Now
later = record { seconds = 200; mtime = pos 200 }

process_push_op_rebased_example :
    IsAccepted (process_push_op plain no_faults later my_op fail their_hub).0.outcome
unfolding find
process_push_op_rebased_example =
    process_push_op_rebased plain plain remote (pos 20) 1 (codes "a") their_change held rebased
      (visit_all held.disk) (my_change ∷ []) [] my_op later their_hub fresh_row tt taken_run
      (refl, tt) scan_run found_run two_files-IsConsistent row_run refl

-- The user edits the file after the last look for local edits: the event of its path overwrites it,
-- and keeps no copy.
abbrev late : Replica
late = record edited { local_edits = some [] }

abbrev overwritten : Replica
overwritten = sync_once plain plain remote (pos 20) visit_all answers late

late_edit_run : map (λ f. f.bytes) overwritten.disk ≡ codes "x" ∷ []
unfolding sync_once apply_event apply_payload written skip_path contains find upsert bytes_beq
    write_file set_mtime
late_edit_run = refl

-- The event of the path comes in behind the scan of a push, and the user writes another file before
-- it is taken in.
abbrev loops : Loops
loops = record { replica = held; arriving = none; stream_push = idle; ticker_push = idle }

abbrev my_new : LocalChange
my_new = record my_change { hub_entry = none }

scan_held_run : scan_local plain (visit_all held.disk) held.disk held.store ≡ some (my_new ∷ [], [])
unfolding scan_local changes_of deletions_of is_seen find bytes_beq
scan_held_run = refl

abbrev pushing : Loops
pushing = record loops { ticker_push = scanned (my_new ∷ []) [] }

abbrev coming : Loops
coming = record pushing {
  arriving = some (record { event = their_event; edits = held.local_edits });
}

abbrev with_notes : Loops
with_notes = record coming {
  replica = record held { disk = write_file (pos 21) (codes "b") (codes "n") 0o644 held.disk };
}

abbrev told : Loops
told = record with_notes {
  replica = record with_notes.replica { store = rebased.store };
  arriving = none;
}

abbrev moves : List Move
moves = no_files ∷ no_files ∷ user_edit (codes "b") ∷ take_event their_event ∷ []

notes_run :
    apply_event plain plain remote (pos 20) their_event with_notes.replica ≡ some told.replica
unfolding apply_event apply_payload written skip_path contains bytes_beq
notes_run = refl

steps_run : Steps plain plain remote (pos 20) visit_all moves loops told
steps_run = then_step (scan ticker (my_new ∷ []) [] loops refl tt scan_held_run) (
    then_step (arrive their_event pushing refl refl) (
      then_step (write (codes "b") (codes "n") 0o644 (pos 21) coming) (
        then_step
          (event (record { event = their_event; edits = held.local_edits }) told.replica with_notes
            refl notes_run)
          (here told))))

Steps-Holds_example : Holds (codes "a") (codes "mine") told
unfolding skip_path contains find bytes_beq write_file
Steps-Holds_example =
    Steps-Holds plain plain remote (pos 20) visit_all (codes "a") (codes "mine") steps_run
      (tt, (tt, ((λ e. absurd (ground (arith, e))), (tt, tt)))) ((refl, refl), tt)

-- An event that has decided before the client looked for local edits is written afterwards: the path
-- counts as edited by then, and is overwritten all the same.
abbrev lost : Replica
lost = record held {
  store = rebased.store;
  disk =
      set_mtime (pos 7) (codes "a") (write_file (pos 20) (codes "a") (codes "x") 0o644 held.disk);
}

look_run : refresh_local_edit_paths plain true (visit_all edited.disk) late ≡ held
unfolding refresh_local_edit_paths pending_push_paths scan_local changes_of deletions_of is_seen
    find bytes_beq
look_run = refl

decided_run :
    (apply_event plain plain remote (pos 20) their_event (record held { local_edits = some [] })
      ≡ some (record lost { local_edits = some [] }))
    × (map (λ f. f.bytes) lost.disk ≡ codes "x" ∷ [])
unfolding apply_event apply_payload written skip_path contains bytes_beq content_of find upsert
    write_file set_mtime
decided_run = (refl, refl)

-- Both loops push the same edit: the second one is refused, and its conflict moves the user's file
-- away, though nobody else has changed it.
abbrev first_time : PushResult × Hub
first_time = process_push_op plain no_faults later my_op fail their_hub

abbrev second_time : PushResult × Hub
second_time = process_push_op plain no_faults later my_op fail first_time.1

abbrev answered_twice : Replica
answered_twice =
    (taken plain plain remote (pos 21) visit_all (my_change ∷ []) [] second_time.0 rebased).1

pushed_twice_run :
    map (λ f. f.path) answered_twice.disk ≡ codes "a (conflicted copy)" ∷ codes "a" ∷ []
unfolding process_push_op accept_write version_for_entry path_version tree_lookup append find upsert
    bytes_beq handle_conflict conflicted_copy_path first_free conflicted_name split_path split_ext
    decimal write_file set_mtime remove
pushed_twice_run = refl
