-- ===== src/ArchiveWorker/Samples.antt =====
-- A worker on a hub with one new file.
use hubsync.Prelude.{
  Bytes, bytes_lt, bytes_beq, ltb, false, ◌≡◌, refl, arith, none, [], ◌∷◌, ◌++◌, map, codes, pos,
  sort_by, insert_by, bytes_eq,
}
use hubsync.Model.{ChangeEntry, change_update, file}
use hubsync.Store.{pending_archive_rows, needs_archive}
use hubsync.Archive.Fake.{fake, FakeStorage, new_fake_storage}
use hubsync.Reconciler.{Site, calm}
use hubsync.Reconciler.Samples.{kept, fresh_row}
use hubsync.ArchiveWorker.{Worker, start, taken, pending_paths, offered}
use hubsync.ArchiveWorker.Tasks.{ArchiveTask, task_of, list_tasks, listed, cancelled}
use hubsync.ArchiveWorker.Planned.{IsPlanned, no_faults, yielded_of, run_plan-IsPlanned}
use hubsync.Prelude.Table.{find, upsert}
use hubsync.Store.{append}
use hubsync.Store.Samples.{two_files, two_files-IsConsistent}
use hubsync.TaskRunner.Plan.{Db, run_plan, items_empty}

abbrev fresh : Site FakeStorage
fresh = record kept {
  store = record (kept.store) { hub_entry = fresh_row ∷ [] };
  remote = new_fake_storage;
}

pending_run : pending_paths fresh.store ≡ codes "a" ∷ []
unfolding pending_paths pending_archive_rows needs_archive sort_by insert_by
pending_run = refl

abbrev started : Worker FakeStorage
started = start fresh

abbrev queued : Worker FakeStorage
queued = record started { baseline = []; queue = started.queue ++ codes "a" ∷ [] }

abbrev uploaded_once : Worker FakeStorage
uploaded_once =
    taken (codes "plain") (codes "h/") (fake (pos 5)) (calm 200 (pos 200)) (codes "a") [] queued

-- A change between the baseline and the subscription reaches no channel.
abbrev their_change : ChangeEntry
their_change = record {
  version = 2;
  path = codes "b";
  op = change_update;
  kind = file;
  digest = codes "y";
  size = 1;
  mode = 0o644;
  mtime = pos 8;
}

missed_run : offered their_change queued.sub ≡ none
unfolding start
missed_run = refl

-- The plan of a hub with two new files, on a fresh database of tasks.
abbrev no_tasks : Db
no_tasks = record { items = none; tasks = [] }

abbrev encode : ArchiveTask → Bytes
encode t = t.digest_hex

run_plan-IsPlanned_example : IsPlanned encode two_files 5 no_tasks (
    run_plan no_faults 5
      (map (yielded_of encode) (list_tasks false (λ i. false) two_files))
      no_tasks)
unfolding pending_archive_rows needs_archive sort_by insert_by bytes_lt append items_empty upsert
    find bytes_beq
run_plan-IsPlanned_example =
    run_plan-IsPlanned encode 5 two_files no_tasks two_files-IsConsistent
      ((λ e. absurd (ground (arith, e))), ((λ e. absurd (ground (arith, e))), tt)) refl

-- A context that ends behind the first row ends the list with an error.
cancelled_run :
    list_tasks false (λ i. ltb 0 i) two_files
    ≡ listed (task_of (record fresh_row { path = codes "a" })) ∷ cancelled ∷ []
unfolding list_tasks pending_archive_rows needs_archive sort_by insert_by bytes_lt append upsert
    find bytes_beq
cancelled_run = refl
