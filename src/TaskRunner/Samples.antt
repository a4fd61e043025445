-- ===== src/TaskRunner/Samples.antt =====
-- Two items, of which one fails once.
use hubsync.Prelude.{
  ℕ, ◌≡◌, refl, true, false, none, some, List, [], ◌∷◌, Bytes, codes, bytes_beq, sort_by,
  split_path, insert_by, bytes_lt, if◌then◌else◌, ◌==◌, nat_eq, bytes_eq,
}
use hubsync.Prelude.Table.{find, update, upsert}
use hubsync.TaskRunner.{
  running, done, failed, TaskRow, task_id, Item, RunOptions, with_defaults, claim, is_claimable,
  is_claimable_status, stale_seconds, write_terminal, finished, errored, work_queue_where,
}
use hubsync.TaskRunner.Workers.{Board, Steps, pick, end, here, then_step}
use hubsync.TaskRunner.Workers.WorkedAt.{IsExclusive}
use hubsync.TaskRunner.Workers.Exclusive.{Steps-IsExclusive}
use hubsync.TaskRunner.Feed.{
  Pass, drained, feed_queue, work_queue, joined, fetch_batch, is_new, sent_on,
}
use hubsync.TaskRunner.Plan.{
  Db, Yielded, a_task, PlanFaults, run_plan, new_task, items_empty, ensure_items, plan_all,
  plan_one, has_id, seed_tasks, duplicate_id,
}
use hubsync.TaskRunner.Plan.Atomic.{PlanMade, run_plan-PlanMade}
use hubsync.TaskRunner.Execute.{
  ExecuteEnv, renamed, run, execute, new_runner, archive_dest_path, work_off, archive_if_drained,
  queue_drained, count_unfinished,
}
use hubsync.TaskRunner.Execute.Archived.{IsArchivedAt, run-IsArchivedAt}

abbrev options : RunOptions
options = with_defaults 8 (record {
  workers = 0;
  only = none;
  max_attempts = 0;
  stale = 0;
  heartbeat_every = 0;
  dry = false;
  keep_db = false;
})

-- How SQLite merges an object into another is not looked at here.
abbrev keep_meta : Bytes → Bytes → Bytes → Bytes
keep_meta meta key value = meta

abbrev item : Bytes → Item
item id = record { id = id; body = codes "{}" }

abbrev two_items : List Item
two_items = item (codes "b") ∷ item (codes "a") ∷ []

abbrev two_tasks : List TaskRow
two_tasks = new_task (codes "b") ∷ new_task (codes "a") ∷ []

abbrev at_work : TaskRow
at_work = record (new_task (codes "b")) {
  status = running;
  attempts = 1;
  started_at = some 100;
  heartbeat_at = some 100;
}

claim_run : claim options 100 (codes "b") two_tasks ≡ (true, at_work ∷ new_task (codes "a") ∷ [])
unfolding claim update find is_claimable is_claimable_status with_defaults bytes_beq stale_seconds
claim_run = refl

-- A second claim is refused until the heartbeat is stale.
refused_run : (claim options 130 (codes "b") (at_work ∷ [])).0 ≡ false
unfolding claim update find is_claimable is_claimable_status with_defaults bytes_beq stale_seconds
refused_run = refl

reclaimed_run : (claim options 131 (codes "b") (at_work ∷ [])).0 ≡ true
unfolding claim update find is_claimable is_claimable_status with_defaults bytes_beq stale_seconds
reclaimed_run = refl

abbrev board : Board
board = record { tasks = two_tasks; now = 100; held = [] }

abbrev worked : Board
worked = record { tasks = at_work ∷ new_task (codes "a") ∷ []; now = 100; held = codes "b" ∷ [] }

abbrev finished_at : ℕ → List TaskRow
finished_at now = write_terminal keep_meta now (codes "b") (finished none) worked.tasks

board-IsExclusive : IsExclusive options board
board-IsExclusive = record { distinct = tt; worked_at = λ id i. absurd i }

board_steps :
    Steps options keep_meta board (record { tasks = finished_at 100; now = 100; held = [] })
board_steps =
    then_step
      (then_step (here board)
        (pick (codes "b") (at_work ∷ new_task (codes "a") ∷ []) board claim_run))
      (end [] (codes "b") [] (finished none) worked refl)

Steps-IsExclusive_example :
    IsExclusive options (record { tasks = finished_at 100; now = 100; held = [] })
    × ((k : Bytes) (r : TaskRow)
        → find task_id k two_tasks ≡ some r
        → r.status ≡ done
        → find task_id k (finished_at 100) ≡ some r)
Steps-IsExclusive_example = Steps-IsExclusive options keep_meta board_steps board-IsExclusive

-- A worker whose heartbeat was not in time writes over what another one has done.
abbrev late_write : List TaskRow
late_write = write_terminal keep_meta 140 (codes "b") (errored (codes "late")) (
    write_terminal keep_meta 135 (codes "b") (finished none)
      (claim options 131 (codes "b") (at_work ∷ [])).1)

late_run :
    find task_id (codes "b") late_write
    ≡ some (record at_work {
      status = failed;
      attempts = 2;
      started_at = some 131;
      ended_at = some 140;
      heartbeat_at = some 140;
      error = some (codes "late");
    })
unfolding claim update find is_claimable is_claimable_status with_defaults bytes_beq write_terminal
    stale_seconds
late_run = refl

-- The second pass meets both tasks running, so nothing is due and the feed ends: a task that fails
-- from then on is not tried again by this run.
abbrev passes : ℕ → Pass
passes k = record {
  tasks = if k == 0 then two_tasks else at_work ∷ record at_work { id = codes "a" } ∷ [];
  now = 100;
  fails = false;
  cancelled = none;
}

feed_run :
    feed_queue options two_items 7 passes [] ≡ (item (codes "a") ∷ item (codes "b") ∷ [], drained)
unfolding feed_queue work_queue joined work_queue_where is_claimable is_claimable_status
    with_defaults bytes_beq stale_seconds sort_by insert_by fetch_batch is_new find upsert bytes_lt
    sent_on
feed_run = refl

abbrev no_faults : PlanFaults
no_faults = record { begin = false; create = false; seed = false; commit = false }

-- A database of an earlier plan without items, with a task that is left over.
abbrev old_db : Db
old_db = record {
  items = some (record { columns = 1; rows = [] });
  tasks = record at_work { status = failed } ∷ [];
}

abbrev yields : List Yielded
yields = a_task (item (codes "b")) false ∷ a_task (item (codes "a")) false ∷ []

run_plan-PlanMade_example : PlanMade 5 yields old_db (run_plan no_faults 5 yields old_db)
unfolding items_empty
run_plan-PlanMade_example = run_plan-PlanMade no_faults 5 yields old_db refl

plan_run :
    (run_plan no_faults 5 yields old_db).1.tasks
    ≡ record at_work { status = failed } ∷ new_task (codes "a") ∷ []
unfolding run_plan ensure_items plan_all plan_one has_id seed_tasks find bytes_beq
plan_run = refl

abbrev duplicate : List Yielded
duplicate = a_task (item (codes "a")) false ∷ a_task (item (codes "a")) false ∷ []

duplicate_run : (run_plan no_faults 5 duplicate old_db).0 ≡ some duplicate_id
unfolding run_plan ensure_items plan_all plan_one has_id bytes_beq
duplicate_run = refl

abbrev finished_db : Db
finished_db = record {
  items = some (record { columns = 5; rows = two_items });
  tasks = record at_work { status = done } ∷ record at_work { id = codes "a"; status = done } ∷ [];
}

abbrev env : ExecuteEnv
env = record {
  columns = 5;
  yields = yields;
  plan_faults = no_faults;
  drain = λ db. (true, finished_db);
  probe_fails = false;
  summary_fails = false;
  checkpoint_fails = false;
  close_fails = false;
  rename = renamed;
  stamp = codes "2026-04-19T143522Z";
}

abbrev db_path : Bytes
db_path = codes "/var/tasks.db"

abbrev archived_at : Bytes
archived_at = codes "/var/2026-04-19T143522Z-tasks.db"

archived_run : (run options env db_path (some old_db)).0.archived_path ≡ some archived_at
unfolding run execute items_empty run_plan ensure_items plan_all plan_one has_id seed_tasks find
    bytes_beq work_off archive_if_drained queue_drained count_unfinished archive_dest_path
    split_path with_defaults
archived_run = refl

run-IsArchivedAt_example :
    ((run options env db_path (some old_db)).1 ≡ none)
    × IsArchivedAt options env db_path archived_at (execute options env (new_runner db_path old_db))
    × ((run options env db_path (some old_db)).0.summary.failed ≡ 0)
    × ((run options env db_path (some old_db)).0.summary.pending ≡ 0)
    × ((run options env db_path (some old_db)).0.summary.running ≡ 0)
run-IsArchivedAt_example = run-IsArchivedAt options env db_path archived_at old_db archived_run
