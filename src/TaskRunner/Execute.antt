-- ===== src/TaskRunner/Execute.antt =====
-- `Run`, `Execute` and `captureSummary` of runner.go, and archive.go: a plan where there are no items,
-- the drain, the summary, and the move of a database that has nothing left to do. What the drain makes
-- of the database is an argument, as is what fails.
pub mod Archived
use hubsync.Prelude.{
  ℕ, zero, suc, ◌+◌, Bool, true, false, Option, none, some, List, [], ◌∷◌, not, ◌++◌, Bytes, codes,
  if◌then◌else◌, ◌==◌, ◌||◌, nat_eq, bytes_eq, ltb, split_path,
}
use hubsync.TaskRunner.{Status, pending, running, done, failed, TaskRow, RunOptions}
use hubsync.TaskRunner.Plan.{Db, Yielded, PlanError, PlanFaults, items_empty, run_plan}

pub record Summary : Type 0 where
  pub pending : ℕ
  pub running : ℕ
  pub done : ℕ
  pub failed : ℕ

abbrev pub no_summary : Summary
no_summary = record { pending = 0; running = 0; done = 0; failed = 0 }

abbrev pub counted : Status → Summary → Summary
counted pending s = record s { pending = suc s.pending }
counted running s = record s { running = suc s.running }
counted done s = record s { done = suc s.done }
counted failed s = record s { failed = suc s.failed }

unfoldable pub summary_of : List TaskRow → Summary
summary_of [] = no_summary
summary_of (r ∷ tasks) = counted r.status (summary_of tasks)

abbrev pub is_unfinished : Status → Bool
is_unfinished done = false
is_unfinished pending = true
is_unfinished running = true
is_unfinished failed = true

unfoldable pub count_unfinished : List TaskRow → ℕ
count_unfinished [] = 0
count_unfinished (r ∷ tasks) =
    let rest = count_unfinished tasks in if is_unfinished r.status then suc rest else rest

unfoldable pub queue_drained : List TaskRow → Bool
unfolding count_unfinished
queue_drained tasks = count_unfinished tasks == 0

-- The path is clean, so `filepath.Join` puts it together.
unfoldable pub archive_dest_path : Bytes → Bytes → Bytes
unfolding split_path
archive_dest_path src stamp = let (dir, base) = split_path src in dir ++ stamp ++ codes "-" ++ base

pub data Renamed : Type 0 where
  renamed already_gone rename_error : Renamed

pub record ExecuteEnv : Type 0 where
  pub columns : ℕ
  pub yields : List Yielded
  pub plan_faults : PlanFaults
  -- The database behind the drain, and whether it ends without an error.
  pub drain : Db → Bool × Db
  pub probe_fails : Bool
  pub summary_fails : Bool
  pub checkpoint_fails : Bool
  pub close_fails : Bool
  pub rename : Renamed
  pub stamp : Bytes

pub data ExecuteError : Type 0 where
  probe_error : ExecuteError
  planning : PlanError → ExecuteError
  drain_error summary_error checkpoint_error close_error rename_failed : ExecuteError

pub record Runner : Type 0 where
  pub db_path : Bytes
  pub db : Db
  pub summary : Summary
  pub archived_path : Option Bytes

abbrev pub behind_rename : ExecuteEnv → Runner → Renamed → Option ExecuteError × Runner
behind_rename env r renamed =
    (none, record r { archived_path = some (archive_dest_path r.db_path env.stamp) })
behind_rename env r already_gone = (none, r)
behind_rename env r rename_error = (some rename_failed, r)

unfoldable pub archive_if_drained : RunOptions → ExecuteEnv → Runner → Option ExecuteError × Runner
unfolding queue_drained archive_dest_path
archive_if_drained o env r =
    if o.keep_db || r.db_path == []
    then (none, r)
    else if not (queue_drained r.db.tasks)
    then (none, r)
    else if env.checkpoint_fails
    then (some checkpoint_error, r)
    else if env.close_fails
    then (some close_error, r)
    else behind_rename env r env.rename

-- `Execute` behind the plan.
abbrev pub behind_drain :
    RunOptions → ExecuteEnv → Runner → Bool × Db → Option ExecuteError × Runner
behind_drain o env r (false, db) = (some drain_error, record r { db = db })
behind_drain o env r (true, db) =
    if env.summary_fails
    then (some summary_error, record r { db = db })
    else archive_if_drained o env (record r { db = db; summary = summary_of db.tasks })

unfoldable pub work_off : RunOptions → ExecuteEnv → Runner → Option ExecuteError × Runner
unfolding archive_if_drained summary_of
work_off o env r = if o.dry then (none, r) else behind_drain o env r (env.drain r.db)

abbrev pub behind_plan :
    RunOptions → ExecuteEnv → Runner → Option PlanError × Db → Option ExecuteError × Runner
behind_plan o env r (some e, db) = (some (planning e), record r { db = db })
behind_plan o env r (none, db) = work_off o env (record r { db = db })

unfoldable pub execute : RunOptions → ExecuteEnv → Runner → Option ExecuteError × Runner
unfolding items_empty run_plan work_off
execute o env r =
    if env.probe_fails
    then (some probe_error, r)
    else if items_empty r.db
    then behind_plan o env r (run_plan env.plan_faults env.columns env.yields r.db)
    else work_off o env r

pub data RunError : Type 0 where
  setup_failed : RunError
  executing : ExecuteError → RunError
  failed_remain : RunError

pub record RunResult : Type 0 where
  pub summary : Summary
  pub archived_path : Option Bytes

abbrev pub new_runner : Bytes → Db → Runner
new_runner db_path db = record {
  db_path = db_path;
  db = db;
  summary = no_summary;
  archived_path = none;
}

-- `none` for the database is an error of `New`.
unfoldable pub run : RunOptions → ExecuteEnv → Bytes → Option Db → RunResult × Option RunError
unfolding execute
run o env db_path none = (record { summary = no_summary; archived_path = none }, some setup_failed)
run o env db_path (some db) =
    let (error, r) = execute o env (new_runner db_path db) in
    (
      record { summary = r.summary; archived_path = r.archived_path },
      elim error [
        | some e ↦ some (executing e)
        | none ↦ if ltb 0 r.summary.failed then some failed_remain else none
      ],
    )
