-- ===== src/TaskRunner.antt =====
-- internal/taskrunner: the `tasks` and `items` tables of runner.go, plan.go and schema.go, and the
-- statements that the workers run on them. Times are whole seconds, as SQLite's `CURRENT_TIMESTAMP`
-- keeps them. A task's columns besides `id` are its `body`, whose encoding by reflection is not
-- modelled.
pub mod Workers
pub mod Feed
pub mod Plan
pub mod Execute
mod Samples
use hubsync.Prelude.{
  ℕ, ◌+◌, ◌*◌, ◌/◌, ◌^◌, Bool, true, false, ◌&&◌, ◌||◌, not, Option, none, some, List, [], ◌∷◌,
  ◌++◌, Bytes, codes, ltb, if◌then◌else◌, ◌==◌, nat_eq, bytes_eq,
}
use hubsync.Prelude.Table.{find, update}

pub data Status : Type 0 where
  pending running done failed : Status

pub record TaskRow : Type 0 where
  pub id : Bytes
  pub status : Status
  pub attempts : ℕ
  pub started_at : Option ℕ
  pub ended_at : Option ℕ
  pub heartbeat_at : Option ℕ
  pub error : Option Bytes
  pub meta : Bytes

abbrev pub task_id : TaskRow → Bytes
task_id r = r.id

pub record Item : Type 0 where
  pub id : Bytes
  pub body : Bytes

abbrev pub item_id : Item → Bytes
item_id i = i.id

-- Durations are nanoseconds; a number that is not positive is 0. `only` is the user's SQL condition.
pub record RunOptions : Type 0 where
  pub workers : ℕ
  pub only : Option (TaskRow → Bool)
  pub max_attempts : ℕ
  pub stale : ℕ
  pub heartbeat_every : ℕ
  pub dry : Bool
  pub keep_db : Bool

abbrev or_default : ℕ → ℕ → ℕ
or_default n value = if value == 0 then n else value

abbrev second : ℕ
second = 10 ^ 9

unfoldable pub with_defaults : ℕ → RunOptions → RunOptions
with_defaults num_cpu o = record o {
  workers = or_default num_cpu o.workers;
  max_attempts = or_default 3 o.max_attempts;
  stale = or_default (30 * second) o.stale;
  heartbeat_every = or_default (5 * second) o.heartbeat_every;
}

-- `int(opts.Stale.Seconds())`.
unfoldable pub stale_seconds : RunOptions → ℕ
stale_seconds o = o.stale / second

-- `heartbeat_at < datetime('now', '-N seconds')`, NULL included.
abbrev pub is_stale : ℕ → ℕ → Option ℕ → Bool
is_stale seconds now none = true
is_stale seconds now (some beat) = ltb (beat + seconds) now

unfoldable pub is_claimable_status : ℕ → ℕ → ℕ → TaskRow → Status → Bool
is_claimable_status most seconds now r pending = true
is_claimable_status most seconds now r running = is_stale seconds now r.heartbeat_at
is_claimable_status most seconds now r done = false
is_claimable_status most seconds now r failed = ltb r.attempts most

-- The condition on the row of `claim`, and of `workQueueWhere` without the user's.
unfoldable pub is_claimable : RunOptions → ℕ → TaskRow → Bool
unfolding is_claimable_status stale_seconds
is_claimable o now r = is_claimable_status o.max_attempts (stale_seconds o) now r r.status

unfoldable pub work_queue_where : RunOptions → ℕ → TaskRow → Bool
unfolding is_claimable
work_queue_where o now r = is_claimable o now r && elim o.only [ none ↦ true | some p ↦ p r ]

abbrev pub claimed_row : ℕ → TaskRow → TaskRow
claimed_row now r = record r {
  status = running;
  attempts = r.attempts + 1;
  started_at = some now;
  heartbeat_at = some now;
  error = none;
}

-- The UPDATE and whether it changed a row.
unfoldable pub claim : RunOptions → ℕ → Bytes → List TaskRow → Bool × List TaskRow
unfolding is_claimable
claim o now id tasks = elim (find task_id id tasks) [
  | none ↦ (false, tasks)
  | some r ↦
      if is_claimable o now r
      then (true, update task_id id (claimed_row now) tasks)
      else (false, tasks)
]

-- How a task ends: with a result, whose JSON is there unless it is nil; with a result that cannot be
-- marshalled; or with an error, the error of hydrating included.
pub data Ended : Type 0 where
  finished : Option Bytes → Ended
  not_marshalled : Bytes → Ended
  errored : Bytes → Ended

-- `json_patch(meta, json_object(key, json(value)))` of SQLite.
module _ (patch : Bytes → Bytes → Bytes → Bytes) where
  abbrev pub beaten_row : ℕ → Option Bytes → TaskRow → TaskRow
  beaten_row now none r = record r { heartbeat_at = some now }
  beaten_row now (some status) r = record r {
    heartbeat_at = some now;
    meta = patch r.meta (codes "status") status;
  }

  unfoldable pub beat : ℕ → Bytes → Option Bytes → List TaskRow → List TaskRow
  beat now id status tasks = update task_id id (beaten_row now status) tasks

  abbrev with_result : Option Bytes → Bytes → Bytes
  with_result none meta = meta
  with_result (some result) meta = patch meta (codes "result") result

  abbrev failed_row : ℕ → Bytes → TaskRow → TaskRow
  failed_row now message r = record r {
    status = failed;
    ended_at = some now;
    heartbeat_at = some now;
    error = some message;
  }

  abbrev pub ended_row : ℕ → Ended → TaskRow → TaskRow
  ended_row now (finished result) r = record r {
    status = done;
    ended_at = some now;
    heartbeat_at = some now;
    error = none;
    meta = with_result result r.meta;
  }
  ended_row now (not_marshalled message) r = failed_row now (codes "marshal result: " ++ message) r
  ended_row now (errored message) r = failed_row now message r

  unfoldable pub write_terminal : ℕ → Bytes → Ended → List TaskRow → List TaskRow
  write_terminal now id ended tasks = update task_id id (ended_row now ended) tasks
