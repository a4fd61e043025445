-- ===== src/TaskRunner/Workers.antt =====
-- `processRow` and the heartbeats of several workers on one database, of one process or of more: what
-- can happen next is a step relation. A worker may die, which leaves its row as it is.
pub mod WorkedAt
pub mod Exclusive
use hubsync.Prelude.{
  ℕ, ◌≡◌, ◌≤◌, Bool, true, false, Option, none, some, List, ◌∷◌, ◌++◌, In, Bytes, bytes_eq,
}
use hubsync.Prelude.Table.{find}
use hubsync.TaskRunner.{
  RunOptions, TaskRow, task_id, Ended, claim, beat, write_terminal, stale_seconds, is_stale,
}

-- The table, the clock, and the tasks that live workers hold, an entry for each worker.
pub record Board : Type 0 where
  pub tasks : List TaskRow
  pub now : ℕ
  pub held : List Bytes

-- The task has a heartbeat that is no further back than the staleness.
abbrev pub IsBeating : ℕ → ℕ → Option TaskRow → Type 0
IsBeating seconds now none = ⊥
IsBeating seconds now (some r) = is_stale seconds now r.heartbeat_at ≡ false

module _ (o : RunOptions) (patch : Bytes → Bytes → Bytes → Bytes) where
  pub data Step : Board → Board → Type 0 where
    pick :
        (id : Bytes) (tasks' : List TaskRow) (b : Board)
        → claim o b.now id b.tasks ≡ (true, tasks')
        → Step b (record b { tasks = tasks'; held = id ∷ b.held })
    keep_beating :
        (xs : List Bytes) (id : Bytes) (ys : List Bytes) (status : Option Bytes) (b : Board)
        → b.held ≡ xs ++ id ∷ ys
        → Step b (record b { tasks = beat patch b.now id status b.tasks })
    end :
        (xs : List Bytes) (id : Bytes) (ys : List Bytes) (ended : Ended) (b : Board)
        → b.held ≡ xs ++ id ∷ ys
        → Step b (record b { tasks = write_terminal patch b.now id ended b.tasks; held = xs ++ ys })
    die :
        (xs : List Bytes) (id : Bytes) (ys : List Bytes) (b : Board)
        → b.held ≡ xs ++ id ∷ ys
        → Step b (record b { held = xs ++ ys })
    -- The heartbeats of the workers that live are in time.
    wait :
        (now' : ℕ) (b : Board)
        → b.now ≤ now'
        → ((id : Bytes) → In id b.held → IsBeating (stale_seconds o) now' (find task_id id b.tasks))
        → Step b (record b { now = now' })

  pub data Steps : Board → Board → Type 0 where
    here : (b : Board) → Steps b b
    then_step : {a b c : Board} → Steps a b → Step b c → Steps a c
