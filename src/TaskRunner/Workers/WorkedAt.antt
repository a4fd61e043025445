-- ===== src/TaskRunner/Workers/WorkedAt.antt =====
-- Who works at a row, and what each statement on the row does to that.
use mathlib.Core.Option
use hubsync.Prelude.{
  ℕ, ◌≡◌, refl, sym, subst, inl, inr, arith, true, false, Option, none, some, List, In, Distinct,
  Bytes, bytes_eq, ◌==◌, ==_iff, Bool-cases, Option-cases,
}
use hubsync.Prelude.Table.{find, update, find-update}
use hubsync.TaskRunner.{
  RunOptions, TaskRow, task_id, Ended, finished, not_marshalled, errored, claim, claimed_row,
  beaten_row, ended_row, stale_seconds, is_stale, is_claimable, is_claimable_status, running, done,
}
use hubsync.TaskRunner.Workers.{Board, IsBeating}

-- What a worker that holds the task can count on.
abbrev pub IsWorkedAt : ℕ → ℕ → Option TaskRow → Type 0
IsWorkedAt seconds now none = ⊥
IsWorkedAt seconds now (some r) =
    (r.status ≡ running) × (is_stale seconds now r.heartbeat_at ≡ false)

pub record IsExclusive (o : RunOptions) (b : Board) : Type 0 where
  pub distinct : Distinct b.held
  pub worked_at :
      (id : Bytes) → In id b.held → IsWorkedAt (stale_seconds o) b.now (find task_id id b.tasks)

pub claim-cases :
    (o : RunOptions) (now : ℕ) (id : Bytes) (tasks tasks' : List TaskRow)
    → claim o now id tasks ≡ (true, tasks')
    → (r : TaskRow) × (find task_id id tasks ≡ some r)
      × (is_claimable o now r ≡ true)
      × (tasks' ≡ update task_id id (claimed_row now) tasks)
unfolding claim
claim-cases o now id tasks tasks' e = elim (Option-cases (find task_id id tasks)) [
  | inl absent ↦ absurd (ground (arith, absent, e))
  | inr (r, at) ↦ elim (Bool-cases (is_claimable o now r)) [
    | inl yes_it_is ↦ (r, at, yes_it_is, ground (arith, at, yes_it_is, e))
    | inr no_it_is ↦ absurd (ground (arith, at, no_it_is, e))
  ]
]

-- A task that is worked at cannot be claimed.
pub not_claimable :
    (o : RunOptions) (now : ℕ) (r : TaskRow)
    → r.status ≡ running
    → is_stale (stale_seconds o) now r.heartbeat_at ≡ false
    → is_claimable o now r ≡ false
unfolding is_claimable is_claimable_status
not_claimable o now r s beating = rw s beating

pub not_claimable_done :
    (o : RunOptions) (now : ℕ) (r : TaskRow) → r.status ≡ done → is_claimable o now r ≡ false
unfolding is_claimable is_claimable_status
not_claimable_done o now r s = rw s refl

-- An update of one row, seen at a key.
pub IsWorkedAt-update :
    (seconds now : ℕ) (k j : Bytes) (f : TaskRow → TaskRow) (tasks : List TaskRow)
    → ((r : TaskRow) → task_id (f r) ≡ task_id r)
    → (j ≡ k → IsWorkedAt seconds now (Option.map f (find task_id k tasks)))
    → (¬ (j ≡ k) → IsWorkedAt seconds now (find task_id k tasks))
    → IsWorkedAt seconds now (find task_id k (update task_id j f tasks))
IsWorkedAt-update seconds now k j f tasks keeps on_it off_it =
    subst (IsWorkedAt seconds now) (sym (find-update task_id k j f tasks keeps))
      (elim (Bool-cases (j == k)) [
        | inl same ↦ rw same (on_it ((==_iff j k).0 same))
        | inr other ↦ rw other (off_it (λ e. absurd (ground (arith, other, (==_iff j k).1 e))))
      ])

pub beaten_row-id :
    (patch : Bytes → Bytes → Bytes → Bytes) (now : ℕ) (status : Option Bytes) (r : TaskRow)
    → task_id (beaten_row patch now status r) ≡ task_id r
beaten_row-id patch now none r = refl
beaten_row-id patch now (some status) r = refl

pub ended_row-id :
    (patch : Bytes → Bytes → Bytes → Bytes) (now : ℕ) (ended : Ended) (r : TaskRow)
    → task_id (ended_row patch now ended r) ≡ task_id r
ended_row-id patch now (finished result) r = refl
ended_row-id patch now (not_marshalled message) r = refl
ended_row-id patch now (errored message) r = refl

pub claimed-IsWorkedAt :
    (seconds now : ℕ) (o : Option TaskRow)
    → ¬ (o ≡ none)
    → IsWorkedAt seconds now (Option.map (claimed_row now) o)
claimed-IsWorkedAt seconds now none h = absurd (h refl)
claimed-IsWorkedAt seconds now (some r) h = (refl, ground arith)

pub beaten-IsWorkedAt :
    (patch : Bytes → Bytes → Bytes → Bytes) (seconds now : ℕ) (status : Option Bytes)
    (o : Option TaskRow)
    → IsWorkedAt seconds now o
    → IsWorkedAt seconds now (Option.map (beaten_row patch now status) o)
beaten-IsWorkedAt patch seconds now status none h = absurd h
beaten-IsWorkedAt patch seconds now none (some r) h = (h.0, ground arith)
beaten-IsWorkedAt patch seconds now (some status) (some r) h = (h.0, ground arith)

pub waited-IsWorkedAt :
    (seconds now now' : ℕ) (o : Option TaskRow)
    → IsWorkedAt seconds now o
    → IsBeating seconds now' o
    → IsWorkedAt seconds now' o
waited-IsWorkedAt seconds now now' none h b = absurd h
waited-IsWorkedAt seconds now now' (some r) h b = (h.0, b)
