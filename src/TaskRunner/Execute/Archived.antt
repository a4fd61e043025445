-- ===== src/TaskRunner/Execute/Archived.antt =====
-- A database is moved away only when all of its work is done.
use hubsync.Prelude.{
  ◌≡◌, refl, arith, inl, inr, Bool, true, false, Option, none, some, List, [], ◌∷◌, ◌||◌, Bytes,
  All, Bool-cases, ◌==◌, nat_eq, bytes_eq,
}
use hubsync.TaskRunner.{Status, pending, running, done, failed, TaskRow, RunOptions}
use hubsync.TaskRunner.Plan.{Db, PlanError, run_plan, items_empty}
use hubsync.TaskRunner.Execute.{
  summary_of, is_unfinished, behind_rename, behind_drain, behind_plan, count_unfinished,
  queue_drained, archive_dest_path, Renamed, renamed, already_gone, rename_error, ExecuteEnv,
  ExecuteError, Runner, archive_if_drained, work_off, execute, new_runner, run,
}

-- A runner that has moved its database away to `p`, and with what error it ends.
abbrev pub IsArchivedAt :
    RunOptions → ExecuteEnv → Bytes → Bytes → Option ExecuteError × Runner → Type 0
IsArchivedAt o env db_path p (error, r) =
    (error ≡ none)
    × (o.keep_db ≡ false)
    × (p ≡ archive_dest_path db_path env.stamp)
    × All (λ (t : TaskRow). t.status ≡ done) r.db.tasks
    × (r.summary ≡ summary_of r.db.tasks)

finished_is_done : (s : Status) → is_unfinished s ≡ false → s ≡ done
finished_is_done done h = refl
finished_is_done pending h = absurd (ground (arith, h))
finished_is_done running h = absurd (ground (arith, h))
finished_is_done failed h = absurd (ground (arith, h))

All-done :
    (tasks : List TaskRow)
    → count_unfinished tasks ≡ 0
    → All (λ (t : TaskRow). t.status ≡ done) tasks
unfolding count_unfinished
All-done [] h = tt
All-done (r ∷ tasks) h = elim (Bool-cases (is_unfinished r.status)) [
  | inl more ↦ absurd (ground (arith, h, more))
  | inr fin ↦ (finished_is_done r.status fin, All-done tasks (ground (arith, h, fin)))
]

behind_rename-IsArchivedAt :
    (o : RunOptions) (env : ExecuteEnv) (p : Bytes) (r : Runner) (how : Renamed)
    → r.archived_path ≡ none
    → r.summary ≡ summary_of r.db.tasks
    → o.keep_db ≡ false
    → All (λ (t : TaskRow). t.status ≡ done) r.db.tasks
    → (behind_rename env r how).1.archived_path ≡ some p
    → IsArchivedAt o env r.db_path p (behind_rename env r how)
behind_rename-IsArchivedAt o env p r renamed fresh sum keep all h =
    (refl, keep, ground (arith, h), all, sum)
behind_rename-IsArchivedAt o env p r already_gone fresh sum keep all h =
    absurd (ground (arith, h, fresh))
behind_rename-IsArchivedAt o env p r rename_error fresh sum keep all h =
    absurd (ground (arith, h, fresh))

archive_if_drained-IsArchivedAt :
    (o : RunOptions) (env : ExecuteEnv) (p : Bytes) (r : Runner)
    → r.archived_path ≡ none
    → r.summary ≡ summary_of r.db.tasks
    → (archive_if_drained o env r).1.archived_path ≡ some p
    → IsArchivedAt o env r.db_path p (archive_if_drained o env r)
unfolding archive_if_drained queue_drained
archive_if_drained-IsArchivedAt o env p r fresh sum =
    elim (Bool-cases (o.keep_db || r.db_path == [])) [
      | inl kept ↦ rw kept (λ h. absurd (ground (arith, h, fresh)))
      | inr keep ↦ elim (Bool-cases (queue_drained r.db.tasks)) [
        | inr work ↦ rw (keep, work) (λ h. absurd (ground (arith, h, fresh)))
        | inl empty ↦ elim (Bool-cases env.checkpoint_fails) [
          | inl bad ↦ rw (keep, empty, bad) (λ h. absurd (ground (arith, h, fresh)))
          | inr checked ↦ elim (Bool-cases env.close_fails) [
            | inl bad ↦ rw (keep, empty, checked, bad) (λ h. absurd (ground (arith, h, fresh)))
            | inr closed ↦
                rw (keep, empty, checked, closed)
                  (behind_rename-IsArchivedAt o env p r env.rename fresh sum (ground (arith, keep))
                    (All-done r.db.tasks (ground (arith, empty))))
          ]
        ]
      ]
    ]

behind_drain-IsArchivedAt :
    (o : RunOptions) (env : ExecuteEnv) (p : Bytes) (r : Runner) (drained : Bool × Db)
    → r.archived_path ≡ none
    → (behind_drain o env r drained).1.archived_path ≡ some p
    → IsArchivedAt o env r.db_path p (behind_drain o env r drained)
unfolding archive_if_drained
behind_drain-IsArchivedAt o env p r (false, db) fresh = λ h. absurd (ground (arith, h, fresh))
behind_drain-IsArchivedAt o env p r (true, db) fresh = elim (Bool-cases env.summary_fails) [
  | inl bad ↦ rw bad (λ h. absurd (ground (arith, h, fresh)))
  | inr good ↦ rw good (
      archive_if_drained-IsArchivedAt o env p (record r { db = db; summary = summary_of db.tasks })
        fresh refl)
]

work_off-IsArchivedAt :
    (o : RunOptions) (env : ExecuteEnv) (p : Bytes) (r : Runner)
    → r.archived_path ≡ none
    → (work_off o env r).1.archived_path ≡ some p
    → IsArchivedAt o env r.db_path p (work_off o env r)
unfolding work_off
work_off-IsArchivedAt o env p r fresh = elim (Bool-cases o.dry) [
  | inl dry ↦ rw dry (λ h. absurd (ground (arith, h, fresh)))
  | inr wet ↦ rw wet (behind_drain-IsArchivedAt o env p r (env.drain r.db) fresh)
]

behind_plan-IsArchivedAt :
    (o : RunOptions) (env : ExecuteEnv) (p : Bytes) (r : Runner) (made : Option PlanError × Db)
    → r.archived_path ≡ none
    → (behind_plan o env r made).1.archived_path ≡ some p
    → IsArchivedAt o env r.db_path p (behind_plan o env r made)
behind_plan-IsArchivedAt o env p r (some e, db) fresh h = absurd (ground (arith, h, fresh))
behind_plan-IsArchivedAt o env p r (none, db) fresh h =
    work_off-IsArchivedAt o env p (record r { db = db }) fresh h

execute-IsArchivedAt :
    (o : RunOptions) (env : ExecuteEnv) (p : Bytes) (r : Runner)
    → r.archived_path ≡ none
    → (execute o env r).1.archived_path ≡ some p
    → IsArchivedAt o env r.db_path p (execute o env r)
unfolding execute
execute-IsArchivedAt o env p r fresh = elim (Bool-cases env.probe_fails) [
  | inl bad ↦ rw bad (λ h. absurd (ground (arith, h, fresh)))
  | inr good ↦ elim (Bool-cases (items_empty r.db)) [
    | inl empty ↦
        rw (good, empty)
          (behind_plan-IsArchivedAt o env p r (run_plan env.plan_faults env.columns env.yields r.db)
            fresh)
    | inr planned_before ↦ rw (good, planned_before) (work_off-IsArchivedAt o env p r fresh)
  ]
]

-- What the summary says of a table that is all done.
summary_of-done :
    (tasks : List TaskRow)
    → All (λ (t : TaskRow). t.status ≡ done) tasks
    → ((summary_of tasks).failed ≡ 0)
      × ((summary_of tasks).pending ≡ 0)
      × ((summary_of tasks).running ≡ 0)
unfolding summary_of
summary_of-done [] h = (refl, refl, refl)
summary_of-done (t ∷ tasks) h = rw h.0 (summary_of-done tasks h.1)

-- A run that says where it has moved the database ends without an error, was not told to keep the
-- database, and the drain left every task done: with all that may fail on the way, a database with a
-- pending, running or failed task stays at its path. The summary is that of the table, with nothing
-- pending, running or failed in it.
pub run-IsArchivedAt :
    (o : RunOptions) (env : ExecuteEnv) (db_path p : Bytes) (db : Db)
    → (run o env db_path (some db)).0.archived_path ≡ some p
    → ((run o env db_path (some db)).1 ≡ none)
      × IsArchivedAt o env db_path p (execute o env (new_runner db_path db))
      × ((run o env db_path (some db)).0.summary.failed ≡ 0)
      × ((run o env db_path (some db)).0.summary.pending ≡ 0)
      × ((run o env db_path (some db)).0.summary.running ≡ 0)
unfolding run
run-IsArchivedAt o env db_path p db h =
    let at = execute-IsArchivedAt o env p (new_runner db_path db) refl h in
    let (ok, keep, dest, all, sum) = at in
    let zero_of = summary_of-done (execute o env (new_runner db_path db)).1.db.tasks all in
    (
      ground (arith, ok, sum, zero_of),
      at,
      ground (arith, sum, zero_of.0),
      ground (arith, sum, zero_of.1),
      ground (arith, sum, zero_of.2),
    )
