-- ===== src/TaskRunner/Workers/Exclusive.antt =====
-- At most one live worker works at a task, and a task that is done stays as it is.
use hubsync.Prelude.{
  ◌≡◌, refl, sym, subst, ◌∙◌, ap, inl, inr, arith, true, some, List, ◌∷◌, ◌++◌, In, In-insert,
  In-right, Distinct, Distinct-remove, Bytes, bytes_eq, ==_iff,
}
use hubsync.Prelude.Table.{find, update, find-update}
use hubsync.TaskRunner.{
  RunOptions, TaskRow, task_id, Ended, claim, claimed_row, beat, beaten_row, ended_row,
  write_terminal, stale_seconds, done,
}
use hubsync.TaskRunner.Workers.{
  Board, Step, pick, keep_beating, end, die, wait, Steps, here, then_step,
}
use hubsync.TaskRunner.Workers.WorkedAt.{
  IsExclusive, IsWorkedAt, claim-cases, not_claimable, not_claimable_done, IsWorkedAt-update,
  beaten_row-id, ended_row-id, claimed-IsWorkedAt, beaten-IsWorkedAt, waited-IsWorkedAt,
}

module _ (o : RunOptions) (patch : Bytes → Bytes → Bytes → Bytes) where
  -- A claim that succeeds is of a task that no live worker holds.
  claim-not_held :
      (id : Bytes) (tasks' : List TaskRow) (b : Board)
      → claim o b.now id b.tasks ≡ (true, tasks')
      → IsExclusive o b
      → ¬ In id b.held
  claim-not_held id tasks' b e x i =
      let (r, at, may, _) = claim-cases o b.now id b.tasks tasks' e in
      let (s, beating) = subst (IsWorkedAt (stale_seconds o) b.now) at (x.worked_at id i) in
      absurd (ground (arith, may, not_claimable o b.now r s beating))

  pick-IsExclusive :
      (id : Bytes) (tasks' : List TaskRow) (b : Board)
      → claim o b.now id b.tasks ≡ (true, tasks')
      → IsExclusive o b
      → IsExclusive o (record b { tasks = tasks'; held = id ∷ b.held })
  pick-IsExclusive id tasks' b e x =
      let (r, at, may, to) = claim-cases o b.now id b.tasks tasks' e in
      record {
        distinct = (claim-not_held id tasks' b e x, x.distinct);
        worked_at = λ k i.
            subst (λ t. IsWorkedAt (stale_seconds o) b.now (find task_id k t)) (sym to)
              (IsWorkedAt-update (stale_seconds o) b.now k id (claimed_row b.now) b.tasks
                (λ s. refl)
                (λ same.
                  claimed-IsWorkedAt (stale_seconds o) b.now (find task_id k b.tasks) (λ absent.
                    absurd (ground (arith, at, absent, ap (λ j. find task_id j b.tasks) same))))
                (λ other. elim i [
                  | inl same ↦ absurd (other same)
                  | inr before ↦ x.worked_at k before
                ]));
      }

  end-IsExclusive :
      (xs : List Bytes) (id : Bytes) (ys : List Bytes) (ended : Ended) (b : Board)
      → b.held ≡ xs ++ id ∷ ys
      → IsExclusive o b
      → IsExclusive o
          (record b { tasks = write_terminal patch b.now id ended b.tasks; held = xs ++ ys })
  unfolding write_terminal
  end-IsExclusive xs id ys ended b e x =
      let (rest, out) = Distinct-remove id xs ys (subst Distinct e x.distinct) in
      record {
        distinct = rest;
        worked_at = λ k i.
            IsWorkedAt-update (stale_seconds o) b.now k id (ended_row patch b.now ended) b.tasks
              (ended_row-id patch b.now ended)
              (λ same. absurd (out (subst (λ j. In j (xs ++ ys)) (sym same) i)))
              (λ other. x.worked_at k (subst (In k) (sym e) (In-insert k id xs ys i)));
      }

  Step-IsExclusive : {a b : Board} → Step o patch a b → IsExclusive o a → IsExclusive o b
  unfolding beat
  Step-IsExclusive (pick id tasks' b e) x = pick-IsExclusive id tasks' b e x
  Step-IsExclusive (keep_beating xs id ys status b e) x = record {
    distinct = x.distinct;
    worked_at = λ k i.
        IsWorkedAt-update (stale_seconds o) b.now k id (beaten_row patch b.now status) b.tasks
          (beaten_row-id patch b.now status)
          (λ same.
            beaten-IsWorkedAt patch (stale_seconds o) b.now status (find task_id k b.tasks)
              (x.worked_at k i))
          (λ other. x.worked_at k i);
  }
  Step-IsExclusive (end xs id ys ended b e) x = end-IsExclusive xs id ys ended b e x
  Step-IsExclusive (die xs id ys b e) x = record {
    distinct = (Distinct-remove id xs ys (subst Distinct e x.distinct)).0;
    worked_at = λ k i. x.worked_at k (subst (In k) (sym e) (In-insert k id xs ys i));
  }
  Step-IsExclusive (wait now' b le beating) x = record {
    distinct = x.distinct;
    worked_at = λ k i.
        waited-IsWorkedAt (stale_seconds o) b.now now' (find task_id k b.tasks) (x.worked_at k i)
          (beating k i);
  }

  untouched :
      (k j : Bytes) (f : TaskRow → TaskRow) (tasks : List TaskRow)
      → ((r : TaskRow) → task_id (f r) ≡ task_id r)
      → ¬ (j ≡ k)
      → find task_id k (update task_id j f tasks) ≡ find task_id k tasks
  untouched k j f tasks keeps other =
      ground (arith, find-update task_id k j f tasks keeps, ==_iff j k, other)

  done-not_held :
      (k : Bytes) (r : TaskRow) (b : Board)
      → IsExclusive o b
      → find task_id k b.tasks ≡ some r
      → r.status ≡ done
      → ¬ In k b.held
  done-not_held k r b x at s i =
      let (s', _) = subst (IsWorkedAt (stale_seconds o) b.now) at (x.worked_at k i) in
      absurd (grind (arith, s, s'))

  apart : (k j : Bytes) (held : List Bytes) → In j held → ¬ In k held → ¬ (j ≡ k)
  apart k j held i n e = n (subst (λ l. In l held) e i)

  Step-done :
      {a b : Board} (k : Bytes) (r : TaskRow)
      → Step o patch a b
      → IsExclusive o a
      → find task_id k a.tasks ≡ some r
      → r.status ≡ done
      → find task_id k b.tasks ≡ some r
  unfolding beat write_terminal
  Step-done k r (pick id tasks' b e) x at s =
      let (q, found, may, to) = claim-cases o b.now id b.tasks tasks' e in
      subst (λ t. find task_id k t ≡ some r) (sym to)
        (untouched k id (claimed_row b.now) b.tasks (λ t. refl)
            (λ same. absurd (
              grind (
                arith,
                at,
                found,
                may,
                not_claimable_done o b.now r s,
                ap (λ j. find task_id j b.tasks) same,
              )))
          ∙ at)
  Step-done k r (keep_beating xs id ys status b e) x at s =
      untouched k id (beaten_row patch b.now status) b.tasks (beaten_row-id patch b.now status) (
        apart k id b.held (subst (In id) (sym e) (In-right id xs (id ∷ ys) (inl refl)))
          (done-not_held k r b x at s))
      ∙ at
  Step-done k r (end xs id ys ended b e) x at s =
      untouched k id (ended_row patch b.now ended) b.tasks (ended_row-id patch b.now ended) (
        apart k id b.held (subst (In id) (sym e) (In-right id xs (id ∷ ys) (inl refl)))
          (done-not_held k r b x at s))
      ∙ at
  Step-done k r (die xs id ys b e) x at s = at
  Step-done k r (wait now' b le beating) x at s = at

  -- While the heartbeats of the workers that live are in time, whatever they claim, end and leave
  -- behind when they die: no two live workers hold the same task, the task of each is `running` with a
  -- heartbeat that is not stale, and a task that is done keeps its row as it is.
  pub Steps-IsExclusive :
      {a b : Board}
      → Steps o patch a b
      → IsExclusive o a
      → IsExclusive o b
        × ((k : Bytes) (r : TaskRow)
            → find task_id k a.tasks ≡ some r
            → r.status ≡ done
            → find task_id k b.tasks ≡ some r)
  Steps-IsExclusive (here b) x = (x, λ k r at s. at)
  Steps-IsExclusive (then_step steps step) x =
      let (y, stays) = Steps-IsExclusive steps x in
      (Step-IsExclusive step y, λ k r at s. Step-done k r step y (stays k r at s) s)
