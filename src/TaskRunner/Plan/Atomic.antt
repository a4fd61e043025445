-- ===== src/TaskRunner/Plan/Atomic.antt =====
-- A plan is made whole or not at all.
use hubsync.Prelude.{
  ℕ, ◌≡◌, refl, ap, ◌∙◌, arith, inl, inr, true, false, Option, none, some, List, [], ◌∷◌, ◌++◌,
  append-nil, append_assoc, map, All, if◌then◌else◌, Bool-cases, Option-cases, Bytes, bytes_eq,
  ◌==◌, ==_iff,
}
use hubsync.Prelude.Table.{find, NodupKeys}
use hubsync.TaskRunner.{TaskRow, task_id, Item, item_id}
use hubsync.TaskRunner.Plan.{
  Db, Yielded, a_task, wrong_type, unbound, list_error, PlanError, Planned, planned, plan_error,
  items_empty, ensure_items, has_id, plan_one, with_id, plan_all, new_task, seed_tasks, PlanFaults,
  finish_plan, run_plan,
}

abbrev pub yielded : Item → Yielded
yielded i = a_task i false

-- The task of an id: the old one, or else a new one where there is an item.
abbrev pub seeded : Bytes → Option TaskRow → Option Item → Option TaskRow
seeded k (some r) item = some r
seeded k none none = none
seeded k none (some i) = some (new_task k)

find-snoc :
    (k : Bytes) (tasks : List TaskRow) (r : TaskRow)
    → find task_id k (tasks ++ r ∷ [])
      ≡ elim (find task_id k tasks) [ none ↦ if r.id == k then some r else none | some s ↦ some s ]
unfolding find
find-snoc k [] r = refl
find-snoc k (s ∷ tasks) r = ground (arith, find-snoc k tasks r)

pub find-seed_tasks :
    (k : Bytes) (rows : List Item) (tasks : List TaskRow)
    → find task_id k (seed_tasks rows tasks) ≡ seeded k (find task_id k tasks) (find item_id k rows)
unfolding seed_tasks find
find-seed_tasks k [] tasks = ground arith
find-seed_tasks k (i ∷ rows) tasks = elim (Option-cases (find task_id i.id tasks)) [
  | inl absent ↦ rw absent (
      find-seed_tasks k rows (tasks ++ new_task i.id ∷ [])
      ∙ ground (
        arith,
        find-snoc k tasks (new_task i.id),
        absent,
        ==_iff i.id k,
        λ (e : i.id ≡ k). ap (λ j. find task_id j tasks) e,
      ))
  | inr (r, at) ↦ rw at (
      find-seed_tasks k rows tasks
      ∙ ground (arith, at, ==_iff i.id k, λ (e : i.id ≡ k). ap (λ j. find task_id j tasks) e))
]

has_id-find : (k : Bytes) (items : List Item) → has_id k items ≡ false → find item_id k items ≡ none
unfolding has_id find
has_id-find k [] h = refl
has_id-find k (i ∷ items) h = ground (arith, has_id-find k items)

plan_one-planned :
    (y : Yielded) (ids rows rows' : List Item)
    → plan_one y ids rows ≡ planned rows'
    → (i : Item) × (y ≡ yielded i) × (rows' ≡ rows ++ i ∷ []) × (find item_id i.id ids ≡ none)
unfolding plan_one
plan_one-planned list_error ids rows rows' h = absurd (ground (arith, h))
plan_one-planned wrong_type ids rows rows' h = absurd (ground (arith, h))
plan_one-planned unbound ids rows rows' h = absurd (ground (arith, h))
plan_one-planned (a_task i true) ids rows rows' h = absurd (ground (arith, h))
plan_one-planned (a_task i false) ids rows rows' h =
    (i, refl, ground (arith, h), has_id-find i.id ids (ground (arith, h)))

abbrev Fresh : List Item → List Item → Type 0
Fresh ids items = All (λ j. find item_id j.id ids ≡ none) items

Fresh-head :
    (i : Item) (ids items : List Item) → Fresh (i ∷ ids) items → find item_id i.id items ≡ none
unfolding find
Fresh-head i ids [] h = refl
Fresh-head i ids (j ∷ items) h =
    ground (arith, h.0, Fresh-head i ids items h.1, ==_iff i.id j.id, ==_iff j.id i.id)

Fresh-tail : (i : Item) (ids items : List Item) → Fresh (i ∷ ids) items → Fresh ids items
unfolding find
Fresh-tail i ids [] h = tt
Fresh-tail i ids (j ∷ items) h = (ground (arith, h.0), Fresh-tail i ids items h.1)

-- What a loop without an error says of what was yielded.
abbrev Loop : List Yielded → List Item → List Item → List Item → Type 0
Loop ys ids rows rows' =
    (items : List Item) × (ys ≡ map yielded items)
    × (rows' ≡ rows ++ items)
    × NodupKeys item_id items
    × Fresh ids items

Loop-cons :
    (y : Yielded) (i : Item) (ys : List Yielded) (ids rows middle rows' : List Item)
    → y ≡ yielded i
    → middle ≡ rows ++ i ∷ []
    → find item_id i.id ids ≡ none
    → Loop ys (i ∷ ids) middle rows'
    → Loop (y ∷ ys) ids rows rows'
Loop-cons y i ys ids rows middle rows' ey em absent (items, eys, er, distinct, fresh) = (
  i ∷ items,
  rw (ey, eys) refl,
  er ∙ ap (λ (m : List Item). m ++ items) em ∙ append_assoc rows (i ∷ []) items,
  (Fresh-head i ids items fresh, distinct),
  (absent, Fresh-tail i ids items fresh),
)

plan_next-Loop :
    (y : Yielded) (ys : List Yielded) (ids rows rows' : List Item) (p : Planned (List Item))
    → plan_one y ids rows ≡ p
    → plan_all (y ∷ ys) ids rows ≡ planned rows'
    → ((ids' middle : List Item)
        → plan_all ys ids' middle ≡ planned rows'
        → Loop ys ids' middle rows')
    → Loop (y ∷ ys) ids rows rows'
unfolding plan_all
plan_next-Loop y ys ids rows rows' (plan_error e) q h later = absurd (ground (arith, h, q))
plan_next-Loop y ys ids rows rows' (planned middle) q h later =
    let (i, ey, em, absent) = plan_one-planned y ids rows middle q in
    let same : with_id y ids ≡ i ∷ ids = ap (λ v. with_id v ids) ey in
    Loop-cons y i ys ids rows middle rows' ey em absent
      (later (i ∷ ids) middle (ground (arith, h, q, same)))

plan_all-Loop :
    (ys : List Yielded) (ids rows rows' : List Item)
    → plan_all ys ids rows ≡ planned rows'
    → Loop ys ids rows rows'
unfolding plan_all
plan_all-Loop [] ids rows rows' h = ([], refl, ground (arith, h, append-nil rows), tt, tt)
plan_all-Loop (y ∷ ys) ids rows rows' h =
    plan_next-Loop y ys ids rows rows' (plan_one y ids rows) refl h
      (λ ids' middle. plan_all-Loop ys ids' middle rows')

-- What a plan made of the database, by its error.
abbrev pub PlanMade : ℕ → List Yielded → Db → Option PlanError × Db → Type 0
PlanMade columns ys db (some e, db') = db' ≡ db
PlanMade columns ys db (none, db') =
    (items : List Item) × (ys ≡ map yielded items)
    × NodupKeys item_id items
    × (db'.items ≡ some (record { columns = columns; rows = items }))
    × ((k : Bytes)
        → find task_id k db'.tasks ≡ seeded k (find task_id k db.tasks) (find item_id k items))

pub ensure_items-empty :
    (columns : ℕ) (db : Db) → items_empty db ≡ true → ensure_items columns db.items ≡ []
unfolding ensure_items items_empty
ensure_items-empty columns db h = ground (arith, h)

finish-PlanMade :
    (faults : PlanFaults) (columns : ℕ) (ys : List Yielded) (db : Db) (p : Planned (List Item))
    → plan_all ys [] [] ≡ p
    → PlanMade columns ys db (finish_plan faults columns db p)
finish-PlanMade faults columns ys db (plan_error e) h = refl
finish-PlanMade faults columns ys db (planned rows) h =
    let (items, made, all, distinct, _) = plan_all-Loop ys [] [] rows h in
    elim (Bool-cases faults.seed) [
      | inl seed ↦ rw seed refl
      | inr seed ↦ elim (Bool-cases faults.commit) [
        | inl commit ↦ rw (seed, commit) refl
        | inr commit ↦
            rw (seed, commit)
              (items, made, distinct, rw all refl, λ k. rw all (find-seed_tasks k items db.tasks))
      ]
    ]

-- A plan on a database without items, whatever fails: an error leaves the database as it was.
-- Without an error everything that was yielded was a task, no two of them with the same id; the items
-- are exactly these, in their order; an id that had a task keeps it as it was, and the id of an item
-- without one has a pending task that was never attempted.
pub run_plan-PlanMade :
    (faults : PlanFaults) (columns : ℕ) (ys : List Yielded) (db : Db)
    → items_empty db ≡ true
    → PlanMade columns ys db (run_plan faults columns ys db)
unfolding run_plan
run_plan-PlanMade faults columns ys db h = elim (Bool-cases faults.begin) [
  | inl begin ↦ rw begin refl
  | inr begin ↦ elim (Bool-cases faults.create) [
    | inl create ↦ rw (begin, create) refl
    | inr create ↦
        rw (begin, create, ensure_items-empty columns db h)
          (finish-PlanMade faults columns ys db (plan_all ys [] []) refl)
  ]
]
