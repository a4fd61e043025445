-- ===== src/TaskRunner/Plan.antt =====
-- `runPlan` of plan.go with `itemsEmpty` of schema.go: the tasks that the factory yields become items,
-- in one transaction, and each item a task.
pub mod Atomic
use hubsync.Prelude.{
  ℕ, Bool, true, false, ◌&&◌, Option, none, some, List, [], ◌∷◌, ◌++◌, Bytes, codes, ltb,
  if◌then◌else◌, ◌==◌, nat_eq, bytes_eq, map,
}
use hubsync.Prelude.Table.{find}
use hubsync.TaskRunner.{TaskRow, task_id, Item, item_id, pending}

-- The table `items` with so many columns; a stub of an older schema has fewer.
pub record ItemsTable : Type 0 where
  pub columns : ℕ
  pub rows : List Item

pub record Db : Type 0 where
  pub items : Option ItemsTable
  pub tasks : List TaskRow

-- What the iterator yields: a task that binds to a row, whose INSERT may fail; a task of another type;
-- one that does not bind; or an error.
pub data Yielded : Type 0 where
  a_task : Item → Bool → Yielded
  wrong_type unbound list_error : Yielded

pub data PlanError : Type 0 where
  plan_failed yielded_wrong_type bind_failed empty_id duplicate_id insert_failed : PlanError
  begin_failed create_failed seed_failed commit_failed : PlanError

pub data Planned {ℓ} (A : Type ℓ) : Type ℓ where
  planned : A → Planned A
  plan_error : PlanError → Planned A

unfoldable pub items_empty : Db → Bool
items_empty db = elim db.items [
  | none ↦ true
  | some t ↦ elim t.rows [ [] ↦ true | i ∷ rows ↦ false ]
]

-- The items table that the plan inserts into; a stub is dropped with its rows.
unfoldable pub ensure_items : ℕ → Option ItemsTable → List Item
ensure_items columns none = []
ensure_items columns (some t) = if ltb 0 t.columns && ltb t.columns columns then [] else t.rows

unfoldable pub has_id : Bytes → List Item → Bool
has_id id [] = false
has_id id (i ∷ items) = if i.id == id then true else has_id id items

-- The checks of one yielded task, behind the ids so far, and its INSERT into the rows.
unfoldable pub plan_one : Yielded → List Item → List Item → Planned (List Item)
unfolding has_id
plan_one list_error ids rows = plan_error plan_failed
plan_one wrong_type ids rows = plan_error yielded_wrong_type
plan_one unbound ids rows = plan_error bind_failed
plan_one (a_task i fails) ids rows =
    if i.id == []
    then plan_error empty_id
    else if has_id i.id ids
    then plan_error duplicate_id
    else if fails
    then plan_error insert_failed
    else planned (rows ++ i ∷ [])

abbrev pub with_id : Yielded → List Item → List Item
with_id (a_task i fails) ids = i ∷ ids
with_id wrong_type ids = ids
with_id unbound ids = ids
with_id list_error ids = ids

-- The loop over the iterator; the first error ends it. `ids` has the items of this plan.
unfoldable pub plan_all : List Yielded → List Item → List Item → Planned (List Item)
unfolding plan_one
plan_all [] ids rows = planned rows
plan_all (y ∷ ys) ids rows = elim (plan_one y ids rows) [
  | planned rows' ↦ plan_all ys (with_id y ids) rows'
  | plan_error e ↦ plan_error e
]

abbrev pub new_task : Bytes → TaskRow
new_task id = record {
  id = id;
  status = pending;
  attempts = 0;
  started_at = none;
  ended_at = none;
  heartbeat_at = none;
  error = none;
  meta = codes "{}";
}

-- `INSERT OR IGNORE INTO tasks (id) SELECT id FROM items`.
unfoldable pub seed_tasks : List Item → List TaskRow → List TaskRow
seed_tasks [] tasks = tasks
seed_tasks (i ∷ rows) tasks =
    seed_tasks rows
      (elim (find task_id i.id tasks) [ none ↦ tasks ++ new_task i.id ∷ [] | some r ↦ tasks ])

pub record PlanFaults : Type 0 where
  pub begin : Bool
  pub create : Bool
  pub seed : Bool
  pub commit : Bool

-- An error rolls the transaction back.
abbrev pub finish_plan : PlanFaults → ℕ → Db → Planned (List Item) → Option PlanError × Db
finish_plan faults columns db (plan_error e) = (some e, db)
finish_plan faults columns db (planned rows) =
    if faults.seed
    then (some seed_failed, db)
    else if faults.commit
    then (some commit_failed, db)
    else (
      none,
      record {
        items = some (record { columns = columns; rows = rows });
        tasks = seed_tasks rows db.tasks;
      },
    )

unfoldable pub run_plan : PlanFaults → ℕ → List Yielded → Db → Option PlanError × Db
unfolding ensure_items plan_all seed_tasks
run_plan faults columns ys db =
    if faults.begin
    then (some begin_failed, db)
    else if faults.create
    then (some create_failed, db)
    else finish_plan faults columns db (plan_all ys [] (ensure_items columns db.items))
