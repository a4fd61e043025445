-- ===== src/ArchiveWorker/Planned.antt =====
-- The plan of a one-shot archive run: the tasks of archive_task.go in the tables of the task runner.
use mathlib.Core.Option
use hubsync.Prelude.{
  ℕ, ◌≡◌, refl, sym, ap, ◌∙◌, arith, true, false, Option, none, some, List, [], ◌∷◌, ◌++◌, map,
  Bytes, All, ◌==◌, ==_iff, bytes_eq, append-nil, append_assoc, sort_by, find-sort_by,
  sort_by-NodupKeys, select,
}
use hubsync.Prelude.Table.{find, NodupKeys, guarded, find-select, select-NodupKeys}
use hubsync.Model.{FilePath, HubEntry, hub_path}
use hubsync.Store.{HubStore, needs_archive, pending_archive_rows}
use hubsync.Store.Materialized.{IsConsistent}
use hubsync.TaskRunner.{Item, item_id, task_id}
use hubsync.TaskRunner.Plan.{
  Db, Yielded, list_error, has_id, plan_one, plan_all, planned, PlanFaults, run_plan, PlanError,
  items_empty,
}
use hubsync.TaskRunner.Plan.Atomic.{yielded, seeded, find-seed_tasks, ensure_items-empty}
use hubsync.ArchiveWorker.Tasks.{
  ArchiveTask, task_of, Listed, listed, query_failed, cancelled, listed_from, list_tasks,
}

abbrev pub no_faults : PlanFaults
no_faults = record { begin = false; create = false; seed = false; commit = false }

-- How the plan sees what is listed; `encode` is the encoding of a task in its row.
module _ (encode : ArchiveTask → Bytes) where
  abbrev pub item_of : ArchiveTask → Item
  item_of t = record { id = t.id; body = encode t }

  abbrev pub yielded_of : Listed → Yielded
  yielded_of (listed t) = yielded (item_of t)
  yielded_of query_failed = list_error
  yielded_of cancelled = list_error

  abbrev pub row_item : HubEntry → Item
  row_item e = item_of (task_of e)

  listed_from-all :
      (rows : List HubEntry)
      → map yielded_of (listed_from (λ i. false) rows) ≡ map yielded (map row_item rows)
  listed_from-all [] = refl
  listed_from-all (e ∷ rows) = ap (λ l. yielded (row_item e) ∷ l) (listed_from-all rows)

  find-row_item :
      (k : FilePath) (rows : List HubEntry)
      → find item_id k (map row_item rows) ≡ Option.map row_item (find hub_path k rows)
  unfolding find
  find-row_item k [] = refl
  find-row_item k (e ∷ rows) = ground (arith, find-row_item k rows)

  row_item-NodupKeys :
      (rows : List HubEntry) → NodupKeys hub_path rows → NodupKeys item_id (map row_item rows)
  row_item-NodupKeys [] h = tt
  row_item-NodupKeys (e ∷ rows) h =
      (find-row_item e.path rows ∙ ap (Option.map row_item) h.0, row_item-NodupKeys rows h.1)

  row_item-All :
      (rows : List HubEntry)
      → All (λ e. ¬ (e.path ≡ [])) rows
      → All (λ i. ¬ (i.id ≡ [])) (map row_item rows)
  row_item-All [] h = tt
  row_item-All (e ∷ rows) h = (h.0, row_item-All rows h.1)

abbrev Unseen : List Item → List Item → Type 0
Unseen ids items = All (λ i. has_id i.id ids ≡ false) items

Unseen-cons :
    (i : Item) (ids items : List Item)
    → find item_id i.id items ≡ none
    → Unseen ids items
    → Unseen (i ∷ ids) items
unfolding has_id find
Unseen-cons i ids [] h u = tt
Unseen-cons i ids (j ∷ items) h u = (
  ground (arith, h, u.0, ==_iff i.id j.id, ==_iff j.id i.id),
  Unseen-cons i ids items (ground (arith, h)) u.1,
)

-- Tasks with different ids, none of them empty, are planned without an error.
plan_all-yielded :
    (items ids rows : List Item)
    → NodupKeys item_id items
    → All (λ i. ¬ (i.id ≡ [])) items
    → Unseen ids items
    → plan_all (map yielded items) ids rows ≡ planned (rows ++ items)
unfolding plan_all plan_one
plan_all-yielded [] ids rows distinct named unseen = ap planned (sym (append-nil rows))
plan_all-yielded (i ∷ items) ids rows distinct named unseen =
    let given : (i.id == []) ≡ false = ground (arith, named.0, ==_iff i.id []) in
    rw (given, unseen.0, plan_all)
      (plan_all-yielded items (i ∷ ids) (rows ++ i ∷ []) distinct.1 named.1
          (Unseen-cons i ids items distinct.0 unseen.1)
        ∙ ap planned (append_assoc rows (i ∷ []) items))

Unseen-none : (items : List Item) → Unseen [] items
unfolding has_id
Unseen-none [] = tt
Unseen-none (i ∷ items) = (refl, Unseen-none items)

-- A plan of the archive run: an item for each row that needs archiving, and a task for each item.
abbrev pub IsPlanned : (ArchiveTask → Bytes) → HubStore → ℕ → Db → Option PlanError × Db → Type 0
IsPlanned encode store columns db (problem, db') =
    (problem ≡ none)
    × (items : List Item) × (db'.items ≡ some (record { columns = columns; rows = items }))
    × ((k : FilePath)
        → find item_id k items
          ≡ Option.map (row_item encode)
              (guarded hub_path needs_archive (find hub_path k store.hub_entry)))
    × ((k : FilePath)
        → find task_id k db'.tasks ≡ seeded k (find task_id k db.tasks) (find item_id k items))

-- A one-shot archive run on a consistent hub of which no pending row has the empty path plans on a
-- database without items, if no statement fails and its context does not end: the plan succeeds; a
-- path has an item, that of its row, exactly if its row needs archiving; and each item has the task
-- that was there, or a new one.
pub run_plan-IsPlanned :
    (encode : ArchiveTask → Bytes) (columns : ℕ) (store : HubStore) (db : Db)
    → IsConsistent store
    → All (λ e. ¬ (e.path ≡ [])) (pending_archive_rows store)
    → items_empty db ≡ true
    → IsPlanned encode store columns db (
        run_plan no_faults columns
          (map (yielded_of encode) (list_tasks false (λ i. false) store))
          db)
unfolding run_plan list_tasks pending_archive_rows
run_plan-IsPlanned encode columns store db consistent named empty =
    let due = select needs_archive store.hub_entry in
    let due_distinct =
      select-NodupKeys hub_path needs_archive store.hub_entry consistent.distinct in
    let rows = sort_by hub_path due in
    let items = map (row_item encode) rows in
    let made : plan_all (map yielded items) [] [] ≡ planned items =
      plan_all-yielded items [] []
        (row_item-NodupKeys encode rows (sort_by-NodupKeys hub_path due due_distinct))
        (row_item-All encode rows named) (Unseen-none items) in
    rw (ensure_items-empty columns db empty, listed_from-all encode rows, made)
      (
        refl,
        items,
        refl,
        (λ k.
            find-row_item encode k rows
            ∙ ap (Option.map (row_item encode)) (
                find-sort_by hub_path k due due_distinct
                ∙ find-select hub_path k needs_archive store.hub_entry consistent.distinct)),
        λ k. find-seed_tasks k items db.tasks,
      )
