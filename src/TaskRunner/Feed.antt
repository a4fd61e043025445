-- ===== src/TaskRunner/Feed.antt =====
-- `feedQueue` and `fetchBatch` of runner.go: passes over the table, each of which emits what is new.
-- What the workers make of the table between two passes is an argument.
pub mod Ends
use hubsync.Prelude.{
  ℕ, zero, suc, ◌+◌, Bool, true, false, not, Option, none, some, List, [], ◌∷◌, ◌++◌, take, leb,
  if◌then◌else◌, Bytes, bytes_eq, sort_by,
}
use hubsync.Prelude.Table.{find, upsert}
use hubsync.TaskRunner.{RunOptions, TaskRow, task_id, Item, item_id, work_queue_where}

-- A row of the query: `items.*` and `tasks.attempts`.
pub record Picked : Type 0 where
  pub item : Item
  pub attempts : ℕ

pub record Seen : Type 0 where
  pub id : Bytes
  pub attempts : ℕ

abbrev pub seen_id : Seen → Bytes
seen_id s = s.id

-- A row of the join, where the task is in the work queue.
abbrev pub join_row : (TaskRow → Bool) → Item → Option TaskRow → List Picked → List Picked
join_row due i none rest = rest
join_row due i (some r) rest =
    if due r then record { item = i; attempts = r.attempts } ∷ rest else rest

unfoldable pub joined : RunOptions → ℕ → List TaskRow → List Item → List Picked
joined o now tasks [] = []
joined o now tasks (i ∷ items) =
    join_row (work_queue_where o now) i (find task_id i.id tasks) (joined o now tasks items)

unfoldable pub work_queue : RunOptions → ℕ → List TaskRow → List Item → List Picked
unfolding joined
work_queue o now tasks items = joined o now tasks (sort_by item_id items)

-- Whether the row was not emitted with as many attempts.
unfoldable pub is_new : Picked → List Seen → Bool
is_new p seen = elim (find seen_id p.item.id seen) [
  | none ↦ true
  | some prev ↦ not (leb p.attempts prev.attempts)
]

abbrev pub noted : Picked → List Seen → List Seen
noted p seen = upsert seen_id (record { id = p.item.id; attempts = p.attempts }) seen

unfoldable pub fetch_batch : List Picked → List Seen → List Item × List Seen
unfolding is_new
fetch_batch [] seen = ([], seen)
fetch_batch (p ∷ ps) seen =
    let new = is_new p seen in
    let (batch, seen') = fetch_batch ps (if new then noted p seen else seen) in
    (if new then p.item ∷ batch else batch, seen')

-- What a pass meets: the table and the clock, whether the query fails, and after how many rows the
-- context is cancelled, if it is.
pub record Pass : Type 0 where
  pub tasks : List TaskRow
  pub now : ℕ
  pub fails : Bool
  pub cancelled : Option ℕ

pub data FeedEnd : Type 0 where
  drained query_failed context_done out_of_fuel : FeedEnd

-- A pass that emits nothing is the last one.
unfoldable pub sent_on : List Item → Option ℕ → List Item × FeedEnd → List Item × FeedEnd
sent_on [] cancelled later = ([], drained)
sent_on (i ∷ batch) (some n) later = (take n (i ∷ batch), context_done)
sent_on (i ∷ batch) none later = (i ∷ batch ++ later.0, later.1)

module _ (o : RunOptions) (items : List Item) where
  -- The rows that were sent to the workers, and how the feed ended.
  unfoldable pub feed_queue : ℕ → (ℕ → Pass) → List Seen → List Item × FeedEnd
  unfolding work_queue fetch_batch sent_on
  feed_queue zero passes seen = ([], out_of_fuel)
  feed_queue (suc fuel) passes seen =
      let (batch, seen') = fetch_batch (work_queue o (passes 0).now (passes 0).tasks items) seen in
      let later = feed_queue fuel (λ k. passes (k + 1)) seen' in
      if (passes 0).fails then ([], query_failed) else sent_on batch (passes 0).cancelled later
