-- ===== src/Push/Effects.antt =====
-- What an accepted operation of a push leaves behind.
use hubsync.Prelude.{
  ℕ, ◌+◌, ◌≡◌, ◌≢◌, refl, sym, ap, ◌∙◌, arith, if◌then◌else◌, ◌==◌, nat_eq, bytes_eq, Bool-cases,
  Option-cases, inl, inr, Option, some, true, false, Bytes, [], ◌∷◌, Bool, ◌++◌, take,
}
use hubsync.Model.{
  Digest, FilePath, TreeEntry, HubTreeEntry, ChangeOp, create, change_update, delete, ChangeEntry,
}
use hubsync.Store.{append, tree_lookup}
use hubsync.Store.Log.{row_of, effect}
use hubsync.Store.Materialized.{row_at, row_at-write_entry}
use hubsync.Event.Files.{bytes_at, bytes_at-write_file}
use hubsync.Push.{
  Hub, Faults, Now, PushOp, PushResult, accepted, ConflictPolicy, fail, client_wins, hub_wins,
  OpKind, op_create, op_update, op_delete, op_unknown, record_change, accept_write, write_content,
  WriteEnd, complete, not_opened, cut_after, written_change, create_over, stale_update, push_create,
  push_update, push_kind, process_push_op, version_for_entry, refuse, Reason, write_failed,
  store_failed, mkdir_failed, left_on_disk,
}

-- The client's content is the hub's, in the file, in the row and at the end of the broadcasts,
-- under the version of the answer; the other paths are as before.
abbrev pub HoldsContent : (Bytes → Digest) → Now → PushOp → Hub → ℕ → Hub → Type 0
HoldsContent sum now op hub version hub' =
    (change_op : ChangeOp) × (c : ChangeEntry) × (c
      ≡ record (written_change sum now op change_op) { version = version })
    × (version ≡ hub.store.last_version + 1)
    × (hub'.sent ≡ hub.sent ++ c ∷ [])
    × ((k : FilePath)
        → bytes_at k hub'.disk ≡ (if op.path == k then some op.content else bytes_at k hub.disk))
    × ((k : FilePath)
        → row_at k hub'.store.hub_entry
          ≡ (if op.path == k then some (row_of c) else row_at k hub.store.hub_entry))

abbrev Written : (Bytes → Digest) → Now → PushOp → Hub → PushResult × Hub → Type 0
Written sum now op hub (result, hub') =
    (version : ℕ) → result.outcome ≡ accepted version → HoldsContent sum now op hub version hub'

effect-write :
    (k : FilePath) (op : ChangeOp) (c : ChangeEntry) (old : Option HubTreeEntry)
    → op ≢ delete
    → effect k op c old ≡ (if c.path == k then some (row_of c) else old)
unfolding effect
effect-write k create c old h = refl
effect-write k change_update c old h = refl
effect-write k delete c old h = absurd (h refl)

module _ (sum : Bytes → Digest) (faults : Faults) (now : Now) (op : PushOp) where
  refuse-Written :
      (hub hub' : Hub) (reason : Reason) (version : ℕ) (digest : Digest)
      → Written sum now op hub (refuse op.path reason version digest hub')
  refuse-Written hub hub' reason version digest v h = absurd (ground arith)

  write_content-Written :
      (change_op : ChangeOp) (hub : Hub)
      → change_op ≢ delete
      → (ending : WriteEnd)
      → Written sum now op hub (write_content sum ending faults now op change_op hub)
  unfolding write_content record_change append
  write_content-Written change_op hub writes not_opened = refuse-Written hub hub write_failed 0 []
  write_content-Written change_op hub writes (cut_after n) =
      refuse-Written hub (left_on_disk sum now op (take n op.content) hub) write_failed 0 []
  write_content-Written change_op hub writes complete = elim (Bool-cases faults.store) [
    | inl broken ↦
        rw (broken, append)
          (refuse-Written hub (left_on_disk sum now op op.content hub) store_failed 0 [])
    | inr works ↦
        rw (works, append)
          λ v h.
            let last : v ≡ hub.store.last_version + 1 = ground arith in
            (
              change_op,
              record (written_change sum now op change_op) { version = v },
              refl,
              last,
              ap
                  (λ n.
                    hub.sent ++ record (written_change sum now op change_op) { version = n } ∷ [])
                  (sym last),
              (λ k. bytes_at-write_file now.mtime op.path k op.content 0o644 hub.disk),
              λ k.
                  row_at-write_entry now.seconds (hub.store.last_version + 1)
                    (written_change sum now op change_op) k change_op hub.store.hub_entry
                  ∙ effect-write k change_op _ _ writes
                  ∙ ap
                      (λ n.
                        if op.path == k
                        then some
                            (row_of (record (written_change sum now op change_op) { version = n }))
                        else row_at k hub.store.hub_entry)
                      (sym last),
            )
  ]

  accept_write-Written :
      (change_op : ChangeOp) (hub : Hub)
      → change_op ≢ delete
      → Written sum now op hub (accept_write sum faults now op change_op hub)
  unfolding accept_write
  accept_write-Written change_op hub writes = by_mkdir faults.mkdir
    where
      by_mkdir :
          (failed : Bool)
          → Written sum now op hub (
              if failed
              then refuse op.path mkdir_failed 0 [] hub
              else write_content sum faults.write faults now op change_op hub)
      by_mkdir true = refuse-Written hub hub mkdir_failed 0 []
      by_mkdir false = write_content-Written change_op hub writes faults.write

  over-Written :
      (existing : TreeEntry) (policy : ConflictPolicy) (hub : Hub)
      → Written sum now op hub (create_over sum faults now op policy existing hub)
        × Written sum now op hub (stale_update sum faults now op policy existing hub)
  unfolding create_over stale_update
  over-Written existing fail hub = (refuse-Written hub hub _ _ _, refuse-Written hub hub _ _ _)
  over-Written existing hub_wins hub = (refuse-Written hub hub _ _ _, refuse-Written hub hub _ _ _)
  over-Written existing client_wins hub = (
    accept_write-Written change_update hub (λ e. absurd (ground arith)),
    accept_write-Written change_update hub (λ e. absurd (ground arith)),
  )

-- An accepted create or update, whatever the policy, has put the client's bytes in the file, their
-- digest, their size and the answer's version in the row, and that version, which is the next of
-- the log, in one more broadcast. Every other path keeps its content and its row.
pub process_push_op-HoldsContent :
    (sum : Bytes → Digest) (faults : Faults) (now : Now) (op : PushOp) (policy : ConflictPolicy)
    (hub : Hub) (version : ℕ)
    → op.op ≢ op_delete
    → (process_push_op sum faults now op policy hub).0.outcome ≡ accepted version
    → HoldsContent sum now op hub version (process_push_op sum faults now op policy hub).1
unfolding process_push_op push_kind push_create push_update
process_push_op-HoldsContent sum faults now op policy hub version writes done =
    by_kind op.op writes version done
  where
    by_kind :
        (kind : OpKind)
        → kind ≢ op_delete
        → Written sum now op hub (push_kind sum kind faults now op policy hub)
    by_kind op_create w = elim (Option-cases (tree_lookup op.path hub.store)) [
      | inl e ↦
          rw (e, push_create)
            (accept_write-Written sum faults now op create hub (λ e. absurd (ground arith)))
      | inr (existing, e) ↦
          rw (e, push_create) (over-Written sum faults now op existing policy hub).0
    ]
    by_kind op_update w = elim (Option-cases (tree_lookup op.path hub.store)) [
      | inl e ↦ rw (e, push_update) (refuse-Written sum faults now op hub hub _ 0 [])
      | inr (existing, e) ↦
          elim (Bool-cases (version_for_entry existing hub.store == op.base_version)) [
            | inl same ↦
                rw (e, same, push_update)
                  (accept_write-Written sum faults now op change_update hub
                    (λ e. absurd (ground arith)))
            | inr stale ↦
                rw (e, stale, push_update) (over-Written sum faults now op existing policy hub).1
          ]
    ]
    by_kind op_delete w = absurd (w refl)
    by_kind op_unknown w = refuse-Written sum faults now op hub hub _ 0 []
