-- ===== src/Push/Permission.antt =====
-- Optimistic concurrency: what the hub accepts under the policy that refuses conflicts.
use hubsync.Prelude.{
  ℕ, ◌≡◌, ◌↔◌, arith, ◌==◌, nat_eq, Bool-cases, Option-cases, inl, inr, Option, none, some, ==_iff,
  Bytes,
}
use hubsync.Model.{Digest, HubEntry, tree_entry, ChangeOp, create, change_update}
use hubsync.Store.{append, tree_lookup, entry_lookup}
use hubsync.Store.Materialized.{IsConsistent}
use hubsync.Push.{
  Hub, no_faults, Now, PushOp, Outcome, accepted, conflict, fail, OpKind, op_create, op_update,
  op_delete, op_unknown, record_change, accept_write, write_content, create_over, stale_update,
  push_create, push_update, push_delete, push_kind, process_push_op, version_for_entry,
}
use hubsync.Push.Version.{version_for_entry-entry_lookup}

abbrev pub IsAccepted : Outcome → Type 0
IsAccepted (accepted v) = Unit
IsAccepted (conflict reason version digest) = ⊥

-- What the client must have known of the row at the path.
abbrev pub Permitted : OpKind → ℕ → Option HubEntry → Type 0
Permitted op_create base none = Unit
Permitted op_create base (some e) = ⊥
Permitted op_update base none = ⊥
Permitted op_update base (some e) = e.version ≡ base
Permitted op_delete base none = Unit
Permitted op_delete base (some e) = e.version ≡ base
Permitted op_unknown base row = ⊥

module _ (sum : Bytes → Digest) (now : Now) (op : PushOp) (hub : Hub) where
  accept_write-accepts :
      (change_op : ChangeOp)
      → IsAccepted (accept_write sum no_faults now op change_op hub).0.outcome
  unfolding accept_write write_content record_change append
  accept_write-accepts change_op = tt

  absent :
      entry_lookup op.path hub.store ≡ none
      → (kind : OpKind)
      → IsAccepted (push_kind sum kind no_faults now op fail hub).0.outcome
        ↔ Permitted kind op.base_version none
  unfolding push_kind push_create push_update push_delete tree_lookup
  absent e op_create = rw (e, push_kind, IsAccepted) ((λ _. tt), λ _. accept_write-accepts create)
  absent e op_update = rw (e, push_kind, IsAccepted) ((λ h. h), λ h. h)
  absent e op_delete = rw (e, push_kind, IsAccepted) ((λ _. tt), λ _. tt)
  absent e op_unknown = ((λ h. h), λ h. h)

  present :
      (row : HubEntry)
      → entry_lookup op.path hub.store ≡ some row
      → version_for_entry (tree_entry row) hub.store ≡ row.version
      → (kind : OpKind)
      → IsAccepted (push_kind sum kind no_faults now op fail hub).0.outcome
        ↔ Permitted kind op.base_version (some row)
  unfolding push_kind push_create create_over push_update stale_update push_delete tree_lookup
      record_change append
  present row e v op_create = rw (e, push_kind, IsAccepted) ((λ h. h), λ h. absurd h)
  present row e v op_update = elim (Bool-cases (row.version == op.base_version)) [
    | inl same ↦
        rw (e, v, same, push_kind, IsAccepted)
          (
            (λ _. (==_iff row.version op.base_version).0 same),
            λ _. accept_write-accepts change_update,
          )
    | inr other ↦
        rw (e, v, other, push_kind, IsAccepted)
          ((λ h. absurd h), λ h. absurd (ground (arith, ==_iff row.version op.base_version)))
  ]
  present row e v op_delete = elim (Bool-cases (row.version == op.base_version)) [
    | inl same ↦
        rw (e, v, same, push_kind, IsAccepted)
          ((λ _. (==_iff row.version op.base_version).0 same), λ _. tt)
    | inr other ↦
        rw (e, v, other, push_kind, IsAccepted)
          ((λ h. absurd h), λ h. absurd (ground (arith, ==_iff row.version op.base_version)))
  ]
  present row e v op_unknown = ((λ h. h), λ h. h)

-- Without faults and under the FAIL policy the hub accepts exactly: a create of a path without a
-- row, an update of a row whose version is the client's base version, a delete of such a row, and a
-- delete of a path without a row. So no accepted operation overwrites or deletes another version
-- than the one that it names.
pub process_push_op-fail :
    (sum : Bytes → Digest) (now : Now) (op : PushOp) (hub : Hub)
    → IsConsistent hub.store
    → IsAccepted (process_push_op sum no_faults now op fail hub).0.outcome
      ↔ Permitted op.op op.base_version (entry_lookup op.path hub.store)
unfolding process_push_op
process_push_op-fail sum now op hub h = elim (Option-cases (entry_lookup op.path hub.store)) [
  | inl e ↦ rw e (absent sum now op hub e op.op)
  | inr (row, e) ↦ rw e (
      present sum now op hub row e (version_for_entry-entry_lookup hub.store op.path row h e) op.op)
]
