-- ===== src/Push/Outcomes.antt =====
-- What a push does to the hub's database and its broadcasts, operation by operation.
use hubsync.Prelude.{
  ℕ, ◌+◌, ◌≡◌, refl, [], ◌∷◌, ◌++◌, arith, if◌then◌else◌, ◌==◌, nat_eq, bytes_eq, Bool-cases,
  Option-cases, inl, inr, ◌⊎◌, true, false, not, ◌&&◌, Bytes, Bool,
}
use hubsync.Model.{Digest, FilePath, ChangeOp, create, change_update, ChangeEntry, TreeEntry}
use hubsync.Disk.{Disk}
use hubsync.Store.{HubStore, append, tree_lookup}
use hubsync.Push.{
  Hub, Faults, Now, PushOp, PushResult, Outcome, accepted, conflict, ConflictPolicy, fail,
  client_wins, hub_wins, OpKind, op_create, op_update, op_delete, op_unknown, record_change,
  accept_write, create_over, stale_update, push_create, push_update, push_delete, push_kind,
  process_push_op, version_for_entry, is_fail, refuse, Reason, unknown_op, file_exists, not_found,
  hub_wins_conflict, version_conflict, delete_conflict, mkdir_failed, write_failed, WriteEnd,
  complete, not_opened, cut_after, write_content,
}

-- A change with the version that the log of `s` gives it.
abbrev pub stamped : ChangeEntry → HubStore → ChangeEntry
stamped c s = record c { version = s.last_version + 1 }

-- Nothing recorded, or one change recorded and broadcast.
abbrev pub Grows : Hub → Hub → Type 0
Grows hub hub' =
    (hub'.store ≡ hub.store) × (hub'.sent ≡ hub.sent)
    ⊎ (c : ChangeEntry) × (now : ℕ) × (hub'.store ≡ (append false now c hub.store).1)
      × (hub'.sent ≡ hub.sent ++ stamped c hub.store ∷ [])

abbrev pub IsConflict : Outcome → Type 0
IsConflict (accepted v) = ⊥
IsConflict (conflict reason version digest) = Unit

-- What holds of an operation's result and the hub after it.
abbrev pub Fair : Faults → Hub → PushResult × Hub → Type 0
Fair faults hub (result, hub') =
    Grows hub hub'
    × (IsConflict result.outcome → (hub'.store ≡ hub.store) × (hub'.sent ≡ hub.sent))
    × (faults.store ≡ false
        → faults.write ≡ complete
        → IsConflict result.outcome
        → hub'.disk ≡ hub.disk)

refuse-Fair :
    (faults : Faults) (hub : Hub) (path : FilePath) (reason : Reason) (version : ℕ)
    (digest : Digest)
    → Fair faults hub (refuse path reason version digest hub)
refuse-Fair faults hub path reason version digest =
    (inl (refl, refl), (λ _. (refl, refl)), λ _ _ _. refl)

Fair-if :
    (faults : Faults) (hub : Hub) (test : Bool) (x y : PushResult × Hub)
    → Fair faults hub x
    → Fair faults hub y
    → Fair faults hub (if test then x else y)
Fair-if faults hub true x y p q = p
Fair-if faults hub false x y p q = q

module _ (faults : Faults) (now : Now) where
  record_change-Fair :
      (c : ChangeEntry) (disk : Disk) (hub : Hub)
      → Fair faults hub (record_change faults now c (record hub { disk = disk }))
  unfolding record_change append
  record_change-Fair c disk hub = elim (Bool-cases faults.store) [
    | inl broken ↦
        rw (broken, append) (inl (refl, refl), (λ _. (refl, refl)), λ h _. absurd (ground arith))
    | inr works ↦
        rw (works, append) (inr (c, now.seconds, refl, refl), (λ h. absurd h), λ _ _ h. absurd h)
  ]

  module _ (sum : Bytes → Digest) (op : PushOp) where
    accept_write-Fair :
        (change_op : ChangeOp) (hub : Hub)
        → Fair faults hub (accept_write sum faults now op change_op hub)
    unfolding accept_write write_content
    accept_write-Fair change_op hub =
        Fair-if faults hub faults.mkdir _ _ (refuse-Fair faults hub op.path mkdir_failed 0 [])
          (by_end faults.write refl)
      where
        by_end :
            (ending : WriteEnd)
            → faults.write ≡ ending
            → Fair faults hub (write_content sum ending faults now op change_op hub)
        by_end not_opened e = refuse-Fair faults hub op.path write_failed 0 []
        by_end (cut_after n) e = (inl (refl, refl), (λ _. (refl, refl)), λ _ w. absurd (cc))
        by_end complete e = record_change-Fair _ _ hub

    push_create-Fair :
        (policy : ConflictPolicy) (hub : Hub)
        → Fair faults hub (push_create sum faults now op policy hub)
    unfolding push_create create_over
    push_create-Fair policy hub = elim (Option-cases (tree_lookup op.path hub.store)) [
      | inl e ↦ rw (e, push_create) (accept_write-Fair create hub)
      | inr (existing, e) ↦ rw (e, push_create) (over existing policy)
    ]
      where
        over :
            (existing : TreeEntry) (policy : ConflictPolicy)
            → Fair faults hub (create_over sum faults now op policy existing hub)
        over existing fail =
            refuse-Fair faults hub op.path file_exists (version_for_entry existing hub.store)
              existing.digest
        over existing hub_wins =
            refuse-Fair faults hub op.path file_exists (version_for_entry existing hub.store)
              existing.digest
        over existing client_wins = accept_write-Fair change_update hub

    push_update-Fair :
        (policy : ConflictPolicy) (hub : Hub)
        → Fair faults hub (push_update sum faults now op policy hub)
    unfolding push_update stale_update
    push_update-Fair policy hub = elim (Option-cases (tree_lookup op.path hub.store)) [
      | inl e ↦ rw (e, push_update) (refuse-Fair faults hub op.path not_found 0 [])
      | inr (existing, e) ↦
          elim (Bool-cases (version_for_entry existing hub.store == op.base_version)) [
            | inl current ↦ rw (e, current, push_update) (accept_write-Fair change_update hub)
            | inr stale ↦ rw (e, stale, push_update) (over existing policy)
          ]
    ]
      where
        over :
            (existing : TreeEntry) (policy : ConflictPolicy)
            → Fair faults hub (stale_update sum faults now op policy existing hub)
        over existing fail =
            refuse-Fair faults hub op.path version_conflict (version_for_entry existing hub.store)
              existing.digest
        over existing hub_wins =
            refuse-Fair faults hub op.path hub_wins_conflict (version_for_entry existing hub.store)
              existing.digest
        over existing client_wins = accept_write-Fair change_update hub

    push_delete-Fair :
        (policy : ConflictPolicy) (hub : Hub)
        → Fair faults hub (push_delete sum faults now op policy hub)
    unfolding push_delete
    push_delete-Fair policy hub = elim (Option-cases (tree_lookup op.path hub.store)) [
      | inl e ↦ rw (e, push_delete) (inl (refl, refl), (λ _. (refl, refl)), λ _ _ _. refl)
      | inr (existing, e) ↦
          elim (Bool-cases
            (not (version_for_entry existing hub.store == op.base_version) && is_fail sum policy)) [
              | inl refused ↦
                  rw (e, refused, push_delete)
                    (refuse-Fair faults hub op.path delete_conflict
                      (version_for_entry existing hub.store) existing.digest)
              | inr allowed ↦ rw (e, allowed, push_delete) (record_change-Fair _ _ hub)
            ]
    ]

    -- Each operation of a push, under each policy and with any fault, records and broadcasts either
    -- nothing, or one change, under the version that the log gives it. Where it answers with a
    -- conflict it records and broadcasts nothing, and neither the database nor the write of the file fails it
    -- also leaves the hub's files alone.
    pub process_push_op-Fair :
        (policy : ConflictPolicy) (hub : Hub)
        → Fair faults hub (process_push_op sum faults now op policy hub)
    unfolding process_push_op push_kind
    process_push_op-Fair policy hub = by_kind op.op
      where
        by_kind : (kind : OpKind) → Fair faults hub (push_kind sum kind faults now op policy hub)
        by_kind op_create = push_create-Fair policy hub
        by_kind op_update = push_update-Fair policy hub
        by_kind op_delete = push_delete-Fair policy hub
        by_kind op_unknown = refuse-Fair faults hub op.path unknown_op 0 []
