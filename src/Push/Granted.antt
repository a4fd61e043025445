-- ===== src/Push/Granted.antt =====
-- A push of operations that the hub permits.
use hubsync.Prelude.{
  ℕ, ◌+◌, ◌≡◌, refl, sym, ap, ap₂, ◌∙◌, subst, arith, ◌==◌, nat_eq, bytes_eq, Bool-cases,
  Option-cases, inl, inr, none, some, ==_iff, ==_refl, Bytes, List, [], ◌∷◌, map, false, true, In,
  if◌then◌else◌,
}
use hubsync.Prelude.Table.{find, NodupKeys}
use hubsync.Model.{
  Digest, FilePath, HubEntry, tree_entry, ChangeOp, ChangeEntry, create, change_update,
}
use hubsync.Disk.{Disk, write_file, remove_file}
use hubsync.Store.{append, tree_lookup, entry_lookup}
use hubsync.Store.Rows.{write_entry_other}
use hubsync.Store.Materialized.{IsConsistent}
use hubsync.Push.{
  Hub, no_faults, Now, PushOp, op_path, PushResult, accepted, fail, OpKind, op_create, op_update,
  op_delete, op_unknown, record_change, accept_write, write_content, written_change, deleted_change,
  push_create, push_update, push_delete, push_kind, process_push_op, process_ops, version_for_entry,
}
use hubsync.Push.Version.{version_for_entry-entry_lookup}
use hubsync.Push.Outcomes.{process_push_op-Fair}
use hubsync.Push.Safety.{Grows-Published}
use hubsync.Push.Permission.{Permitted}

-- The operation is accepted under some version, and leaves the rows of the other paths.
abbrev Granted : PushOp → Hub → PushResult × Hub → Type 0
Granted op hub (result, hub') =
    (version : ℕ) × (result ≡ record { path = op.path; outcome = accepted version })
    × ((k : FilePath)
        → (op.path == k) ≡ false
        → entry_lookup k hub'.store ≡ entry_lookup k hub.store)

module _ (sum : Bytes → Digest) (now : Now) (op : PushOp) (hub : Hub) where
  record_change-Granted :
      (c : ChangeEntry) (disk : Disk)
      → c.path ≡ op.path
      → Granted op hub (record_change no_faults now c (record hub { disk = disk }))
  unfolding record_change append entry_lookup
  record_change-Granted c disk same =
      let version = hub.store.last_version + 1 in
      (
        version,
        ap (λ p. record { path = p; outcome = accepted version }) same,
        λ k other.
            write_entry_other now.seconds version c c.op k hub.store.hub_entry
              (ap (λ p. p == k) same ∙ other),
      )

  accept_write-Granted :
      (change_op : ChangeOp) → Granted op hub (accept_write sum no_faults now op change_op hub)
  unfolding accept_write write_content
  accept_write-Granted change_op =
      record_change-Granted (written_change sum now op change_op)
        (write_file now.mtime op.path op.content 0o644 hub.disk) refl

  absent-Granted :
      entry_lookup op.path hub.store ≡ none
      → (kind : OpKind) → Permitted kind op.base_version none
      → Granted op hub (push_kind sum kind no_faults now op fail hub)
  unfolding push_kind push_create push_update push_delete tree_lookup
  absent-Granted e op_create p =
      rw (e, push_kind, push_create, tree_lookup) (accept_write-Granted create)
  absent-Granted e op_update p = absurd p
  absent-Granted e op_delete p =
      rw (e, push_kind, push_delete, tree_lookup) (0, refl, λ k other. refl)
  absent-Granted e op_unknown p = absurd p

  present-Granted :
      (row : HubEntry)
      → entry_lookup op.path hub.store ≡ some row
      → version_for_entry (tree_entry row) hub.store ≡ row.version
      → (kind : OpKind) → Permitted kind op.base_version (some row)
      → Granted op hub (push_kind sum kind no_faults now op fail hub)
  unfolding push_kind push_create push_update push_delete tree_lookup
  present-Granted row e v op_create p = absurd p
  present-Granted row e v op_update p =
      let same : (row.version == op.base_version) ≡ true =
        (==_iff row.version op.base_version).1 p in
      rw (e, v, same, push_kind, push_update, tree_lookup) (accept_write-Granted change_update)
  present-Granted row e v op_delete p =
      let same : (row.version == op.base_version) ≡ true =
        (==_iff row.version op.base_version).1 p in
      rw (e, v, same, push_kind, push_delete, tree_lookup)
        (record_change-Granted (deleted_change sum now op) (remove_file op.path hub.disk) refl)
  present-Granted row e v op_unknown p = absurd p

  process_push_op-Granted :
      IsConsistent hub.store
      → Permitted op.op op.base_version (entry_lookup op.path hub.store)
      → Granted op hub (process_push_op sum no_faults now op fail hub)
  unfolding process_push_op
  process_push_op-Granted h p = elim (Option-cases (entry_lookup op.path hub.store)) [
    | inl e ↦ absent-Granted e op.op (rw e at p)
    | inr (row, e) ↦
        present-Granted row e (version_for_entry-entry_lookup hub.store op.path row h e) op.op
          (rw e at p)
  ]

-- The hub permits each of the operations, as its rows are before the first.
abbrev pub AllPermitted : Hub → List PushOp → Type 0
AllPermitted hub ops =
    (op : PushOp) → In op ops → Permitted op.op op.base_version (entry_lookup op.path hub.store)

-- The hub's answer that accepts everything, each path with a version.
abbrev pub accepted_as : (FilePath → ℕ) → PushOp → PushResult
accepted_as version op = record { path = op.path; outcome = accepted (version op.path) }

-- A version for one more path.
abbrev with_version : FilePath → ℕ → (FilePath → ℕ) → FilePath → ℕ
with_version path v version k = if path == k then v else version k

accepted_as-with_version :
    (path : FilePath) (v : ℕ) (version : FilePath → ℕ) (ops : List PushOp)
    → find op_path path ops ≡ none
    → map (accepted_as (with_version path v version)) ops ≡ map (accepted_as version) ops
unfolding find
accepted_as-with_version path v version [] h = refl
accepted_as-with_version path v version (op ∷ ops) h = elim (Bool-cases (op.path == path)) [
  | inl here ↦ absurd (ground (arith, h, here))
  | inr apart ↦
      let other : (path == op.path) ≡ false =
        ground
          (arith, apart, ==_iff op.path path, ==_iff path op.path, λ (e : path ≡ op.path). sym e) in
      ap₂ (λ n rest. record { path = op.path; outcome = accepted n } ∷ rest) (rw other refl)
        (accepted_as-with_version path v version ops (rw (apart, find) at h))
]

op_path-In :
    (path : FilePath) (op : PushOp) (ops : List PushOp)
    → find op_path path ops ≡ none
    → In op ops
    → (path == op.path) ≡ false
unfolding find
op_path-In path op (o ∷ ops) h (inl e) =
    ground (arith, h, e, ==_iff o.path path, ==_iff path op.path, ap op_path e)
op_path-In path op (o ∷ ops) h (inr i) = op_path-In path op ops (ground (arith, h)) i
op_path-In path op [] h i = absurd i

-- Operations on different paths do not stand in each other's way: without faults, all are accepted.
pub process_ops-accepted :
    (sum : Bytes → Digest) (now : ℕ → Now) (ops : List PushOp) (hub : Hub)
    → IsConsistent hub.store
    → NodupKeys op_path ops
    → AllPermitted hub ops
    → (version : FilePath → ℕ) × ((process_ops sum (λ i. (no_faults, now i)) fail ops hub).0
        ≡ map (accepted_as version) ops)
unfolding process_ops
process_ops-accepted sum now [] hub h u permitted = ((λ k. 0), refl)
process_ops-accepted sum now (op ∷ ops) hub h u permitted =
    let (v, answer, others) =
      process_push_op-Granted sum (now 0) op hub h (permitted op (inl refl)) in
    let hub' = (process_push_op sum no_faults (now 0) op fail hub).1 in
    let h' =
      (Grows-Published hub hub' h (process_push_op-Fair no_faults (now 0) sum op fail hub).0).0 in
    let permitted' : AllPermitted hub' ops = λ o i.
      subst (Permitted o.op o.base_version) (sym (others o.path (op_path-In op.path o ops u.0 i)))
        (permitted o (inr i)) in
    let (version, rest) = process_ops-accepted sum (λ i. now (i + 1)) ops hub' h' u.1 permitted' in
    (
      with_version op.path v version,
      ap₂ (λ r rs. r ∷ rs)
          (answer
            ∙ ap (λ n. record { path = op.path; outcome = accepted n }) (rw (==_refl op.path) refl))
          (rest ∙ sym (accepted_as-with_version op.path v version ops u.0)),
    )
