-- ===== src/Event/Replication.antt =====
-- A client that takes in the hub's changes since its version holds the hub's tree.
use hubsync.Prelude.{
  ◌≡◌, ◌≢◌, some_of_ne_none, refl, ap, ◌∙◌, List, [], ◌∷◌, arith, bytes_eq, ℤ, ltb, true, length,
  All, ◌⊎◌, inl, inr, subst, none, some, Bytes,
}
use hubsync.Model.{Digest, FilePath, ChangeOp, create, change_update, delete, ChangeEntry}
use hubsync.Disk.{Disk}
use hubsync.Store.{HubStore}
use hubsync.Store.Log.{replay, replay_one, SameRows, up_to}
use hubsync.ClientStore.{ClientStore, apply_change}
use hubsync.Event.{
  Payload, changed, deleted, FileChange, SyncEvent, Remote, Replica, write_event, change_of,
  payload_of, written, content_of, full_content, delta_content, large_content, apply_payload,
  apply_event, apply_events,
}

-- The events carry the changes, each with the content that the hub's files gave at its time.
abbrev pub Carries : List ChangeEntry → List SyncEvent → Type 0
Carries [] [] = Unit
Carries [] (ev ∷ evs) = ⊥
Carries (c ∷ log) [] = ⊥
Carries (c ∷ log) (ev ∷ evs) = (disk : Disk) × (ev ≡ write_event disk c) × Carries log evs

-- `s` is the client of a hub at version `v`: its tree is that of the log up to `v`.
abbrev pub InStep : HubStore → ClientStore → Type 0
InStep hub s = SameRows s.hub_tree (replay [] (up_to s.hub_version hub.change_log))

-- The content is inlined, or the hub still has it.
abbrev pub CanFetch : Remote → Payload → Type 0
CanFetch remote (changed c) =
    (ltb 0 (length c.inlined) ≡ true) ⊎ ((bytes : Bytes) × (remote.blob c.digest ≡ some bytes))
CanFetch remote deleted = Unit

-- The hub still has the content of these events.
abbrev pub Serves : Remote → List SyncEvent → Type 0
Serves remote evs = All (λ ev. CanFetch remote ev.payload) evs

module _ (sum sha256 : Bytes → Bytes) (remote : Remote) where
  delta_content_total :
      (digest : Digest) (path : FilePath) (disk : Disk) (bytes : Bytes)
      → remote.blob digest ≡ some bytes
      → delta_content sum sha256 remote digest path disk ≢ none
  unfolding delta_content full_content
  delta_content_total digest path disk bytes has = ground (arith, has)

  large_content_total :
      (digest : Digest) (path : FilePath) (r : Replica) (bytes : Bytes)
      → remote.blob digest ≡ some bytes
      → large_content sum sha256 remote digest path r ≢ none
  unfolding large_content
  large_content_total digest path r bytes has =
      ground (arith, delta_content_total digest path r.disk bytes has)

  content_total :
      (path : FilePath) (change : FileChange) (r : Replica)
      → CanFetch remote (changed change)
      → content_of sum sha256 remote path change r ≢ none
  unfolding content_of
  content_total path change r (inl small) = ground (arith, small)
  content_total path change r (inr (bytes, has)) =
      ground (arith, large_content_total change.digest path r bytes has)

  written_total :
      (now : ℤ) (path : FilePath) (change : FileChange) (r : Replica)
      → CanFetch remote (changed change)
      → (disk : Disk) × (written sum sha256 remote now path change r ≡ some disk)
  unfolding written
  written_total now path change r can =
      let (bytes, e) = some_of_ne_none _ (content_total path change r can) in
      some_of_ne_none _ (ground (arith, e))

  apply_payload_tree :
      (now : ℤ) (disk : Disk) (op : ChangeOp) (c : ChangeEntry) (r : Replica)
      → CanFetch remote (payload_of disk op c)
      → (r' : Replica) × (apply_payload sum sha256 remote now c.version c.path
            (payload_of disk op c)
            r
          ≡ some r')
        × (r'.store.hub_tree ≡ replay_one r.store.hub_tree op c)
  unfolding apply_payload payload_of replay_one apply_change
  apply_payload_tree now disk create c r can =
      let (d, e) = written_total now c.path (change_of disk c) r can in
      rw (e, apply_payload) (_, refl, refl)
  apply_payload_tree now disk change_update c r can =
      let (d, e) = written_total now c.path (change_of disk c) r can in
      rw (e, apply_payload) (_, refl, refl)
  apply_payload_tree now disk delete c r can = (_, refl, refl)

  apply_events-cons :
      (now : ℤ) (ev : SyncEvent) (evs : List SyncEvent) (r r' : Replica)
      → apply_event sum sha256 remote now ev r ≡ some r'
      → apply_events sum sha256 remote now (ev ∷ evs) r ≡ apply_events sum sha256 remote now evs r'
  unfolding apply_events
  apply_events-cons now ev evs r r' e = rw (e, apply_events) refl

  pub apply_events_tree :
      (now : ℤ) (log : List ChangeEntry) (evs : List SyncEvent) (r : Replica)
      → Carries log evs
      → Serves remote evs
      → (r' : Replica) × (apply_events sum sha256 remote now evs r ≡ some r')
        × (r'.store.hub_tree ≡ replay r.store.hub_tree log)
  unfolding apply_events replay write_event
  apply_events_tree now [] [] r carries serves = (r, refl, refl)
  apply_events_tree now [] (ev ∷ evs) r carries serves = absurd carries
  apply_events_tree now (c ∷ log) [] r carries serves = absurd carries
  apply_events_tree now (c ∷ log) (ev ∷ evs) r (disk, same, carries) (can, serves) =
      let can' : CanFetch remote (payload_of disk c.op c) =
        subst (λ e. CanFetch remote e.payload) same can in
      let (r', done, row) = apply_payload_tree now disk c.op c r can' in
      let (r'', rest, tree) = apply_events_tree now log evs r' carries serves in
      (
        r'',
        apply_events-cons now ev evs r r' (
              ap (λ e. apply_event sum sha256 remote now e r) same
              ∙ (unfold apply_event write_event in done))
            ∙ rest,
        tree ∙ ap (λ t. replay t log) row,
      )
