-- ===== src/Store/Materialized.antt =====
-- `hub_entry` is the materialised tree of `change_log`.
use mathlib.Core.Option
use hubsync.Prelude.{
  ℕ, ◌+◌, ◌≡◌, refl, sym, ap, ◌∙◌, Bool, true, false, List, [], ◌∷◌, arith, if◌then◌else◌, ◌==◌,
  bytes_eq, some, Option, Option-cases, inl, inr,
}
use hubsync.Prelude.Table.{
  find, NodupKeys, find-upsert, find-remove, key-find, upsert-NodupKeys, remove-NodupKeys,
}
use hubsync.Model.{
  FilePath, ChangeOp, create, change_update, delete, ChangeEntry, HubTreeEntry, HubEntry,
  tree_entry, hub_path, hub_tree_path,
}
use hubsync.Store.{HubStore, empty_store, upsert_entry, write_entry, append}
use hubsync.Store.Log.{
  Increasing, Increasing-snoc, row_of, replay, replay-append, effect, find-replay_one,
}

-- The columns of the scanner, with the version.
abbrev pub versioned : HubEntry → HubTreeEntry
versioned e = record { entry = tree_entry e; version = e.version }

abbrev pub row_at : FilePath → List HubEntry → Option HubTreeEntry
row_at k t = Option.map versioned (find hub_path k t)

pub record IsConsistent (s : HubStore) : Type 0 where
  pub increasing : Increasing 0 s.change_log s.last_version
  pub distinct : NodupKeys hub_path s.hub_entry
  pub materialized :
      (k : FilePath) → row_at k s.hub_entry ≡ find hub_tree_path k (replay [] s.change_log)

pub empty_store-IsConsistent : IsConsistent empty_store
unfolding replay find
empty_store-IsConsistent = record {
  increasing = omega arith;
  distinct = tt;
  materialized = λ k. refl;
}

module _ (now version : ℕ) (c : ChangeEntry) where
  row_at-upsert_entry :
      (k : FilePath) (t : List HubEntry)
      → row_at k (upsert_entry now version c t)
        ≡ (if c.path == k then some (row_of (record c { version = version })) else row_at k t)
  unfolding upsert_entry
  row_at-upsert_entry k t = elim (Option-cases (find hub_path c.path t)) [
    | inl e ↦ rw (e, upsert_entry) (rw find-upsert (ground arith))
    | inr (old, e) ↦
        rw (e, upsert_entry) (rw find-upsert (ground (arith, key-find hub_path c.path t e)))
  ]

  pub row_at-write_entry :
      (k : FilePath) (op : ChangeOp) (t : List HubEntry)
      → row_at k (write_entry op now version c t)
        ≡ effect k op (record c { version = version }) (row_at k t)
  unfolding write_entry effect
  row_at-write_entry k create t = row_at-upsert_entry k t
  row_at-write_entry k change_update t = row_at-upsert_entry k t
  row_at-write_entry k delete t = rw find-remove (ground arith)

  upsert_entry-NodupKeys :
      (t : List HubEntry) → NodupKeys hub_path t → NodupKeys hub_path (upsert_entry now version c t)
  unfolding upsert_entry
  upsert_entry-NodupKeys t h = elim (Option-cases (find hub_path c.path t)) [
    | inl e ↦ rw (e, upsert_entry) (upsert-NodupKeys hub_path _ t h)
    | inr (old, e) ↦ rw (e, upsert_entry) (upsert-NodupKeys hub_path _ t h)
  ]

  write_entry-NodupKeys :
      (op : ChangeOp) (t : List HubEntry)
      → NodupKeys hub_path t
      → NodupKeys hub_path (write_entry op now version c t)
  unfolding write_entry
  write_entry-NodupKeys create t h = upsert_entry-NodupKeys t h
  write_entry-NodupKeys change_update t h = upsert_entry-NodupKeys t h
  write_entry-NodupKeys delete t h = remove-NodupKeys hub_path c.path t h

-- Every `Append`, failing or not, keeps the versions rising, the paths distinct, and the rows of
-- `hub_entry` equal to the replay of the log.
pub append-IsConsistent :
    (fault : Bool) (now : ℕ) (c : ChangeEntry) (s : HubStore)
    → IsConsistent s
    → IsConsistent (append fault now c s).1
unfolding append
append-IsConsistent true now c s h = h
append-IsConsistent false now c s h =
    let version = s.last_version + 1 in
    let c' : ChangeEntry = record c { version = version } in
    record {
      increasing = Increasing-snoc 0 s.change_log s.last_version c' h.increasing refl;
      distinct = write_entry-NodupKeys now version c c.op s.hub_entry h.distinct;
      materialized = λ k.
          row_at-write_entry now version c k c.op s.hub_entry
          ∙ ap (effect k c.op c') (h.materialized k)
          ∙ sym (find-replay_one k (replay [] s.change_log) c.op c')
          ∙ sym (
              ap (find hub_tree_path k)
                (replay-append [] s.change_log (c' ∷ []) ∙ (unfold replay in refl)));
    }
