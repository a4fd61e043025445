-- ===== src/Store/Rows.antt =====
-- What a change makes of the row of its path, and of the other rows.
use hubsync.Prelude.{
  ℕ, ◌≡◌, refl, arith, true, false, Option, none, some, List, ◌==◌, bytes_eq, ==_iff, ==_refl,
  Option-cases, inl, inr,
}
use hubsync.Prelude.Table.{find, find-upsert, find-remove, key-find}
use hubsync.Model.{
  Digest, FilePath, ChangeEntry, ChangeOp, create, change_update, delete, HubEntry, hub_path,
  state_eq,
}
use hubsync.Store.{write_entry, upsert_entry, inserted, updated, next_archive_state, is_pinned}

-- A pinned row of a digest.
abbrev pub IsPinnedAs : Digest → Option HubEntry → Type 0
IsPinnedAs digest none = ⊥
IsPinnedAs digest (some r) = (r.digest ≡ digest) × (is_pinned r ≡ true)

abbrev pub AfterOp : ChangeOp → Digest → Option HubEntry → Type 0
AfterOp delete digest row = row ≡ none
AfterOp create digest row = IsPinnedAs digest row
AfterOp change_update digest row = IsPinnedAs digest row

-- What a path's change, if any, makes of its row.
abbrev pub Settles : Option ChangeEntry → Option HubEntry → Option HubEntry → Type 0
Settles none before after = after ≡ before
Settles (some c) before after = AfterOp c.op c.digest after

module _ (now version : ℕ) (c : ChangeEntry) where
  upsert_entry-IsPinnedAs :
      (t : List HubEntry)
      → IsPinnedAs c.digest (find hub_path c.path (upsert_entry now version c t))
  unfolding upsert_entry inserted updated next_archive_state is_pinned
  upsert_entry-IsPinnedAs t = elim (Option-cases (find hub_path c.path t)) [
    | inl e ↦ rw (e, upsert_entry) (rw find-upsert (ground (arith, ==_refl c.path)))
    | inr (old, e) ↦
        rw (e, upsert_entry)
          (rw find-upsert (ground (arith, key-find hub_path c.path t e, ==_iff old.path c.path)))
  ]

  upsert_entry_other :
      (k : FilePath) (t : List HubEntry)
      → (c.path == k) ≡ false
      → find hub_path k (upsert_entry now version c t) ≡ find hub_path k t
  unfolding upsert_entry inserted updated
  upsert_entry_other k t other = elim (Option-cases (find hub_path c.path t)) [
    | inl e ↦ rw (e, upsert_entry) (rw find-upsert (ground (arith, other)))
    | inr (old, e) ↦
        rw (e, upsert_entry)
          (rw find-upsert (
            ground
              (arith, other, key-find hub_path c.path t e, ==_iff old.path k, ==_iff c.path k)))
  ]

  pub write_entry-AfterOp :
      (op : ChangeOp) (t : List HubEntry)
      → AfterOp op c.digest (find hub_path c.path (write_entry op now version c t))
  unfolding write_entry
  write_entry-AfterOp create t = upsert_entry-IsPinnedAs t
  write_entry-AfterOp change_update t = upsert_entry-IsPinnedAs t
  write_entry-AfterOp delete t = rw (find-remove, ==_refl c.path) refl

  pub write_entry_other :
      (op : ChangeOp) (k : FilePath) (t : List HubEntry)
      → (c.path == k) ≡ false
      → find hub_path k (write_entry op now version c t) ≡ find hub_path k t
  unfolding write_entry
  write_entry_other create k t other = upsert_entry_other k t other
  write_entry_other change_update k t other = upsert_entry_other k t other
  write_entry_other delete k t other = rw (find-remove, other) refl
