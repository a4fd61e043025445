-- ===== src/Rpc/LocalLs.antt =====
-- What `LocalLs` of rpc.go shows, whatever SQLite's LIKE matches beyond the prefix.
use hubsync.Prelude.{
  ◌≡◌, refl, ◌∙◌, arith, inl, inr, Bool, true, ◌||◌, Bool-cases, Option-cases, List, [], ◌∷◌, Bytes,
  codes, has_prefix, trim_suffix, select, if◌then◌else◌, ◌==◌, bytes_eq, find-sort_by,
}
use hubsync.Prelude.Table.{find, NodupKeys, find-select, select-NodupKeys, key-find}
use hubsync.Model.{FilePath, HubEntry, hub_path}
use hubsync.Store.{HubStore}
use hubsync.Rpc.{place_of, delimited_entries, entries_by_prefix, LsRequest, local_ls}
use hubsync.Rpc.Listed.{is_as_is, has_row_below, shown_at, find-delimited_entries}

module _ (p : HubEntry → Bool) (prefix : Bytes)
    (kept : (e : HubEntry) → has_prefix e.path prefix ≡ true → p e ≡ true) where
  has_row_below-select :
      (k : FilePath) (rows : List HubEntry)
      → has_row_below prefix k (select p rows) ≡ has_row_below prefix k rows
  unfolding has_row_below place_of
  has_row_below-select k [] = refl
  has_row_below-select k (e ∷ rows) = ground (arith, has_row_below-select k rows, kept e)

  is_as_is-has_prefix :
      (k : FilePath) → is_as_is (place_of prefix k) ≡ true → has_prefix k prefix ≡ true
  unfolding place_of
  is_as_is-has_prefix k h = ground (arith, h)

  shown_at-select :
      (k : FilePath) (rows : List HubEntry)
      → NodupKeys hub_path rows
      → shown_at prefix (select p rows) k ≡ shown_at prefix rows k
  shown_at-select k rows h = elim (Bool-cases (is_as_is (place_of prefix k))) [
    | inr other ↦ rw (other, has_row_below-select k rows) refl
    | inl shown ↦ elim (Option-cases (find hub_path k rows)) [
      | inl absent ↦ ground (arith, shown, absent, find-select hub_path k p rows h)
      | inr (e, at) ↦
          let same : e.path ≡ k = key-find hub_path k rows at in
          let inside : has_prefix e.path prefix ≡ true = rw same (is_as_is-has_prefix k shown) in
          ground (arith, shown, at, find-select hub_path k p rows h, kept e inside)
    ]
  ]

find-level :
    (like : Bytes → FilePath → Bool) (prefix : Bytes) (store : HubStore) (k : FilePath)
    → ((path : FilePath) → has_prefix path prefix ≡ true → like prefix path ≡ true)
    → NodupKeys hub_path store.hub_entry
    → find hub_path k (delimited_entries (entries_by_prefix like prefix store) prefix)
      ≡ shown_at prefix store.hub_entry k
unfolding entries_by_prefix
find-level like [] store k covers h = find-delimited_entries [] store.hub_entry k h
find-level like (c ∷ prefix) store k covers h =
    let p : HubEntry → Bool =
      λ e. e.path == trim_suffix (c ∷ prefix) (codes "/") || like (c ∷ prefix) e.path in
    let kept : (e : HubEntry) → has_prefix e.path (c ∷ prefix) ≡ true → p e ≡ true =
      λ e inside. ground (arith, covers e.path inside) in
    find-delimited_entries (c ∷ prefix) (select p store.hub_entry) k
      (select-NodupKeys hub_path p store.hub_entry h)
    ∙ shown_at-select p (c ∷ prefix) kept k store.hub_entry h

-- Let LIKE match every path that begins with the prefix, and what else it may. In the listing of a hub
-- with one row for each path, whatever the request: for all, every path holds its row; below a prefix
-- (the empty one too), a path that begins with the prefix and has more, no `/` in it, holds its row; a
-- path that some row extends up to and with the first `/` behind the prefix holds a directory made for
-- it; no other path is listed.
pub find-local_ls :
    (like : Bytes → FilePath → Bool) (req : LsRequest) (store : HubStore) (k : FilePath)
    → ((path : FilePath) → has_prefix path req.prefix ≡ true → like req.prefix path ≡ true)
    → NodupKeys hub_path store.hub_entry
    → find hub_path k (local_ls like req store)
      ≡ (if req.all then find hub_path k store.hub_entry else shown_at req.prefix store.hub_entry k)
unfolding local_ls
find-local_ls like req store k covers h = elim (Bool-cases req.all) [
  | inl everything ↦ rw everything (find-sort_by hub_path k store.hub_entry h)
  | inr level ↦ rw level (find-level like req.prefix store k covers h)
]
