-- ===== src/Store/Digests.antt =====
-- `PathByDigest`: the path it gives for the digest of a row.
use hubsync.Prelude.{
  ◌≡◌, refl, ◌∙◌, arith, inl, inr, true, Bool-cases, some, List, [], ◌∷◌, ==_iff, ==_refl, bytes_eq,
  ◌==◌, length, ◌<◌, ◌&&◌,
}
use hubsync.Prelude.Table.{find, NodupKeys, find_tail}
use hubsync.Model.{Digest, FilePath, is_file, HubEntry, hub_path}
use hubsync.Store.{HubStore, first_file_with, path_by_digest, entry_lookup}

path_by_digest_set :
    (digest : Digest) (s : HubStore)
    → 0 < length digest
    → path_by_digest digest s ≡ first_file_with digest s.hub_entry
unfolding path_by_digest
path_by_digest_set [] s h = absurd (omega (arith, h))
path_by_digest_set (b ∷ digest) s h = refl

-- The digest of the row of some file is found at a file with that digest.
first_file_with-find :
    (digest : Digest) (k : FilePath) (e : HubEntry) (rows : List HubEntry)
    → NodupKeys hub_path rows
    → find hub_path k rows ≡ some e
    → is_file e.kind ≡ true
    → e.digest ≡ digest
    → (row : HubEntry) × (first_file_with digest rows ≡ some row.path)
      × (find hub_path row.path rows ≡ some row)
      × (is_file row.kind ≡ true)
      × (row.digest ≡ digest)
unfolding find first_file_with
first_file_with-find digest k e [] u at kind same = absurd (ground (arith, at))
first_file_with-find digest k e (r ∷ rows) u at kind same =
    elim (Bool-cases (r.digest == digest && is_file r.kind)) [
      | inl here ↦ (
        r,
        rw here refl,
        rw (==_refl r.path) refl,
        ground (arith, here),
        ground (arith, here, ==_iff r.digest digest),
      )
      | inr apart ↦
          let later : find hub_path k rows ≡ some e =
            ground (arith, at, apart, kind, same, ==_iff r.digest digest) in
          let (row, first, found, kind', right) =
            first_file_with-find digest k e rows u.1 later kind same in
          (row, rw apart first, find_tail hub_path r rows row.path u.0 found, kind', right)
    ]

pub path_by_digest-entry_lookup :
    (k : FilePath) (e : HubEntry) (s : HubStore)
    → NodupKeys hub_path s.hub_entry
    → entry_lookup k s ≡ some e
    → is_file e.kind ≡ true
    → 0 < length e.digest
    → (row : HubEntry) × (path_by_digest e.digest s ≡ some row.path)
      × (entry_lookup row.path s ≡ some row)
      × (is_file row.kind ≡ true)
      × (row.digest ≡ e.digest)
unfolding path_by_digest entry_lookup
path_by_digest-entry_lookup k e s u at kind some' =
    let (row, first, rest, kind', right) =
      first_file_with-find e.digest k e s.hub_entry u at kind refl in
    (row, path_by_digest_set e.digest s some' ∙ first, rest, kind', right)
