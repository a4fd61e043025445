-- ===== src/Event/Files.antt =====
-- What the files of a client hold after a write, and the look-up of a file by its digest.
use hubsync.Prelude.{
  ℕ, ◌≡◌, refl, ap, List, [], ◌∷◌, arith, if◌then◌else◌, ◌==◌, bytes_eq, ℤ, not, ◌&&◌, Bool-cases,
  Option-cases, inl, inr, Option, none, some, Bytes, ==_iff,
}
use hubsync.Prelude.Table.{find, NodupKeys, find-upsert, key-find}
use hubsync.Model.{Digest, FilePath, HubTreeEntry, hub_tree_path}
use hubsync.Disk.{Disk, disk_path, stat, write_file, set_mtime}
use hubsync.ClientStore.{ClientStore, lookup_by_digest, other_path_with}

-- The bytes of the file at `k` after a write, if there is one.
abbrev pub bytes_at : FilePath → Disk → Option Bytes
bytes_at k disk = elim (stat k disk) [ none ↦ none | some f ↦ some f.bytes ]

pub bytes_at-write_file :
    (now : ℤ) (path k : FilePath) (bytes : Bytes) (mode : ℕ) (disk : Disk)
    → bytes_at k (write_file now path bytes mode disk)
      ≡ (if path == k then some bytes else bytes_at k disk)
unfolding write_file
bytes_at-write_file now path k bytes mode disk = elim (Option-cases (stat path disk)) [
  | inl e ↦
      rw (e, write_file)
        (ground (
          arith,
          find-upsert disk_path k (record { path = path; bytes = bytes; mode = mode; mtime = now })
              disk,
        ))
  | inr (old, e) ↦
      rw (e, write_file)
        (ground (
          arith,
          find-upsert disk_path k (record old { path = path; bytes = bytes; mtime = now }) disk,
        ))
]

pub bytes_at-set_mtime :
    (mtime : ℤ) (path k : FilePath) (disk : Disk)
    → bytes_at k (set_mtime mtime path disk) ≡ bytes_at k disk
unfolding set_mtime
bytes_at-set_mtime mtime path k disk = elim (Option-cases (stat path disk)) [
  | inl e ↦ rw (e, set_mtime) refl
  | inr (old, e) ↦
      rw (e, set_mtime)
        (ground (
          arith,
          find-upsert disk_path k (record old { mtime = mtime }) disk,
          key-find disk_path path disk e,
          ==_iff path k,
          ==_iff old.path k,
          e,
          ap (λ j. stat j disk) (key-find disk_path path disk e),
        ))
]

-- A path that is found by a digest has a row of that digest.
pub other_path_with-find :
    (digest : Digest) (exclude p : FilePath) (t : List HubTreeEntry)
    → NodupKeys hub_tree_path t
    → other_path_with digest exclude t ≡ some p
    → (e : HubTreeEntry) × (find hub_tree_path p t ≡ some e) × (e.digest ≡ digest)
unfolding other_path_with find
other_path_with-find digest exclude p [] u h = absurd (ground arith)
other_path_with-find digest exclude p (r ∷ t) u h =
    elim (Bool-cases (r.digest == digest && not (r.path == exclude))) [
      | inl found ↦ (r, ground (arith, ==_iff r.path p), ground (arith, ==_iff r.digest digest))
      | inr other ↦
          let (e, at, same) = other_path_with-find digest exclude p t u.1 (ground arith) in
          (
            e,
            elim (Bool-cases (r.path == p)) [
              | inl clash ↦ absurd (
                  ground
                    (arith, at, u.0, ap (λ j. find hub_tree_path j t) ((==_iff r.path p).0 clash)))
              | inr apart ↦ rw apart at
            ],
            same,
          )
    ]

pub lookup_by_digest-find :
    (digest : Digest) (exclude : FilePath) (s : ClientStore) {p : FilePath}
    → NodupKeys hub_tree_path s.hub_tree
    → lookup_by_digest digest exclude s ≡ some p
    → (e : HubTreeEntry) × (find hub_tree_path p s.hub_tree ≡ some e) × (e.digest ≡ digest)
unfolding lookup_by_digest
lookup_by_digest-find [] exclude s u h = absurd (ground arith)
lookup_by_digest-find (d ∷ digest) exclude s {p} u h =
    other_path_with-find (d ∷ digest) exclude p s.hub_tree u h
