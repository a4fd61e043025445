-- ===== src/Bootstrap/Blobs.antt =====
-- The loops of a catch-up: what the files hold behind them.
use hubsync.Prelude.{
  ◌≡◌, refl, sym, ap, ◌∙◌, subst, arith, inl, inr, Bool, true, false, not, ◌&&◌, ◌||◌, Bool-cases,
  Option-cases, Option, none, some, List, [], ◌∷◌, Bytes, ℤ, if◌then◌else◌, ◌==◌, ==_iff, ==_refl,
  bytes_eq,
}
use hubsync.Prelude.Table.{find, NodupKeys, find-remove, find_tail}
use hubsync.Model.{
  Digest, FilePath, FileKind, file, directory, symlink, HubTreeEntry, hub_tree_path,
}
use hubsync.Disk.{Disk, disk_path, stat, remove_file}
use hubsync.Scanner.{Visited}
use hubsync.Event.{Remote}
use hubsync.Event.Files.{bytes_at, bytes_at-write_file}
use hubsync.Bootstrap.{
  Hash, is_error, counted, Tally, fetch_file, reconcile_row, reconcile_blobs, in_tree,
  remove_extraneous,
}

-- What a row asks of its path: the digest for a file, and nothing for another kind.
abbrev pub Settled : Hash → FileKind → Digest → Option Bytes → Option Bytes → Type 0
Settled sum file digest before after = (b : Bytes) × (after ≡ some b) × (sum b ≡ digest)
Settled sum directory digest before after = after ≡ before
Settled sum symlink digest before after = after ≡ before

-- The same at any path: without a row, the file is as it was.
abbrev pub SettledAt : Hash → Option HubTreeEntry → Option Bytes → Option Bytes → Type 0
SettledAt sum none before after = after ≡ before
SettledAt sum (some e) before after = Settled sum e.kind e.digest before after

pub bytes_at-remove_file :
    (path k : FilePath) (disk : Disk)
    → bytes_at k (remove_file path disk) ≡ (if path == k then none else bytes_at k disk)
bytes_at-remove_file path k disk = ground (arith, find-remove disk_path k path disk)

-- Whether the walk has a file at the path.
abbrev pub is_walked : FilePath → List Visited → Bool
is_walked k [] = false
is_walked k (v ∷ walk) = (not v.is_dir && v.path == k) || is_walked k walk

pub bytes_at-remove_extraneous :
    (tree : List HubTreeEntry) (walk : List Visited) (disk : Disk) (k : FilePath)
    → bytes_at k (remove_extraneous tree walk disk).1
      ≡ (if is_walked k walk && not (in_tree tree k) then none else bytes_at k disk)
unfolding remove_extraneous
bytes_at-remove_extraneous tree [] disk k = refl
bytes_at-remove_extraneous tree (v ∷ walk) disk k = ground (
  arith,
  bytes_at-remove_extraneous tree walk disk k,
  bytes_at-remove_extraneous tree walk (remove_file v.path disk) k,
  bytes_at-remove_file v.path k disk,
  ==_iff v.path k,
  λ (q : v.path ≡ k). ap (in_tree tree) q,
)

-- The hub has content of the digest.
abbrev pub Serves : Hash → Remote → Digest → Type 0
Serves sum remote digest = (b : Bytes) × (remote.blob digest ≡ some b) × (sum b ≡ digest)

-- The hub has content for every file of the tree.
abbrev pub IsServed : Hash → Remote → List HubTreeEntry → Type 0
IsServed sum remote rows =
    (k : FilePath) (e : HubTreeEntry)
    → find hub_tree_path k rows ≡ some e
    → e.kind ≡ file
    → Serves sum remote e.digest

module _ (sum : Hash) (remote : Remote) (now : ℤ) where
  fetch_file-Settled :
      (e : HubTreeEntry) (disk : Disk)
      → Serves sum remote e.digest
      → (is_error (fetch_file sum remote now e disk).0 ≡ false)
        × Settled sum file e.digest
            (bytes_at e.path disk)
            (bytes_at e.path (fetch_file sum remote now e disk).1)
  fetch_file-Settled e disk (b, got, right) = (
    ground (arith, got),
    (
      b,
      ground (arith, got, bytes_at-write_file now e.path e.path b e.mode disk, ==_refl e.path),
      right,
    ),
  )

  reconcile_file-Settled :
      (e : HubTreeEntry) (disk : Disk)
      → Serves sum remote e.digest
      → (is_error (reconcile_row sum remote now file e disk).0 ≡ false)
        × Settled sum file e.digest
            (bytes_at e.path disk)
            (bytes_at e.path (reconcile_row sum remote now file e disk).1)
  reconcile_file-Settled e disk serves = elim (Option-cases (stat e.path disk)) [
    | inl absent ↦ rw absent (fetch_file-Settled e disk serves)
    | inr (f, there) ↦ elim (Bool-cases (sum f.bytes == e.digest)) [
      | inl same ↦
          rw (there, same)
            (
              refl,
              (
                f.bytes,
                ap (λ o. elim o [ none ↦ none | some f ↦ some f.bytes ]) there,
                (==_iff (sum f.bytes) e.digest).0 same,
              ),
            )
      | inr other ↦ rw (there, other) (fetch_file-Settled e disk serves)
    ]
  ]

  reconcile_row-Settled :
      (kind : FileKind) (e : HubTreeEntry) (disk : Disk)
      → (kind ≡ file → Serves sum remote e.digest)
      → (is_error (reconcile_row sum remote now kind e disk).0 ≡ false)
        × Settled sum kind e.digest
            (bytes_at e.path disk)
            (bytes_at e.path (reconcile_row sum remote now kind e disk).1)
  reconcile_row-Settled file e disk serves = reconcile_file-Settled e disk (serves refl)
  reconcile_row-Settled directory e disk serves = (refl, refl)
  reconcile_row-Settled symlink e disk serves = (refl, refl)

  fetch_file-elsewhere :
      (e : HubTreeEntry) (disk : Disk) (k : FilePath)
      → (e.path == k) ≡ false
      → bytes_at k (fetch_file sum remote now e disk).1 ≡ bytes_at k disk
  fetch_file-elsewhere e disk k apart = elim (Option-cases (remote.blob e.digest)) [
    | inl failed ↦ ground (arith, failed)
    | inr (b, got) ↦ ground (arith, got, apart, bytes_at-write_file now e.path k b e.mode disk)
  ]

  reconcile_row-elsewhere :
      (kind : FileKind) (e : HubTreeEntry) (disk : Disk) (k : FilePath)
      → (e.path == k) ≡ false
      → bytes_at k (reconcile_row sum remote now kind e disk).1 ≡ bytes_at k disk
  reconcile_row-elsewhere file e disk k apart = ground (arith, fetch_file-elsewhere e disk k apart)
  reconcile_row-elsewhere directory e disk k apart = refl
  reconcile_row-elsewhere symlink e disk k apart = refl

  -- The loop has no error, and behind it every path is settled.
  pub reconcile_blobs-SettledAt :
      (rows : List HubTreeEntry) (t : Tally) (disk : Disk)
      → NodupKeys hub_tree_path rows
      → IsServed sum remote rows
      → ((reconcile_blobs sum remote now rows t disk).0.0 ≡ true)
        × ((k : FilePath)
            → SettledAt sum
                (find hub_tree_path k rows)
                (bytes_at k disk)
                (bytes_at k (reconcile_blobs sum remote now rows t disk).1))
  unfolding reconcile_blobs find
  reconcile_blobs-SettledAt [] t disk u serves = (refl, λ k. refl)
  reconcile_blobs-SettledAt (e ∷ rows) t disk u serves =
      let outcome = (reconcile_row sum remote now e.kind e disk).0 in
      let disk' = (reconcile_row sum remote now e.kind e disk).1 in
      let (good, own) =
        reconcile_row-Settled e.kind e disk (serves e.path e (rw (==_refl e.path) refl)) in
      let (ok, later) =
        reconcile_blobs-SettledAt rows (counted outcome t) disk' u.1
          (λ k e' at. serves k e' (find_tail hub_tree_path e rows k u.0 at)) in
      rw good (
        ok,
        λ k. elim (Bool-cases (e.path == k)) [
          | inl here ↦
              let same : e.path ≡ k = (==_iff e.path k).0 here in
              let once : find hub_tree_path k rows ≡ none =
                ap (λ j. find hub_tree_path j rows) (sym same) ∙ u.0 in
              let kept : bytes_at k
                    (reconcile_blobs sum remote now rows (counted outcome t) disk').1
                  ≡ bytes_at k disk' =
                rw once at (later k) in
              rw here (
                rw kept (
                  subst (λ j. Settled sum e.kind e.digest (bytes_at j disk) (bytes_at j disk')) same
                    own))
          | inr apart ↦ rw apart (rw (reconcile_row-elsewhere e.kind e disk k apart) at (later k))
        ],
      )
