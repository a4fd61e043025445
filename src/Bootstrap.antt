-- ===== src/Bootstrap.antt =====
-- `Bootstrap` and `Catchup` of client.go with `NewHasher` of hasher.go: a client takes over the hub's
-- tree, fetches what its files lack, and (catching up) removes the files that the tree does not have.
-- The client's own disk does not fail here; the answers of the hub do, at will.
pub mod Blobs
pub mod Mirror
pub mod Again
pub mod Groups
mod Fetched
pub mod HoldsTree
pub mod Samples
use hubsync.Prelude.{
  ℕ, zero, ◌+◌, Bool, true, false, not, ◌||◌, Option, none, some, List, [], ◌∷◌, ◌++◌, Bytes, codes,
  ℤ, if◌then◌else◌, ◌==◌, bytes_eq,
}
use hubsync.Prelude.Table.{find, upsert}
use hubsync.Model.{
  Digest, FilePath, FileKind, file, directory, symlink, HubTreeEntry, hub_tree_path,
}
use hubsync.Disk.{Disk, DiskFile, stat, write_file, remove_file}
use hubsync.ClientStore.{ClientStore, tree_snapshot}
use hubsync.Event.{Remote}
use hubsync.Scanner.{Visited}

abbrev pub Hash : Type 0
Hash = Bytes → Digest

abbrev default_hash : Bytes
default_hash = codes "xxh128"

-- The hashes are libraries'.
unfoldable pub new_hasher : Hash → Hash → Bytes → Option Hash
new_hasher xxh128 sha256 name =
    if name == codes "xxh128"
    then some xxh128
    else if name == codes "sha256"
    then some sha256
    else none

pub record Client : Type 0 where
  pub store : ClientStore
  pub disk : Disk
  pub hasher : Option Hash

abbrev pub algo_or_default : Bytes → Bytes
algo_or_default [] = default_hash
algo_or_default (b ∷ algo) = b ∷ algo

unfoldable pub ensure_hasher : Hash → Hash → Client → Option Client
unfolding new_hasher
ensure_hasher xxh128 sha256 c = elim c.hasher [
  | some h ↦ some c
  | none ↦ elim (new_hasher xxh128 sha256 (algo_or_default c.store.hash_algo)) [
    | none ↦ none
    | some h ↦ some (record c { hasher = some h })
  ]
]

-- What became of one row of the tree: no file, a file that is right already, fetched, or not.
pub data Fetch : Type 0 where
  no_file in_place fetched fetch_failed : Fetch

pub record Tally : Type 0 where
  pub fetched_count : ℕ
  pub skipped_count : ℕ

abbrev counted : Fetch → Tally → Tally
counted no_file t = t
counted in_place t = record t { skipped_count = t.skipped_count + 1 }
counted fetched t = record t { fetched_count = t.fetched_count + 1 }
counted fetch_failed t = t

abbrev is_error : Fetch → Bool
is_error no_file = false
is_error in_place = false
is_error fetched = false
is_error fetch_failed = true

-- `fetchFullBlob`, with its error.
abbrev pub fetch_full_blob : Remote → ℤ → Digest → FilePath → ℕ → Disk → Bool × Disk
fetch_full_blob remote now digest path mode disk = elim (remote.blob digest) [
  | none ↦ (false, disk)
  | some bytes ↦ (true, write_file now path bytes mode disk)
]

module _ (sum : Hash) (remote : Remote) (now : ℤ) where
  -- Whether the file at the path has the digest.
  abbrev matches : Option DiskFile → Digest → Bool
  matches none digest = false
  matches (some f) digest = sum f.bytes == digest

  abbrev pub fetch_file : HubTreeEntry → Disk → Fetch × Disk
  fetch_file e disk =
      let (ok, disk') = fetch_full_blob remote now e.digest e.path e.mode disk in
      (if ok then fetched else fetch_failed, disk')

  abbrev pub reconcile_row : FileKind → HubTreeEntry → Disk → Fetch × Disk
  reconcile_row directory e disk = (no_file, disk)
  reconcile_row symlink e disk = (no_file, disk)
  reconcile_row file e disk =
      if matches (stat e.path disk) e.digest then (in_place, disk) else fetch_file e disk

  -- The rows in the order that the map yields them. An error ends the loop.
  unfoldable pub reconcile_blobs : List HubTreeEntry → Tally → Disk → (Bool × Tally) × Disk
  reconcile_blobs [] t disk = ((true, t), disk)
  reconcile_blobs (e ∷ tree) t disk =
      let (outcome, disk') = reconcile_row e.kind e disk in
      let rest = reconcile_blobs tree (counted outcome t) disk' in
      if is_error outcome then ((false, t), disk') else rest

abbrev pub in_tree : List HubTreeEntry → FilePath → Bool
in_tree tree path = elim (find hub_tree_path path tree) [ none ↦ false | some e ↦ true ]

-- The walk is the lstree package's: the entries that the ignore files let through.
unfoldable pub remove_extraneous : List HubTreeEntry → List Visited → Disk → ℕ × Disk
remove_extraneous tree [] disk = (0, disk)
remove_extraneous tree (v ∷ walk) disk =
    let rest = remove_extraneous tree walk disk in
    let (deleted, disk') = remove_extraneous tree walk (remove_file v.path disk) in
    if v.is_dir || in_tree tree v.path then rest else (deleted + 1, disk')

-- `blobTarget`, and the targets of one digest.
pub record BlobTarget : Type 0 where
  pub path : FilePath
  pub mode : ℕ

pub record BlobGroup : Type 0 where
  pub digest : Digest
  pub targets : List BlobTarget

abbrev pub group_digest : BlobGroup → Digest
group_digest g = g.digest

abbrev pub add_target : Digest → BlobTarget → List BlobGroup → List BlobGroup
add_target digest t groups = elim (find group_digest digest groups) [
  | none ↦ upsert group_digest (record { digest = digest; targets = t ∷ [] }) groups
  | some g ↦ upsert group_digest (record { digest = digest; targets = g.targets ++ t ∷ [] }) groups
]

abbrev pub add_row : FileKind → HubTreeEntry → List BlobGroup → List BlobGroup
add_row file e groups = add_target e.digest (record { path = e.path; mode = e.mode }) groups
add_row directory e groups = groups
add_row symlink e groups = groups

unfoldable pub by_digest : List HubTreeEntry → List BlobGroup → List BlobGroup
by_digest [] groups = groups
by_digest (e ∷ tree) groups = by_digest tree (add_row e.kind e groups)

module _ (remote : Remote) (now : ℤ) where
  unfoldable pub write_targets : Bytes → List BlobTarget → Disk → Disk
  write_targets data_read [] disk = disk
  write_targets data_read (t ∷ targets) disk =
      write_targets data_read targets (write_file now t.path data_read t.mode disk)

  -- The other targets get what the first one holds now.
  abbrev copy_first : FilePath → List BlobTarget → Disk → Bool × Disk
  copy_first first [] disk = (true, disk)
  copy_first first (t ∷ targets) disk = elim (stat first disk) [
    | none ↦ (false, disk)
    | some f ↦ (true, write_targets f.bytes (t ∷ targets) disk)
  ]

  abbrev pub fetch_targets : Digest → List BlobTarget → Disk → Bool × Disk
  fetch_targets digest [] disk = (true, disk)
  fetch_targets digest (first ∷ targets) disk =
      let (ok, disk') = fetch_full_blob remote now digest first.path first.mode disk in
      if ok then copy_first first.path targets disk' else (false, disk')

  unfoldable pub fetch_groups : List BlobGroup → Disk → Bool × Disk
  unfolding write_targets
  fetch_groups [] disk = (true, disk)
  fetch_groups (g ∷ groups) disk =
      let (ok, disk') = fetch_targets g.digest g.targets disk in
      let rest = fetch_groups groups disk' in if ok then rest else (false, disk')

  -- `order` is the order in which the map yields its entries.
  unfoldable pub bootstrap_blobs :
      (List BlobGroup → List BlobGroup) → ClientStore → Disk → Bool × Disk
  unfolding by_digest fetch_groups
  bootstrap_blobs order store disk = fetch_groups (order (by_digest (tree_snapshot store) [])) disk

-- The tree database that the hub answers with, opened; `none` is a failed request or no database.
pub data Ending : Type 0 where
  tree_db_failed no_hasher blobs_failed : Ending
  complete : Tally → ℕ → Ending

abbrev pub bootstrap_tree_db : Option ClientStore → Client → Option Client
bootstrap_tree_db none c = none
bootstrap_tree_db (some store) c = some (record c { store = store })

abbrev pub no_tally : Tally
no_tally = record { fetched_count = 0; skipped_count = 0 }

module _ (xxh128 sha256 : Hash) (remote : Remote) (now : ℤ) (snapshot : Option ClientStore) where
  abbrev with_sum : (Hash → Client → Ending × Client) → Client → Option Hash → Ending × Client
  with_sum go c none = (no_hasher, c)
  with_sum go c (some sum) = go sum c

  abbrev pub with_hasher :
      (Hash → Client → Ending × Client) → Client → Option Client → Ending × Client
  with_hasher go c none = (no_hasher, c)
  with_hasher go c (some ready) = with_sum go ready ready.hasher

  -- The hash of the new tree is resolved afresh.
  abbrev with_tree : (Hash → Client → Ending × Client) → Client → Option Client → Ending × Client
  with_tree go c none = (tree_db_failed, c)
  with_tree go c (some c') =
      with_hasher go (record c' { hasher = none })
        (ensure_hasher xxh128 sha256 (record c' { hasher = none }))

  abbrev pub fetched_blobs : Bool × Disk → Client → Ending × Client
  fetched_blobs (false, disk) c = (blobs_failed, record c { disk = disk })
  fetched_blobs (true, disk) c = (complete no_tally 0, record c { disk = disk })

  unfoldable pub bootstrap : (List BlobGroup → List BlobGroup) → Client → Ending × Client
  unfolding ensure_hasher bootstrap_blobs
  bootstrap order c =
      with_tree
        (λ sum ready. fetched_blobs (bootstrap_blobs remote now order ready.store ready.disk) ready)
        c (bootstrap_tree_db snapshot c)

  abbrev pub reconciled : (Disk → List Visited) → (Bool × Tally) × Disk → Client → Ending × Client
  reconciled walk ((false, t), disk) c = (blobs_failed, record c { disk = disk })
  reconciled walk ((true, t), disk) c =
      let (deleted, disk') = remove_extraneous (tree_snapshot c.store) (walk disk) disk in
      (complete t deleted, record c { disk = disk' })

  unfoldable pub catchup :
      (List HubTreeEntry → List HubTreeEntry) → (Disk → List Visited) → Client → Ending × Client
  unfolding ensure_hasher reconcile_blobs remove_extraneous
  catchup order walk c =
      with_tree
        (λ sum ready.
          reconciled walk
            (reconcile_blobs sum remote now (order (tree_snapshot ready.store)) no_tally ready.disk)
            ready)
        c (bootstrap_tree_db snapshot c)
