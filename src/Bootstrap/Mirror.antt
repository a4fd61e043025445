-- ===== src/Bootstrap/Mirror.antt =====
-- A catch-up with a hub that serves every file makes the directory a mirror of the hub's tree.
use hubsync.Prelude.{
  ◌≡◌, refl, sym, ap, ◌∙◌, subst, arith, inl, inr, Bool, true, false, not, ◌&&◌, ◌||◌, Option-cases,
  Option, none, some, List, ℤ, if◌then◌else◌, bytes_eq,
}
use hubsync.Prelude.Table.{find, NodupKeys}
use hubsync.Model.{FilePath, HubTreeEntry, hub_tree_path}
use hubsync.Disk.{Disk, DiskFile, stat}
use hubsync.Scanner.{Visited}
use hubsync.ClientStore.{ClientStore}
use hubsync.Event.{Remote}
use hubsync.Event.Files.{bytes_at}
use hubsync.Bootstrap.{
  Hash, no_tally, reconcile_blobs, in_tree, remove_extraneous, Client, Ending, complete, catchup,
  reconciled, with_hasher, ensure_hasher, new_hasher, algo_or_default,
}
use hubsync.Bootstrap.Blobs.{
  SettledAt, IsServed, reconcile_blobs-SettledAt, is_walked, bytes_at-remove_extraneous,
}

-- A map yields each of its entries once.
pub record IsOrder (order : List HubTreeEntry → List HubTreeEntry) : Type 0 where
  pub once :
      (rows : List HubTreeEntry)
      → NodupKeys hub_tree_path rows
      → NodupKeys hub_tree_path (order rows)
  pub same :
      (rows : List HubTreeEntry) (k : FilePath)
      → NodupKeys hub_tree_path rows
      → find hub_tree_path k (order rows) ≡ find hub_tree_path k rows

abbrev pub is_there : Option DiskFile → Bool
is_there none = false
is_there (some f) = true

-- The walk yields the files that are not ignored.
pub record IsWalk (ignored : FilePath → Bool) (walk : Disk → List Visited) : Type 0 where
  pub walked :
      (disk : Disk) (k : FilePath)
      → is_walked k (walk disk) ≡ (is_there (stat k disk) && not (ignored k))

abbrev pub is_complete : Ending → Bool
is_complete (complete t deleted) = true
is_complete end = false

pub ensure_hasher_knows :
    (sum xxh128 sha256 : Hash) (store : ClientStore) (disk : Disk)
    → new_hasher xxh128 sha256 (algo_or_default store.hash_algo) ≡ some sum
    → ensure_hasher xxh128 sha256 (record { store = store; disk = disk; hasher = none })
      ≡ some (record { store = store; disk = disk; hasher = some sum })
unfolding ensure_hasher
ensure_hasher_knows sum xxh128 sha256 store disk known = rw (known, ensure_hasher) refl

-- What the directory holds after: at a path of the tree what its row asks for; elsewhere the ignored
-- files as they were, and no others.
pub record IsMirror (sum : Hash) (ignored : FilePath → Bool) (store : ClientStore) (before : Disk)
    (c : Client) : Type 0 where
  pub tree : c.store ≡ store
  pub settled :
      (k : FilePath)
      → SettledAt sum
          (find hub_tree_path k store.hub_tree)
          (if in_tree store.hub_tree k || ignored k then bytes_at k before else none)
          (bytes_at k c.disk)

module _ (sum : Hash) (remote : Remote) (now : ℤ) (ignored : FilePath → Bool)
    (order : List HubTreeEntry → List HubTreeEntry) (walk : Disk → List Visited)
    (orders : IsOrder order) (walks : IsWalk ignored walk) where
  swept :
      (tree : List HubTreeEntry) (before mid : Disk) (k : FilePath)
      → SettledAt sum (find hub_tree_path k tree) (bytes_at k before) (bytes_at k mid)
      → SettledAt sum
          (find hub_tree_path k tree)
          (if in_tree tree k || ignored k then bytes_at k before else none)
          (bytes_at k (remove_extraneous tree (walk mid) mid).1)
  swept tree before mid k h = elim (Option-cases (find hub_tree_path k tree)) [
    | inl untracked ↦ rw untracked (
        ground (
          arith,
          rw untracked at h,
          bytes_at-remove_extraneous tree (walk mid) mid k,
          walks.walked mid k,
          untracked,
        ))
    | inr (e, tracked) ↦
        let kept : bytes_at k (remove_extraneous tree (walk mid) mid).1 ≡ bytes_at k mid =
          ground (arith, bytes_at-remove_extraneous tree (walk mid) mid k, tracked) in
        let held : in_tree tree k ≡ true = ground (arith, tracked) in
        rw (held, tracked, kept) (rw tracked at h)
  ]

  -- A catch-up that gets the tree and knows its hash, up to its loops.
  pub catchup-reconciled :
      (xxh128 sha256 : Hash) (store : ClientStore) (c : Client)
      → new_hasher xxh128 sha256 (algo_or_default store.hash_algo) ≡ some sum
      → catchup xxh128 sha256 remote now (some store) order walk c
        ≡ reconciled xxh128 sha256 remote now
            (some store)
            walk
            (reconcile_blobs sum remote now (order store.hub_tree) no_tally c.disk)
            (record { store = store; disk = c.disk; hasher = some sum })
  unfolding catchup
  catchup-reconciled xxh128 sha256 store c known =
      ap
        (with_hasher xxh128 sha256 remote now (some store)
          (λ sum ready.
            reconciled xxh128 sha256 remote now (some store) walk
              (reconcile_blobs sum remote now (order ready.store.hub_tree) no_tally ready.disk)
              ready)
          (record { store = store; disk = c.disk; hasher = none }))
        (ensure_hasher_knows sum xxh128 sha256 store c.disk known)

  mirrors :
      (xxh128 sha256 : Hash) (store : ClientStore) (c : Client)
      → NodupKeys hub_tree_path store.hub_tree
      → IsServed sum remote store.hub_tree
      → let (end, c') =
          reconciled xxh128 sha256 remote now
            (some store)
            walk
            (reconcile_blobs sum remote now (order store.hub_tree) no_tally c.disk)
            (record { store = store; disk = c.disk; hasher = some sum }) in
        (is_complete end ≡ true) × IsMirror sum ignored store c.disk c'
  mirrors xxh128 sha256 store c u serves =
      let mid = (reconcile_blobs sum remote now (order store.hub_tree) no_tally c.disk).1 in
      let (ok, settled) =
        reconcile_blobs-SettledAt sum remote now (order store.hub_tree) no_tally c.disk
          (orders.once store.hub_tree u)
          (λ k e at. serves k e (sym (orders.same store.hub_tree k u) ∙ at)) in
      rw ok (
        refl,
        record {
          tree = refl;
          settled = λ k. swept store.hub_tree c.disk mid k (
              subst (λ found. SettledAt sum found (bytes_at k c.disk) (bytes_at k mid))
                (orders.same store.hub_tree k u) (settled k));
        },
      )

pub catchup-IsMirror :
    (xxh128 sha256 sum : Hash) (remote : Remote) (now : ℤ) (ignored : FilePath → Bool)
    (order : List HubTreeEntry → List HubTreeEntry) (walk : Disk → List Visited)
    (store : ClientStore) (c : Client)
    → IsOrder order
    → IsWalk ignored walk
    → new_hasher xxh128 sha256 (algo_or_default store.hash_algo) ≡ some sum
    → NodupKeys hub_tree_path store.hub_tree
    → IsServed sum remote store.hub_tree
    → let (end, c') = catchup xxh128 sha256 remote now (some store) order walk c in
      (is_complete end ≡ true) × IsMirror sum ignored store c.disk c'
catchup-IsMirror xxh128 sha256 sum remote now ignored order walk store c orders walks known u
      serves =
    subst (λ r. (is_complete r.0 ≡ true) × IsMirror sum ignored store c.disk r.1)
      (sym (
        catchup-reconciled sum remote now ignored order walk orders walks xxh128 sha256 store c
          known))
      (mirrors sum remote now ignored order walk orders walks xxh128 sha256 store c u serves)
