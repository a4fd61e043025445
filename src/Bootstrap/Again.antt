-- ===== src/Bootstrap/Again.antt =====
-- A second catch-up with the same tree, whatever the hub's blobs do.
use hubsync.Prelude.{
  ◌≡◌, refl, sym, ◌∙◌, subst, arith, inl, inr, Bool, true, false, ◌&&◌, Option-cases, Option, none,
  some, List, [], ◌∷◌, Bytes, ℤ, ◌==◌, ==_iff, ==_refl, bytes_eq, nat_eq,
}
use hubsync.Prelude.Table.{find, NodupKeys, find_tail}
use hubsync.Model.{
  Digest, FilePath, FileKind, file, directory, symlink, HubTreeEntry, hub_tree_path,
}
use hubsync.Disk.{Disk, stat}
use hubsync.Scanner.{Visited}
use hubsync.ClientStore.{ClientStore}
use hubsync.Event.{Remote}
use hubsync.Event.Files.{bytes_at}
use hubsync.Bootstrap.{
  Hash, is_error, counted, Tally, no_tally, matches, reconcile_row, reconcile_blobs, in_tree,
  remove_extraneous, Client, Ending, complete, catchup, new_hasher, algo_or_default,
}
use hubsync.Bootstrap.Blobs.{Settled, is_walked}
use hubsync.Bootstrap.Mirror.{IsOrder, IsWalk, IsMirror, catchup-reconciled}

-- The files of the rows hold what their rows ask for.
abbrev IsInPlace : Hash → List HubTreeEntry → Disk → Type 0
IsInPlace sum rows disk =
    (k : FilePath) (e : HubTreeEntry)
    → find hub_tree_path k rows ≡ some e
    → e.kind ≡ file
    → Settled sum file e.digest none (bytes_at k disk)

-- No error, nothing fetched, and the files as they were.
abbrev IsIdle : Tally → Disk → (Bool × Tally) × Disk → Type 0
IsIdle t disk r = (r.0.0 ≡ true) × (r.0.1.fetched_count ≡ t.fetched_count) × (r.1 ≡ disk)

module _ (sum : Hash) (remote : Remote) (now : ℤ) where
  in_place_row :
      (kind : FileKind) (e : HubTreeEntry) (disk : Disk)
      → (kind ≡ file → Settled sum file e.digest none (bytes_at e.path disk))
      → (is_error (reconcile_row sum remote now kind e disk).0 ≡ false)
        × ((t : Tally)
            → (counted (reconcile_row sum remote now kind e disk).0 t).fetched_count
              ≡ t.fetched_count)
        × ((reconcile_row sum remote now kind e disk).1 ≡ disk)
  in_place_row directory e disk right = (refl, (λ t. refl), refl)
  in_place_row symlink e disk right = (refl, (λ t. refl), refl)
  in_place_row file e disk right =
      let (b, there, same) = right refl in
      let matched : matches sum remote now (stat e.path disk) e.digest ≡ true =
        ground (arith, there, same, ==_iff (sum b) e.digest) in
      rw matched (refl, (λ t. refl), refl)

  reconcile_blobs-IsIdle :
      (rows : List HubTreeEntry) (t : Tally) (disk : Disk)
      → NodupKeys hub_tree_path rows
      → IsInPlace sum rows disk
      → IsIdle t disk (reconcile_blobs sum remote now rows t disk)
  unfolding reconcile_blobs find
  reconcile_blobs-IsIdle [] t disk u right = (refl, refl, refl)
  reconcile_blobs-IsIdle (e ∷ rows) t disk u right =
      let (good, uncounted, unwritten) =
        in_place_row e.kind e disk (right e.path e (rw (==_refl e.path) refl)) in
      let t' : Tally = counted (reconcile_row sum remote now e.kind e disk).0 t in
      let (ok, unfetched, same) =
        reconcile_blobs-IsIdle rows t' disk u.1
          (λ k e' at. right k e' (find_tail hub_tree_path e rows k u.0 at)) in
      rw (good, unwritten) (ok, unfetched ∙ uncounted t, same)

remove_extraneous_idle :
    (tree : List HubTreeEntry) (walk : List Visited) (disk : Disk)
    → ((k : FilePath) → is_walked k walk ≡ true → in_tree tree k ≡ true)
    → remove_extraneous tree walk disk ≡ (0, disk)
unfolding remove_extraneous
remove_extraneous_idle tree [] disk h = refl
remove_extraneous_idle tree (v ∷ walk) disk h = ground (
  arith,
  remove_extraneous_idle tree walk disk (λ k w. h k (ground (arith, w))),
  h v.path,
  ==_refl v.path,
)

mirror-IsInPlace :
    (sum : Hash) (ignored : FilePath → Bool) (store : ClientStore) (before : Disk) (c : Client)
    → IsMirror sum ignored store before c
    → IsInPlace sum store.hub_tree c.disk
mirror-IsInPlace sum ignored store before c m k e at kind =
    let here = m.settled k in settled_file e.kind kind _ (rw at at here)
  where
    settled_file :
        (kind : FileKind) {digest : Digest} {a : Option Bytes}
        → kind ≡ file
        → (b : Option Bytes) → Settled sum kind digest b a
        → Settled sum file digest none a
    settled_file file q b h = h
    settled_file directory q b h = absurd (ground (arith, q))
    settled_file symlink q b h = absurd (ground (arith, q))

-- Nothing is left outside of the tree for a walk to find.
mirror_swept :
    (sum : Hash) (ignored : FilePath → Bool) (store : ClientStore) (before : Disk) (c : Client)
    (walk : Disk → List Visited)
    → IsWalk ignored walk
    → IsMirror sum ignored store before c
    → (k : FilePath) → is_walked k (walk c.disk) ≡ true
    → in_tree store.hub_tree k ≡ true
mirror_swept sum ignored store before c walk walks m k w =
    elim (Option-cases (find hub_tree_path k store.hub_tree)) [
      | inr (e, at) ↦ ground (arith, at)
      | inl untracked ↦
          let here = m.settled k in
          absurd (ground (arith, rw untracked at here, walks.walked c.disk k, w, untracked))
    ]

abbrev pub is_idle : Ending → Bool
is_idle (complete t deleted) = t.fetched_count == 0 && deleted == 0
is_idle end = false

-- A client that mirrors the hub's tree, as a catch-up leaves it: a further catch-up with that tree
-- completes without a fetch or a removal and leaves every file as it is, whatever the hub answers for
-- blobs, and in whatever order the map and the walk yield their entries.
pub catchup_again :
    (xxh128 sha256 sum : Hash) (remote : Remote) (now : ℤ) (ignored : FilePath → Bool)
    (order : List HubTreeEntry → List HubTreeEntry) (walk : Disk → List Visited)
    (store : ClientStore) (before : Disk) (c : Client)
    → IsOrder order
    → IsWalk ignored walk
    → new_hasher xxh128 sha256 (algo_or_default store.hash_algo) ≡ some sum
    → NodupKeys hub_tree_path store.hub_tree
    → IsMirror sum ignored store before c
    → let (end, c') = catchup xxh128 sha256 remote now (some store) order walk c in
      (is_idle end ≡ true) × (c'.disk ≡ c.disk)
catchup_again xxh128 sha256 sum remote now ignored order walk store before c orders walks known u
      m =
    let (ok, unfetched, unwritten) =
      reconcile_blobs-IsIdle sum remote now (order store.hub_tree) no_tally c.disk
        (orders.once store.hub_tree u)
        (λ k e at.
          mirror-IsInPlace sum ignored store before c m k e
            (sym (orders.same store.hub_tree k u) ∙ at)) in
    let still =
      remove_extraneous_idle store.hub_tree (walk c.disk) c.disk
        (mirror_swept sum ignored store before c walk walks m) in
    subst (λ r. (is_idle r.0 ≡ true) × (r.1.disk ≡ c.disk))
      (sym (
        catchup-reconciled sum remote now ignored order walk orders walks xxh128 sha256 store c
          known))
      (rw (ok, unwritten, still, unfetched) (refl, refl))
