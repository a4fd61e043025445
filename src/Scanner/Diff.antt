-- ===== src/Scanner/Diff.antt =====
-- The comparison of a scan with the tree, path by path.
use hubsync.Prelude.{
  ◌≡◌, refl, ap, arith, Option, none, some, List, [], ◌∷◌, ◌++◌, if◌then◌else◌, ◌==◌, bytes_eq,
  ==_iff, sort_by, find-sort_by, sort_by-NodupKeys, IsSortedBy, sort_by-IsSortedBy, All,
  All-sort_by,
}
use hubsync.Prelude.Table.{find, NodupKeys, append-NodupKeys}
use hubsync.Model.{
  FilePath, ChangeEntry, TreeEntry, tree_path, ChangeOp, create, change_update, delete,
}
use hubsync.Scanner.{
  FileInfo, info_path, change_path, created, changed_to, gone, creates_of, deletes_of, diff,
}

-- The change that a path needs.
abbrev pub diff_at : Option FileInfo → Option TreeEntry → Option ChangeEntry
diff_at none none = none
diff_at none (some e) = some (gone e.path)
diff_at (some i) none = some (created i)
diff_at (some i) (some e) = if e.digest == i.digest then none else some (changed_to i)

abbrev or_else : Option ChangeEntry → Option ChangeEntry → Option ChangeEntry
or_else none o = o
or_else (some c) o = some c

-- The part of `diff_at` that is no deletion.
abbrev create_at : Option FileInfo → Option TreeEntry → Option ChangeEntry
create_at none row = none
create_at (some i) row = diff_at (some i) row

abbrev delete_at : Option FileInfo → Option TreeEntry → Option ChangeEntry
delete_at none row = diff_at none row
delete_at (some i) row = none

find-creates_of :
    (k : FilePath) (scanned : List FileInfo) (tree : List TreeEntry)
    → NodupKeys info_path scanned
    → find change_path k (creates_of scanned tree)
      ≡ create_at (find info_path k scanned) (find tree_path k tree)
unfolding creates_of find
find-creates_of k [] tree h = refl
find-creates_of k (i ∷ scanned) tree h = ground (
  arith,
  find-creates_of k scanned tree h.1,
  h.0,
  ==_iff i.path k,
  λ (e : i.path ≡ k). ap (λ p. find tree_path p tree) e,
  λ (e : i.path ≡ k). ap (λ p. find info_path p scanned) e,
)

find-deletes_of :
    (k : FilePath) (scanned : List FileInfo) (tree : List TreeEntry)
    → find change_path k (deletes_of scanned tree)
      ≡ delete_at (find info_path k scanned) (find tree_path k tree)
unfolding deletes_of find
find-deletes_of k scanned [] = ground arith
find-deletes_of k scanned (e ∷ tree) = ground (
  arith,
  find-deletes_of k scanned tree,
  ==_iff e.path k,
  λ (q : e.path ≡ k). ap (λ p. find info_path p scanned) q,
)

creates_of-NodupKeys :
    (scanned : List FileInfo) (tree : List TreeEntry)
    → NodupKeys info_path scanned
    → NodupKeys change_path (creates_of scanned tree)
unfolding creates_of
creates_of-NodupKeys [] tree h = tt
creates_of-NodupKeys (i ∷ scanned) tree h =
    ground
      (arith, h.0, creates_of-NodupKeys scanned tree h.1, find-creates_of i.path scanned tree h.1)

deletes_of-NodupKeys :
    (scanned : List FileInfo) (tree : List TreeEntry)
    → NodupKeys tree_path tree
    → NodupKeys change_path (deletes_of scanned tree)
unfolding deletes_of
deletes_of-NodupKeys scanned [] h = tt
deletes_of-NodupKeys scanned (e ∷ tree) h =
    ground (arith, h.0, deletes_of-NodupKeys scanned tree h.1, find-deletes_of e.path scanned tree)

find-append :
    (k : FilePath) (xs ys : List ChangeEntry)
    → find change_path k (xs ++ ys) ≡ or_else (find change_path k xs) (find change_path k ys)
unfolding find
find-append k [] ys = refl
find-append k (c ∷ xs) ys = ground (arith, find-append k xs ys)

-- Between maps with different keys, the comparison has for each path exactly the change that it
-- needs: a create for a file without a row, an update for a digest that differs, a delete for a row
-- without a file, and nothing else, in whatever order the maps are walked.
pub find-diff :
    (k : FilePath) (scanned : List FileInfo) (tree : List TreeEntry)
    → NodupKeys info_path scanned
    → NodupKeys tree_path tree
    → find change_path k (diff scanned tree)
      ≡ diff_at (find info_path k scanned) (find tree_path k tree)
unfolding diff
find-diff k scanned tree hs ht = ground (
  arith,
  find-append k (sort_by change_path (creates_of scanned tree))
      (sort_by change_path (deletes_of scanned tree)),
  find-sort_by change_path k (creates_of scanned tree) (creates_of-NodupKeys scanned tree hs),
  find-sort_by change_path k (deletes_of scanned tree) (deletes_of-NodupKeys scanned tree ht),
  find-creates_of k scanned tree hs,
  find-deletes_of k scanned tree,
)

pub diff-NodupKeys :
    (scanned : List FileInfo) (tree : List TreeEntry)
    → NodupKeys info_path scanned
    → NodupKeys tree_path tree
    → NodupKeys change_path (diff scanned tree)
unfolding diff
diff-NodupKeys scanned tree hs ht =
    append-NodupKeys change_path (sort_by change_path (creates_of scanned tree))
      (sort_by change_path (deletes_of scanned tree))
      (sort_by-NodupKeys change_path (creates_of scanned tree)
        (creates_of-NodupKeys scanned tree hs))
      (sort_by-NodupKeys change_path (deletes_of scanned tree)
        (deletes_of-NodupKeys scanned tree ht))
      λ k c at. ground (
        arith,
        at,
        find-sort_by change_path k (creates_of scanned tree) (creates_of-NodupKeys scanned tree hs),
        find-sort_by change_path k (deletes_of scanned tree) (deletes_of-NodupKeys scanned tree ht),
        find-creates_of k scanned tree hs,
        find-deletes_of k scanned tree,
      )

abbrev pub IsDelete : ChangeOp → Type 0
IsDelete delete = Unit
IsDelete create = ⊥
IsDelete change_update = ⊥

creates_of-All :
    (scanned : List FileInfo) (tree : List TreeEntry)
    → All (λ c. ¬ IsDelete c.op) (creates_of scanned tree)
unfolding creates_of
creates_of-All [] tree = tt
creates_of-All (i ∷ scanned) tree = ground (arith, creates_of-All scanned tree)

deletes_of-All :
    (scanned : List FileInfo) (tree : List TreeEntry)
    → All (λ c. IsDelete c.op) (deletes_of scanned tree)
unfolding deletes_of
deletes_of-All scanned [] = tt
deletes_of-All scanned (e ∷ tree) = ground (arith, deletes_of-All scanned tree)

-- The comparison is a list of creates and updates in the order of their paths, followed by a list of
-- deletes in the order of theirs: a file that moved is created before its old path is deleted.
pub diff-IsSortedBy :
    (scanned : List FileInfo) (tree : List TreeEntry)
    → (writes deletes : List ChangeEntry) × (diff scanned tree ≡ writes ++ deletes)
      × All (λ c. ¬ IsDelete c.op) writes
      × All (λ c. IsDelete c.op) deletes
      × IsSortedBy change_path writes
      × IsSortedBy change_path deletes
unfolding diff
diff-IsSortedBy scanned tree = (
  sort_by change_path (creates_of scanned tree),
  sort_by change_path (deletes_of scanned tree),
  refl,
  All-sort_by (λ c. ¬ IsDelete c.op) change_path (creates_of scanned tree)
      (creates_of-All scanned tree),
  All-sort_by (λ c. IsDelete c.op) change_path (deletes_of scanned tree)
      (deletes_of-All scanned tree),
  sort_by-IsSortedBy change_path (creates_of scanned tree),
  sort_by-IsSortedBy change_path (deletes_of scanned tree),
)
