-- ===== src/ClientPush/Needed.antt =====
-- What a scan of the client's directory finds, path by path.
use hubsync.Prelude.{
  ◌≡◌, refl, ap, ◌∙◌, arith, inl, inr, Option, none, some, List, [], ◌∷◌, ◌++◌, Bytes, Bool, true,
  false, Bool-cases, Option-cases, ◌==◌, bytes_eq, ==_iff, ==_refl, if◌then◌else◌,
}
use hubsync.Prelude.Table.{find, NodupKeys}
use hubsync.Model.{Digest, FilePath, HubTreeEntry, hub_tree_path}
use hubsync.Disk.{Disk, DiskFile, stat}
use hubsync.ClientStore.{ClientStore}
use hubsync.Scanner.{Visited}
use hubsync.Push.{op_path, PushOp}
use hubsync.ClientPush.{
  LocalChange, LocalDeletion, deletion_path, is_unchanged, is_seen, deletions_of, local_change,
  joined_changes, changes_of, scan_local, op_of_change, change_path,
}

abbrev pub visited_path : Visited → FilePath
visited_path v = v.path

-- The regular file that the walk visits at a path.
abbrev pub file_at : Option Visited → Option Visited
file_at none = none
file_at (some v) = if v.is_dir then none else some v

module _ (sum : Bytes → Digest) where
  -- The change of a path; it is at most one.
  abbrev pub content_change : FilePath → Option DiskFile → Option HubTreeEntry → Option LocalChange
  content_change path none row = none
  content_change path (some f) none =
      some (record { path = path; digest = sum f.bytes; content = f.bytes; hub_entry = none })
  content_change path (some f) (some e) =
      if sum f.bytes == e.digest
      then none
      else some
          (record { path = path; digest = sum f.bytes; content = f.bytes; hub_entry = some e })

  abbrev pub needed_change :
      FilePath → Option Visited → Option DiskFile → Option HubTreeEntry → Option LocalChange
  needed_change path none f row = none
  needed_change path (some v) f none = content_change path f none
  needed_change path (some v) f (some e) =
      if is_unchanged v e then none else content_change path f (some e)

  find-local_change :
      (v : Visited) (f : Option DiskFile) (row : Option HubTreeEntry) (cs : List LocalChange)
      → local_change sum v f row ≡ some cs
      → find change_path v.path cs ≡ needed_change v.path (file_at (some v)) f row
  unfolding find
  find-local_change v none none cs h = ground (arith, h)
  find-local_change v (some f) none cs h = ground (arith, h, ==_refl v.path)
  find-local_change v none (some e) cs h = ground (arith, h)
  find-local_change v (some f) (some e) cs h = ground (arith, h, ==_refl v.path)

  pub find-local_change_other :
      (k : FilePath) (v : Visited) (f : Option DiskFile) (row : Option HubTreeEntry)
      (cs : List LocalChange)
      → local_change sum v f row ≡ some cs
      → (v.path == k) ≡ false
      → find change_path k cs ≡ none
  unfolding find
  find-local_change_other k v none none cs h other = ground (arith, h, other)
  find-local_change_other k v (some f) none cs h other = ground (arith, h, other)
  find-local_change_other k v none (some e) cs h other = ground (arith, h, other)
  find-local_change_other k v (some f) (some e) cs h other = ground (arith, h, other)

  pub joined-cases :
      (a b : Option (List LocalChange)) (cs : List LocalChange)
      → joined_changes sum a b ≡ some cs
      → (c1 c2 : List LocalChange) × (a ≡ some c1) × (b ≡ some c2) × (cs ≡ c1 ++ c2)
  joined-cases none b cs h = absurd (ground (arith, h))
  joined-cases (some c1) none cs h = absurd (ground (arith, h))
  joined-cases (some c1) (some c2) cs h = (c1, c2, refl, refl, ground (arith, h))

  find-append_none :
      (k : FilePath) (xs ys : List LocalChange)
      → find change_path k ys ≡ none
      → find change_path k (xs ++ ys) ≡ find change_path k xs
  unfolding find
  find-append_none k [] ys h = h
  find-append_none k (x ∷ xs) ys h = ground (arith, find-append_none k xs ys h)

  find-none_append :
      (k : FilePath) (xs ys : List LocalChange)
      → find change_path k xs ≡ none
      → find change_path k (xs ++ ys) ≡ find change_path k ys
  unfolding find
  find-none_append k [] ys h = refl
  find-none_append k (x ∷ xs) ys h = ground (arith, h, find-none_append k xs ys)

  pub find-changes_of :
      (k : FilePath) (walk : List Visited) (disk : Disk) (tree : List HubTreeEntry)
      (cs : List LocalChange)
      → NodupKeys visited_path walk
      → changes_of sum walk disk tree ≡ some cs
      → find change_path k cs
        ≡ needed_change k
            (file_at (find visited_path k walk))
            (stat k disk)
            (find hub_tree_path k tree)
  unfolding changes_of find
  find-changes_of k [] disk tree cs nodup h = ground (arith, h)
  find-changes_of k (v ∷ walk) disk tree cs nodup h =
      let one = local_change sum v (stat v.path disk) (find hub_tree_path v.path tree) in
      let (c1, c2, e1, e2, e) = joined-cases one (changes_of sum walk disk tree) cs h in
      let ih = find-changes_of k walk disk tree c2 nodup.1 e2 in
      ap (find change_path k) e ∙ elim (Bool-cases (v.path == k)) [
        | inl same ↦
            let q : v.path ≡ k = (==_iff v.path k).0 same in
            let last : find change_path k c2 ≡ none =
              ground (arith, ih, nodup.0, ap (λ p. find visited_path p walk) q) in
            find-append_none k c1 c2 last
            ∙ ground (
              arith,
              same,
              find-local_change v (stat v.path disk) (find hub_tree_path v.path tree) c1 e1,
              ap (λ p. find change_path p c1) q,
              ap (λ p. needed_change p (file_at (some v)) (stat p disk) (find hub_tree_path p tree))
                  q,
            )
        | inr other ↦
            find-none_append k c1 c2 (
              find-local_change_other k v (stat v.path disk) (find hub_tree_path v.path tree) c1 e1
                other)
            ∙ ih
            ∙ ground (arith, other)
      ]

abbrev pub needed_deletion : Option Visited → Option HubTreeEntry → Option LocalDeletion
needed_deletion (some v) row = none
needed_deletion none none = none
needed_deletion none (some e) = some (record { path = e.path; hub_entry = e })

abbrev seen_at : Option Visited → Bool
seen_at none = false
seen_at (some v) = true

is_seen-absent :
    (k : FilePath) (walk : List Visited) → find visited_path k walk ≡ none → is_seen k walk ≡ false
unfolding is_seen find
is_seen-absent k [] h = refl
is_seen-absent k (v ∷ walk) h = ground (arith, h, is_seen-absent k walk)

is_seen-file_at :
    (k : FilePath) (walk : List Visited)
    → NodupKeys visited_path walk
    → is_seen k walk ≡ seen_at (file_at (find visited_path k walk))
unfolding is_seen find
is_seen-file_at k [] h = refl
is_seen-file_at k (v ∷ walk) h = ground (
  arith,
  is_seen-file_at k walk h.1,
  ==_iff v.path k,
  h.0,
  is_seen-absent k walk,
  λ (e : v.path ≡ k). ap (λ p. find visited_path p walk) e,
)

pub find-deletions_of :
    (k : FilePath) (walk : List Visited) (tree : List HubTreeEntry)
    → NodupKeys visited_path walk
    → find deletion_path k (deletions_of walk tree)
      ≡ needed_deletion (file_at (find visited_path k walk)) (find hub_tree_path k tree)
unfolding deletions_of find
find-deletions_of k walk [] h = ground arith
find-deletions_of k walk (e ∷ tree) h = ground (
  arith,
  find-deletions_of k walk tree h,
  is_seen-file_at e.path walk h,
  ==_iff e.path k,
  λ (q : e.path ≡ k). ap (λ p. find visited_path p walk) q,
)

pub op_of_change-path : (c : LocalChange) → op_path (op_of_change c) ≡ change_path c
op_of_change-path c = elim (Option-cases c.hub_entry) [
  | inl new ↦ ground (arith, new)
  | inr (e, old) ↦ ground (arith, old)
]

pub find-append_ops :
    (k : FilePath) (xs ys : List PushOp)
    → find op_path k (xs ++ ys)
      ≡ elim (find op_path k xs) [ none ↦ find op_path k ys | some op ↦ some op ]
unfolding find
find-append_ops k [] ys = refl
find-append_ops k (x ∷ xs) ys = ground (arith, find-append_ops k xs ys)

pub scan_local-parts :
    (sum : Bytes → Digest) (walk : List Visited) (disk : Disk) (store : ClientStore)
    (changes : List LocalChange) (deletions : List LocalDeletion)
    → scan_local sum walk disk store ≡ some (changes, deletions)
    → (changes_of sum walk disk store.hub_tree ≡ some changes)
      × (deletions ≡ deletions_of walk store.hub_tree)
unfolding scan_local
scan_local-parts sum walk disk store changes deletions h =
    elim (Option-cases (changes_of sum walk disk store.hub_tree)) [
      | inl failed ↦ absurd (ground (arith, h, failed))
      | inr (cs, e) ↦ (ground (arith, h, e), ground (arith, h, e))
    ]
