-- ===== src/ClientPush/Names.antt =====
-- The names of conflicted copies are all different, so that one of them is free.
use hubsync.Prelude.{
  ℕ, zero, suc, ◌+◌, ◌≡◌, ◌≤◌, ◌<◌, refl, sym, ap, subst, ◌∙◌, arith, inl, inr, Option, none, some,
  [], ◌∷◌, ◌++◌, Bytes, length, length-append, codes, decimal, decimal_injective, Bool-cases, ltb,
  Option-cases, ◌==◌, bytes_eq, ==_iff, split_path, split_ext, drop, drop-append,
}
use hubsync.Prelude.Table.{find, remove, find-remove}
use hubsync.Model.{FilePath}
use hubsync.Disk.{Disk, DiskFile, disk_path, stat}
use hubsync.ClientPush.{conflicted_name, copy_mark, first_free, conflicted_copy_path}

append_cancel_left : (p a b : Bytes) → p ++ a ≡ p ++ b → a ≡ b
append_cancel_left p a b e = sym (drop-append p a) ∙ ap (drop (length p)) e ∙ drop-append p b

append_cancel_right_of_length : (a b s : Bytes) → length a ≡ length b → a ++ s ≡ b ++ s → a ≡ b
append_cancel_right_of_length [] [] s l e = refl
append_cancel_right_of_length [] (y ∷ b) s l e = absurd (omega (arith, l))
append_cancel_right_of_length (x ∷ a) [] s l e = absurd (omega (arith, l))
append_cancel_right_of_length (x ∷ a) (y ∷ b) s l e =
    grind (arith, e, append_cancel_right_of_length a b s)

append_cancel_right : (a b s : Bytes) → a ++ s ≡ b ++ s → a ≡ b
append_cancel_right a b s e =
    append_cancel_right_of_length a b s
      (omega (arith, length-append {0} a s, length-append {0} b s, ap (length {A = ℕ}) e)) e

copy_mark_injective : (j k : ℕ) → copy_mark j ≡ copy_mark k → j ≡ k
copy_mark_injective zero zero e = refl
copy_mark_injective zero (suc k) e = absurd (ground (arith, e))
copy_mark_injective (suc j) zero e = absurd (ground (arith, e))
copy_mark_injective (suc j) (suc k) e =
    let behind_blank =
      append_cancel_left (codes " ") (decimal (j + 2) ++ codes ")") (decimal (k + 2) ++ codes ")")
        e in
    let number = append_cancel_right (decimal (j + 2)) (decimal (k + 2)) (codes ")") behind_blank in
    let same = decimal_injective (j + 2) (k + 2) number in omega (arith, same)

-- The names that are tried are all different.
conflicted_name_injective :
    (path : FilePath) (j k : ℕ) → conflicted_name path j ≡ conflicted_name path k → j ≡ k
unfolding conflicted_name
conflicted_name_injective path j k e =
    let base = (split_path path).1 in
    let ext = (split_ext base).1 in
    let behind_dir = append_cancel_left (split_path path).0 _ _ e in
    let behind_stem = append_cancel_left (split_ext base).0 _ _ behind_dir in
    let behind_text = append_cancel_left (codes " (conflicted copy") _ _ behind_stem in
    copy_mark_injective j k (append_cancel_right (copy_mark j) (copy_mark k) ext behind_text)

-- Rows that are removed make the table shorter.
length-remove_le : (k : FilePath) (disk : Disk) → length (remove disk_path k disk) ≤ length disk
unfolding remove
length-remove_le k [] = omega arith
length-remove_le k (f ∷ disk) = ground (arith, length-remove_le k disk)

length-remove :
    (k : FilePath) (disk : Disk)
    → ¬ (stat k disk ≡ none)
    → length (remove disk_path k disk) < length disk
unfolding remove find
length-remove k [] h = absurd (h refl)
length-remove k (f ∷ disk) h = ground (arith, h, length-remove k disk, length-remove_le k disk)

-- No more different paths than files are taken.
taken_bound :
    (name : ℕ → FilePath)
    → ((j k : ℕ) → name j ≡ name k → j ≡ k)
    → (n : ℕ) (disk : Disk) → ((k : ℕ) → k < n → ¬ (stat (name k) disk ≡ none))
    → n ≤ length disk
taken_bound name injective zero disk h = omega arith
taken_bound name injective (suc n) disk h =
    let fewer = length-remove (name n) disk (h n (omega arith)) in
    let rest =
      taken_bound name injective n (remove disk_path (name n) disk)
        (λ k lt gone. h k (omega arith) (still_there k lt gone)) in
    omega (arith, fewer, rest)
  where
    still_there :
        (k : ℕ)
        → k < n
        → stat (name k) (remove disk_path (name n) disk) ≡ none
        → stat (name k) disk ≡ none
    still_there k lt gone = elim (Bool-cases (name n == name k)) [
      | inl same ↦ absurd (omega (arith, injective n k ((==_iff (name n) (name k)).0 same)))
      | inr other ↦ ground (arith, gone, other, find-remove disk_path (name k) (name n) disk)
    ]

-- The first free name of a path.
abbrev pub FirstFree : FilePath → Disk → Option FilePath → Type 0
FirstFree path disk found =
    (n : ℕ) × (found ≡ some (conflicted_name path n))
    × (stat (conflicted_name path n) disk ≡ none)
    × ((k : ℕ) → k < n → ¬ (stat (conflicted_name path k) disk ≡ none))

taken_suc :
    (path : FilePath) (disk : Disk) (k : ℕ) (f : DiskFile)
    → stat (conflicted_name path k) disk ≡ some f
    → ((j : ℕ) → j < k → ¬ (stat (conflicted_name path j) disk ≡ none))
    → (j : ℕ) → j < k + 1
    → ¬ (stat (conflicted_name path j) disk ≡ none)
taken_suc path disk k f at taken j lt gone = elim (Bool-cases (ltb j k)) [
  | inl below ↦ taken j (ground (arith, below)) gone
  | inr last ↦
      let e : j ≡ k = ground (arith, last, lt) in
      absurd (ground (arith, at, gone, ap (λ i. stat (conflicted_name path i) disk) e))
]

first_free-FirstFree :
    (fuel k : ℕ) (path : FilePath) (disk : Disk)
    → ((j : ℕ) → j < k → ¬ (stat (conflicted_name path j) disk ≡ none))
    → length disk < k + fuel
    → FirstFree path disk (first_free fuel k path disk)
unfolding first_free
first_free-FirstFree zero k path disk taken enough =
    let few = taken_bound (conflicted_name path) (conflicted_name_injective path) k disk taken in
    absurd (omega (arith, few))
first_free-FirstFree (suc fuel) k path disk taken enough =
    elim (Option-cases (stat (conflicted_name path k) disk)) [
      | inl free ↦ (k, ground (arith, free), free, taken)
      | inr (f, at) ↦
          let later : first_free (suc fuel) k path disk ≡ first_free fuel (k + 1) path disk =
            ground (arith, at) in
          subst (FirstFree path disk) (sym later) (
            first_free-FirstFree fuel (k + 1) path disk (taken_suc path disk k f at taken)
              (omega arith))
    ]

-- The loop over the names of a conflicted copy ends, in any directory: with the first name that is
-- free, the names before it all being taken. The rounds that the model allows, one more than the
-- files, are enough.
pub conflicted_copy_path-FirstFree :
    (path : FilePath) (disk : Disk) → FirstFree path disk (conflicted_copy_path path disk)
unfolding conflicted_copy_path
conflicted_copy_path-FirstFree path disk =
    first_free-FirstFree (length disk + 1) 0 path disk (λ j lt. absurd (omega arith)) (omega arith)
