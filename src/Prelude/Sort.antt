-- ===== src/Prelude/Sort.antt =====
-- `sort.Slice` and `ORDER BY` on a path: insertion sort, in the order of Go strings.
use mathlib.Core.Path.{◌≡◌, refl}
use mathlib.Core.Bool.{true, false}
use mathlib.Core.List.{List, [], ◌∷◌}
use mathlib.Core.Option.{none, some}
use native.Mathlib.Omega.{arith}
use hubsync.Prelude.Tests.{if◌then◌else◌}
use hubsync.Prelude.Equality.{◌==◌, ==_iff}
use hubsync.Prelude.Text.{Bytes, bytes_lt, bytes_eq}
use hubsync.Prelude.Table.{find, NodupKeys}
use hubsync.Prelude.Lists.{All}

bytes_lt_asymm : (a b : Bytes) → bytes_lt a b ≡ true → bytes_lt b a ≡ false
unfolding bytes_lt
bytes_lt_asymm [] [] h = ground arith
bytes_lt_asymm [] (y ∷ ys) h = ground arith
bytes_lt_asymm (x ∷ xs) [] h = ground arith
bytes_lt_asymm (x ∷ xs) (y ∷ ys) h = ground (arith, bytes_lt_asymm xs ys)

module _ {ℓ} {A : Type ℓ} (key : A → Bytes) where
  unfoldable pub insert_by : A → List A → List A
  insert_by x [] = x ∷ []
  insert_by x (y ∷ ys) = if bytes_lt (key y) (key x) then y ∷ insert_by x ys else x ∷ y ∷ ys

  unfoldable pub sort_by : List A → List A
  unfolding insert_by bytes_lt
  sort_by [] = []
  sort_by (x ∷ xs) = insert_by x (sort_by xs)

  -- No element stands before one with a smaller key.
  abbrev pub IsSortedBy : List A → Type 0
  IsSortedBy [] = Unit
  IsSortedBy (x ∷ []) = Unit
  IsSortedBy (x ∷ y ∷ ys) = (bytes_lt (key y) (key x) ≡ false) × IsSortedBy (y ∷ ys)

  insert_by-IsSortedBy : (x : A) (ys : List A) → IsSortedBy ys → IsSortedBy (insert_by x ys)
  unfolding insert_by
  insert_by-IsSortedBy x [] h = tt
  insert_by-IsSortedBy x (y ∷ []) h = ground (arith, bytes_lt_asymm (key y) (key x))
  insert_by-IsSortedBy x (y ∷ z ∷ zs) h = ground (
    arith,
    insert_by-IsSortedBy x (z ∷ zs) h.1,
    bytes_lt_asymm (key y) (key x),
    bytes_lt_asymm (key z) (key x),
  )

  pub sort_by-IsSortedBy : (xs : List A) → IsSortedBy (sort_by xs)
  unfolding sort_by
  sort_by-IsSortedBy [] = tt
  sort_by-IsSortedBy (x ∷ xs) = insert_by-IsSortedBy x (sort_by xs) (sort_by-IsSortedBy xs)

  find-insert_by :
      (k : Bytes) (x : A) (ys : List A)
      → find key (key x) ys ≡ none
      → find key k (insert_by x ys) ≡ (if key x == k then some x else find key k ys)
  unfolding insert_by find
  find-insert_by k x [] h = refl
  find-insert_by k x (y ∷ ys) h =
      ground
        (arith, find-insert_by k x ys, ==_iff (key x) k, ==_iff (key y) k, ==_iff (key y) (key x))

  -- Sorting rows with different keys changes no lookup.
  pub find-sort_by :
      (k : Bytes) (xs : List A) → NodupKeys key xs → find key k (sort_by xs) ≡ find key k xs
  unfolding sort_by find
  find-sort_by k [] h = refl
  find-sort_by k (x ∷ xs) h = ground (
    arith,
    find-insert_by k x (sort_by xs),
    find-sort_by k xs h.1,
    find-sort_by (key x) xs h.1,
    h.0,
  )

  insert_by-NodupKeys :
      (x : A) (ys : List A)
      → find key (key x) ys ≡ none
      → NodupKeys key ys
      → NodupKeys key (insert_by x ys)
  unfolding insert_by find
  insert_by-NodupKeys x [] n h = (n, tt)
  insert_by-NodupKeys x (y ∷ ys) n h = ground (
    arith,
    n,
    h,
    insert_by-NodupKeys x ys,
    find-insert_by (key y) x ys,
    ==_iff (key x) (key y),
    ==_iff (key y) (key x),
  )

  pub sort_by-NodupKeys : (xs : List A) → NodupKeys key xs → NodupKeys key (sort_by xs)
  unfolding sort_by
  sort_by-NodupKeys [] h = tt
  sort_by-NodupKeys (x ∷ xs) h = ground (
    arith,
    h,
    find-sort_by (key x) xs h.1,
    sort_by-NodupKeys xs h.1,
    insert_by-NodupKeys x (sort_by xs),
  )

module _ {ℓ κ} {A : Type ℓ} (P : A → Type κ) (key : A → Bytes) where
  All-insert_by : (x : A) (ys : List A) → P x → All P ys → All P (insert_by key x ys)
  unfolding insert_by
  All-insert_by x [] px h = (px, tt)
  All-insert_by x (y ∷ ys) px h = ground (arith, px, h, All-insert_by x ys px h.1)

  pub All-sort_by : (xs : List A) → All P xs → All P (sort_by key xs)
  unfolding sort_by
  All-sort_by [] h = tt
  All-sort_by (x ∷ xs) h = All-insert_by x (sort_by key xs) h.0 (All-sort_by xs h.1)
