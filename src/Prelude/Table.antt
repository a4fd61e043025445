-- ===== src/Prelude/Table.antt =====
-- Rows with a key: an SQL table with a primary key, and a Go map whose values hold their key.
use mathlib.Core.Option
use mathlib.Core.Option.{Option, none, some}
use mathlib.Core.Path.{◌≡◌, refl, ap, ◌∙◌}
use mathlib.Core.Bool.{Bool}
use mathlib.Core.List.{List, [], ◌∷◌, ◌++◌, map}
use mathlib.Core.Logic.{inl, inr}
use native.Mathlib.Omega.{arith}
use hubsync.Prelude.Tests.{if◌then◌else◌, Bool-cases}
use hubsync.Prelude.Lists.{select}
use hubsync.Prelude.Equality.{Eq, ◌==◌, ==_iff, ==_refl}

module _ {ℓ κ} {R : Type ℓ} {K : Type κ} ⦃e : Eq K⦄ (key : R → K) where
  unfoldable pub find : K → List R → Option R
  find k [] = none
  find k (r ∷ t) = if key r == k then some r else find k t

  -- Insert, or replace the row with the same key.
  unfoldable pub upsert : R → List R → List R
  upsert r [] = r ∷ []
  upsert r (s ∷ t) = if key s == key r then r ∷ t else s ∷ upsert r t

  unfoldable pub remove : K → List R → List R
  remove k [] = []
  remove k (s ∷ t) = let rest = remove k t in if key s == k then rest else s ∷ rest

  unfoldable pub update : K → (R → R) → List R → List R
  update k f [] = []
  update k f (s ∷ t) = (if key s == k then f s else s) ∷ update k f t

  abbrev pub NodupKeys : List R → Type ℓ
  NodupKeys [] = Unit
  NodupKeys (r ∷ t) = (find (key r) t ≡ none) × NodupKeys t

  pub key-find : (k : K) (t : List R) {r : R} → find k t ≡ some r → key r ≡ k
  unfolding find
  key-find k [] h = ground arith
  key-find k (s ∷ t) {r} h = ground (arith, key-find k t {r = r}, ==_iff (key s) k)

  pub find-upsert :
      (k : K) (r : R) (t : List R) → find k (upsert r t) ≡ (if key r == k then some r else find k t)
  unfolding find upsert
  find-upsert k r [] = refl
  find-upsert k r (s ∷ t) =
      ground (arith, find-upsert k r t, ==_iff (key s) k, ==_iff (key s) (key r), ==_iff (key r) k)

  pub find-remove :
      (k j : K) (t : List R) → find k (remove j t) ≡ (if j == k then none else find k t)
  unfolding find remove
  find-remove k j [] = ground arith
  find-remove k j (s ∷ t) =
      ground (arith, find-remove k j t, ==_iff (key s) k, ==_iff (key s) j, ==_iff j k)

  pub find-update :
      (k j : K) (f : R → R) (t : List R)
      → ((r : R) → key (f r) ≡ key r)
      → find k (update j f t) ≡ (if j == k then Option.map f (find k t) else find k t)
  unfolding find update
  find-update k j f [] h = ground arith
  find-update k j f (s ∷ t) h = ground (
    arith,
    find-update k j f t h,
    h s,
    ==_iff (key s) k,
    ==_iff (key s) j,
    ==_iff j k,
    ==_iff (key (f s)) k,
  )

  pub upsert-NodupKeys : (r : R) (t : List R) → NodupKeys t → NodupKeys (upsert r t)
  unfolding upsert find
  upsert-NodupKeys r [] h = (refl, tt)
  upsert-NodupKeys r (s ∷ t) h = ground (
    arith,
    upsert-NodupKeys r t h.1,
    find-upsert (key s) r t,
    ==_iff (key s) (key r),
    ==_iff (key r) (key s),
  )

  pub remove-NodupKeys : (k : K) (t : List R) → NodupKeys t → NodupKeys (remove k t)
  unfolding remove
  remove-NodupKeys k [] h = h
  remove-NodupKeys k (s ∷ t) h = ground (arith, remove-NodupKeys k t h.1, find-remove (key s) k t)

  pub update-NodupKeys :
      (k : K) (f : R → R) (t : List R)
      → ((r : R) → key (f r) ≡ key r)
      → NodupKeys t
      → NodupKeys (update k f t)
  unfolding update
  update-NodupKeys k f [] p h = h
  update-NodupKeys k f (s ∷ t) p h = ground (
    arith,
    update-NodupKeys k f t p h.1,
    p s,
    find-update (key s) k f t p,
    find-update (key (f s)) k f t p,
  )

  abbrev pub guarded : (R → Bool) → Option R → Option R
  guarded p none = none
  guarded p (some r) = if p r then some r else none

  pub find-select_absent :
      (k : K) (p : R → Bool) (t : List R) → find k t ≡ none → find k (select p t) ≡ none
  unfolding find
  find-select_absent k p [] h = refl
  find-select_absent k p (s ∷ t) h = ground (arith, find-select_absent k p t, ==_iff (key s) k)

  pub find-select :
      (k : K) (p : R → Bool) (t : List R) → NodupKeys t → find k (select p t) ≡ guarded p (find k t)
  unfolding find
  find-select k p [] h = refl
  find-select k p (s ∷ t) h =
      ground (arith, find-select k p t h.1, find-select_absent k p t, ==_iff (key s) k, h.0)

  pub select-NodupKeys : (p : R → Bool) (t : List R) → NodupKeys t → NodupKeys (select p t)
  select-NodupKeys p [] h = tt
  select-NodupKeys p (s ∷ t) h =
      ground (arith, h, select-NodupKeys p t h.1, find-select_absent (key s) p t h.0)

  pub find-append :
      (k : K) (xs ys : List R)
      → find k (xs ++ ys) ≡ elim (find k xs) [ none ↦ find k ys | some r ↦ some r ]
  unfolding find
  find-append k [] ys = refl
  find-append k (x ∷ xs) ys = ground (arith, find-append k xs ys)

  pub find_tail :
      (r : R) (t : List R) (k : K) {s : R}
      → find (key r) t ≡ none
      → find k t ≡ some s
      → find k (r ∷ t) ≡ some s
  unfolding find
  find_tail r t k new at = elim (Bool-cases (key r == k)) [
    | inl clash ↦ absurd (ground (arith, at, new, ap (λ j. find j t) ((==_iff (key r) k).0 clash)))
    | inr other ↦ rw other at
  ]

  pub append-NodupKeys :
      (xs ys : List R)
      → NodupKeys xs
      → NodupKeys ys
      → ((k : K) (r : R) → find k xs ≡ some r → find k ys ≡ none)
      → NodupKeys (xs ++ ys)
  unfolding find
  append-NodupKeys [] ys hx hy apart = hy
  append-NodupKeys (x ∷ xs) ys hx hy apart = (
    ground (arith, find-append (key x) xs ys, hx.0, apart (key x) x (rw (==_refl (key x)) refl)),
    append-NodupKeys xs ys hx.1 hy later,
  )
    where
      later : (k : K) (r : R) → find k xs ≡ some r → find k ys ≡ none
      later k r at = elim (Bool-cases (key x == k)) [
        | inl same ↦
            let e = (==_iff (key x) k).0 same in
            absurd (ground (arith, at, hx.0, ap (λ p. find p xs) e))
        | inr other ↦ apart k r (rw (other, find) at)
      ]

module _ {ℓ ℓ' κ} {R : Type ℓ} {S : Type ℓ'} {K : Type κ} ⦃e : Eq K⦄ where
  pub find-map :
      (key : R → K) (key' : S → K) (f : R → S) (k : K) (t : List R)
      → ((r : R) → key' (f r) ≡ key r)
      → find key' k (map f t) ≡ Option.map f (find key k t)
  unfolding find
  find-map key key' f k [] h = refl
  find-map key key' f k (r ∷ t) h = elim (Bool-cases (key r == k)) [
    | inl same ↦ rw (h r, same, find) refl
    | inr other ↦ rw (h r, other, find) (find-map key key' f k t h)
  ]

  pub map-NodupKeys :
      (key : R → K) (key' : S → K) (f : R → S) (t : List R)
      → ((r : R) → key' (f r) ≡ key r)
      → NodupKeys key t
      → NodupKeys key' (map f t)
  map-NodupKeys key key' f [] same h = tt
  map-NodupKeys key key' f (r ∷ t) same h = (
    find-map key key' f (key' (f r)) t same ∙ rw (same r, h.0) refl,
    map-NodupKeys key key' f t same h.1,
  )
