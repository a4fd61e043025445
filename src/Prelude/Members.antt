-- ===== src/Prelude/Members.antt =====
-- Membership in a list of data, with the place, and lists of different elements.
use mathlib.Core.Path.{◌≡◌, refl, sym}
use mathlib.Core.Logic.{◌⊎◌, inl, inr}
use mathlib.Core.List.{List, [], ◌∷◌, ◌++◌}
use mathlib.Core.Option.{some}
use hubsync.Prelude.Lists.{All}
use hubsync.Prelude.Equality.{Eq, ==_refl}
use hubsync.Prelude.Table.{find, NodupKeys, find_tail}

abbrev pub In : {A : Type 0} → A → List A → Type 0
In a [] = ⊥
In a (x ∷ xs) = (x ≡ a) ⊎ In a xs

abbrev pub Distinct : {A : Type 0} → List A → Type 0
Distinct [] = Unit
Distinct (x ∷ xs) = (¬ In x xs) × Distinct xs

module _ {A : Type 0} where
  pub In-left : (a : A) (xs ys : List A) → In a xs → In a (xs ++ ys)
  In-left a [] ys h = absurd h
  In-left a (x ∷ xs) ys (inl e) = inl e
  In-left a (x ∷ xs) ys (inr h) = inr (In-left a xs ys h)

  pub In-right : (a : A) (xs ys : List A) → In a ys → In a (xs ++ ys)
  In-right a [] ys h = h
  In-right a (x ∷ xs) ys h = inr (In-right a xs ys h)

  pub In-append : (a : A) (xs ys : List A) → In a (xs ++ ys) → In a xs ⊎ In a ys
  In-append a [] ys h = inr h
  In-append a (x ∷ xs) ys (inl e) = inl (inl e)
  In-append a (x ∷ xs) ys (inr h) = elim (In-append a xs ys h) [
    | inl b ↦ inl (inr b)
    | inr b ↦ inr b
  ]

  pub In-around : (a b : A) (xs ys : List A) → In a (xs ++ b ∷ ys) → In a (xs ++ ys) ⊎ (b ≡ a)
  In-around a b xs ys h = elim (In-append a xs (b ∷ ys) h) [
    | inl l ↦ inl (In-left a xs ys l)
    | inr (inl e) ↦ inr e
    | inr (inr r) ↦ inl (In-right a xs ys r)
  ]

  pub In-insert : (a b : A) (xs ys : List A) → In a (xs ++ ys) → In a (xs ++ b ∷ ys)
  In-insert a b xs ys h = elim (In-append a xs ys h) [
    | inl l ↦ In-left a xs (b ∷ ys) l
    | inr r ↦ In-right a xs (b ∷ ys) (inr r)
  ]

  -- Taking one element out of a list of different ones.
  pub Distinct-remove :
      (b : A) (xs ys : List A) → Distinct (xs ++ b ∷ ys) → Distinct (xs ++ ys) × (¬ In b (xs ++ ys))
  Distinct-remove b [] ys h = (h.1, h.0)
  Distinct-remove b (x ∷ xs) ys h =
      let (d, n) = Distinct-remove b xs ys h.1 in
      (
        ((λ i. h.0 (In-insert x b xs ys i)), d),
        λ i. elim i [ inl e ↦ h.0 (In-right x xs (b ∷ ys) (inl (sym e))) | inr later ↦ n later ],
      )

  All-weaken : (P Q : A → Type 0) (xs : List A) → ((a : A) → P a → Q a) → All P xs → All Q xs
  All-weaken P Q [] f h = tt
  All-weaken P Q (x ∷ xs) f h = (f x h.0, All-weaken P Q xs f h.1)

  pub All-self : (xs : List A) → All (λ a. In a xs) xs
  All-self [] = tt
  All-self (x ∷ xs) =
      (inl refl, All-weaken (λ a. In a xs) (λ a. In a (x ∷ xs)) xs (λ a i. inr i) (All-self xs))

-- With different keys, a row is the one that is found under its key.
pub find-In :
    {R K : Type 0} ⦃e : Eq K⦄
    → (key : R → K) (t : List R) (r : R) → NodupKeys key t
    → In r t
    → find key (key r) t ≡ some r
unfolding find
find-In key [] r u i = absurd i
find-In key (s ∷ t) r u (inl e) = rw⁻¹ e (rw (==_refl (key s)) refl)
find-In key (s ∷ t) r u (inr i) = find_tail key s t (key r) u.0 (find-In key t r u.1 i)
