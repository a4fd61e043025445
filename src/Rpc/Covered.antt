-- ===== src/Rpc/Covered.antt =====
-- What the listings of the globs' prefixes have in them.
use hubsync.Prelude.{
  ◌≡◌, refl, ap, ◌∙◌, subst, arith, inl, inr, true, Bool-cases, Option, none, some, List, [], ◌∷◌,
  Bytes, has_prefix, if◌then◌else◌, ◌==◌, ==_iff, ==_refl, bytes_eq, In,
}
use hubsync.Prelude.Table.{find, upsert, find-upsert}
use hubsync.Model.{state_eq}
use hubsync.Archive.{RemoteInfo, Storage, Head, head_of, not_exist, head_failed, join_key}
use hubsync.Reconciler.{Listing, listing_key}
use hubsync.Rpc.{literal_prefix, is_in, merged, lookup_from}

abbrev pub info_of : Head → Option RemoteInfo
info_of (head_of i) = some i
info_of not_exist = none
info_of head_failed = none

-- What the comments of `ArchiveStorage` promise of a listing without a delimiter: if it does not fail,
-- it has the head of every key behind the prefix, once, and nothing else.
pub record IsListing {S : Type 0} (storage : Storage S) (Good : S → Type 0) : Type 0 where
  pub listed :
      (prefix key : Bytes) (s : S)
      → Good s
      → (storage.list_keys prefix [] s).1 ≡ true
      → find listing_key key (merged (storage.list_keys prefix [] s).0 [])
        ≡ (if has_prefix key prefix then info_of (storage.head_by_key key s) else none)

abbrev pub or_else : Option RemoteInfo → Option RemoteInfo → Option RemoteInfo
or_else none o = o
or_else (some a) o = some a

or_else_assoc : (a b c : Option RemoteInfo) → or_else a (or_else b c) ≡ or_else (or_else a b) c
or_else_assoc none b c = refl
or_else_assoc (some a) b c = refl

pub or_else-none : (a : Option RemoteInfo) → or_else a none ≡ a
or_else-none none = refl
or_else-none (some a) = refl

find-merged :
    (k : Bytes) (es : List RemoteInfo) (m : Listing)
    → find listing_key k (merged es m)
      ≡ or_else (find listing_key k (merged es [])) (find listing_key k m)
unfolding merged find upsert
find-merged k [] m = refl
find-merged k (e ∷ es) m = elim (Bool-cases (e.file_id == [])) [
  | inl marker ↦ ground (arith, marker, find-merged k es m)
  | inr real ↦ ground (
    arith,
    real,
    find-merged k es (upsert listing_key e m),
    find-merged k es (upsert listing_key e []),
    find-upsert listing_key k e m,
    find-upsert listing_key k e [],
    or_else_assoc (find listing_key k (merged es [])) (find listing_key k (upsert listing_key e []))
        (find listing_key k m),
  )
]

module _ {S : Type 0} {Good : S → Type 0} (prefix : Bytes) (storage : Storage S)
    (law : IsListing storage Good) where
  unfoldable pub head_at : Bytes → S → Option RemoteInfo
  head_at key s = info_of (storage.head_by_key key s)

  -- The table has the heads of all keys behind `q`, and no key with another head.
  unfoldable pub Covered : S → Listing → Bytes → Type 0
  Covered s m q = (k : Bytes) → has_prefix k q ≡ true → find listing_key k m ≡ head_at k s

  unfoldable pub IsTrue : S → Listing → Type 0
  IsTrue s m = (k : Bytes) → or_else (head_at k s) (find listing_key k m) ≡ head_at k s

  find-merged_list :
      (q k : Bytes) (s : S) (m : Listing)
      → Good s
      → (storage.list_keys q [] s).1 ≡ true
      → find listing_key k (merged (storage.list_keys q [] s).0 m)
        ≡ or_else (if has_prefix k q then head_at k s else none) (find listing_key k m)
  unfolding head_at
  find-merged_list q k s m good ok =
      find-merged k (storage.list_keys q [] s).0 m
      ∙ ap (λ o. or_else o (find listing_key k m)) (law.listed q k s good ok)

  twice : (a b : Option RemoteInfo) → or_else a b ≡ a → or_else a (or_else a b) ≡ a
  twice none b h = h
  twice (some i) b h = refl

  same_twice : (a : Option RemoteInfo) → or_else a a ≡ a
  same_twice none = refl
  same_twice (some i) = refl

  merged-IsTrue :
      (q : Bytes) (s : S) (m : Listing)
      → Good s
      → (storage.list_keys q [] s).1 ≡ true
      → IsTrue s m
      → IsTrue s (merged (storage.list_keys q [] s).0 m)
  unfolding IsTrue
  merged-IsTrue q s m good ok true_of k =
      ap (or_else (head_at k s)) (find-merged_list q k s m good ok)
      ∙ elim (Bool-cases (has_prefix k q)) [
        | inl below ↦ rw below (twice (head_at k s) (find listing_key k m) (true_of k))
        | inr beside ↦ rw beside (true_of k)
      ]

  merged-Covered :
      (q : Bytes) (s : S) (m : Listing)
      → Good s
      → (storage.list_keys q [] s).1 ≡ true
      → IsTrue s m
      → Covered s (merged (storage.list_keys q [] s).0 m) q
  unfolding Covered IsTrue
  merged-Covered q s m good ok true_of k below =
      find-merged_list q k s m good ok ∙ rw below (true_of k)

  merged-Covered_before :
      (q p : Bytes) (s : S) (m : Listing)
      → Good s
      → (storage.list_keys q [] s).1 ≡ true
      → Covered s m p
      → Covered s (merged (storage.list_keys q [] s).0 m) p
  unfolding Covered
  merged-Covered_before q p s m good ok covered k behind =
      find-merged_list q k s m good ok
      ∙ ap (or_else (if has_prefix k q then head_at k s else none)) (covered k behind)
      ∙ elim (Bool-cases (has_prefix k q)) [
        | inl below ↦ rw below (same_twice (head_at k s))
        | inr beside ↦ rw beside refl
      ]

  unfoldable pub SeenCovered : S → Listing → List Bytes → Type 0
  SeenCovered s m seen = (q : Bytes) → is_in q seen ≡ true → Covered s m q

  abbrev pub listed_prefix : Bytes → Bytes
  listed_prefix glob = join_key prefix (literal_prefix glob)

  seen-Covered :
      (key : Bytes) (seen : List Bytes) (s : S) (m : Listing)
      → Good s
      → (storage.list_keys key [] s).1 ≡ true
      → IsTrue s m
      → SeenCovered s m seen
      → SeenCovered s (merged (storage.list_keys key [] s).0 m) (key ∷ seen)
  unfolding SeenCovered is_in
  seen-Covered key seen s m good ok true_of covered q h = elim (Bool-cases (key == q)) [
    | inl same ↦
        subst (Covered s (merged (storage.list_keys key [] s).0 m)) ((==_iff key q).0 same)
          (merged-Covered key s m good ok true_of)
    | inr other ↦ merged-Covered_before key q s m good ok (covered q (ground (arith, h, other)))
  ]

  seen-Covered_tail :
      (key : Bytes) (seen : List Bytes) (s : S) (m : Listing)
      → SeenCovered s m (key ∷ seen)
      → SeenCovered s m seen
  unfolding SeenCovered is_in
  seen-Covered_tail key seen s m covered q h = covered q (ground (arith, h))

  seen-Covered_head :
      (key : Bytes) (seen : List Bytes) (s : S) (m : Listing)
      → SeenCovered s m (key ∷ seen)
      → Covered s m key
  unfolding SeenCovered is_in
  seen-Covered_head key seen s m covered = covered key (ground (arith, ==_refl key))

  seen-Covered_at :
      (key : Bytes) (seen : List Bytes) (s : S) (m : Listing)
      → SeenCovered s m seen
      → is_in key seen ≡ true
      → Covered s m key
  unfolding SeenCovered
  seen-Covered_at key seen s m covered h = covered key h

  pub lookup_from-Covered :
      (globs seen : List Bytes) (s : S) (m m' : Listing)
      → Good s
      → IsTrue s m
      → SeenCovered s m seen
      → lookup_from prefix storage globs seen s m ≡ some m'
      → SeenCovered s m' seen × ((glob : Bytes) → In glob globs → Covered s m' (listed_prefix glob))
  unfolding lookup_from
  lookup_from-Covered [] seen s m m' good true_of covered h =
      let e : m ≡ m' = ground (arith, h) in
      (subst (λ x. SeenCovered s x seen) e covered, λ glob i. absurd i)
  lookup_from-Covered (glob ∷ globs) seen s m m' good true_of covered h =
      let key = listed_prefix glob in
      elim (Bool-cases (is_in key seen)) [
        | inl before ↦
            let (old, new) =
              lookup_from-Covered globs seen s m m' good true_of covered
                (ground (arith, h, before)) in
            (
              old,
              λ g i. elim i [
                | inl same ↦
                    subst (λ x. Covered s m' (listed_prefix x)) same
                      (seen-Covered_at key seen s m' old before)
                | inr later ↦ new g later
              ],
            )
        | inr first ↦ elim (Bool-cases (storage.list_keys key [] s).1) [
          | inr failed ↦ absurd (ground (arith, h, first, failed))
          | inl ok ↦
              let more = merged (storage.list_keys key [] s).0 m in
              let covered' : SeenCovered s more (key ∷ seen) =
                seen-Covered key seen s m good ok true_of covered in
              let (old, new) =
                lookup_from-Covered globs (key ∷ seen) s more m' good
                  (merged-IsTrue key s m good ok true_of) covered' (ground (arith, h, first, ok)) in
              (
                seen-Covered_tail key seen s m' old,
                λ g i. elim i [
                  | inl same ↦
                      subst (λ x. Covered s m' (listed_prefix x)) same
                        (seen-Covered_head key seen s m' old)
                  | inr later ↦ new g later
                ],
              )
        ]
      ]
