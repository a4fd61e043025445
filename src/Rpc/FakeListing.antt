-- ===== src/Rpc/FakeListing.antt =====
-- The store in memory keeps the promises of listings.
use hubsync.Prelude.{
  ◌≡◌, refl, ap, ◌∙◌, arith, inl, inr, Bool-cases, none, some, List, [], ◌∷◌, ℤ, Bytes, has_prefix,
  if◌then◌else◌, ◌==◌, ==_iff, not_true, bytes_eq, All, All-sort_by, sort_by, find-sort_by,
  sort_by-NodupKeys,
}
use hubsync.Prelude.Table.{find, upsert, NodupKeys, find-upsert}
use hubsync.Archive.Fake.{
  FakeStorage, Versions, versions_key, fake, fake_head_by_key, fake_list_keys, list_from, list_one,
  common_tail,
}
use hubsync.Reconciler.{Listing, listing_key}
use hubsync.Rpc.{merged}
use hubsync.Rpc.Covered.{IsListing}

-- The versions of a key are under its key, and have file ids.
abbrev pub IsFiled : Versions → Type 0
IsFiled v = (v.latest.info.key ≡ v.key) × ¬ (v.latest.info.file_id ≡ [])

pub record IsStored (s : FakeStorage) : Type 0 where
  pub distinct : NodupKeys versions_key s.versions
  pub filed : All IsFiled s.versions

find-merged_list :
    (k prefix : Bytes) (vs : List Versions) (m : Listing)
    → NodupKeys versions_key vs
    → All IsFiled vs
    → find listing_key k (merged (list_from prefix [] [] vs) m) ≡ elim (find versions_key k vs) [
      | none ↦ find listing_key k m
      | some v ↦ if has_prefix k prefix then some v.latest.info else find listing_key k m
    ]
unfolding list_from list_one merged find common_tail
find-merged_list k prefix [] m distinct filed = refl
find-merged_list k prefix (v ∷ vs) m distinct filed =
    let real =
      not_true (v.latest.info.file_id == [])
        (λ e. filed.0.1 ((==_iff v.latest.info.file_id []).0 e)) in
    elim (Bool-cases (has_prefix v.key prefix)) [
      | inl below ↦ ground (
        arith,
        below,
        real,
        find-merged_list k prefix vs (upsert listing_key v.latest.info m) distinct.1 filed.1,
        find-upsert listing_key k v.latest.info m,
        filed.0.0,
        distinct.0,
        ==_iff v.key k,
        λ (e : v.key ≡ k). ap (λ j. find versions_key j vs) e,
        λ (e : v.key ≡ k). ap (λ j. has_prefix j prefix) e,
      )
      | inr beside ↦ ground (
        arith,
        beside,
        find-merged_list k prefix vs m distinct.1 filed.1,
        distinct.0,
        ==_iff v.key k,
        λ (e : v.key ≡ k). ap (λ j. find versions_key j vs) e,
        λ (e : v.key ≡ k). ap (λ j. has_prefix j prefix) e,
      )
    ]

-- A listing without a delimiter has the heads of the keys behind the prefix.
pub fake-IsListing : (now : ℤ) → IsListing (fake now) IsStored
unfolding fake_list_keys fake_head_by_key find
fake-IsListing now = record {
  listed = λ prefix key s good ok.
      find-merged_list key prefix (sort_by versions_key s.versions) []
        (sort_by-NodupKeys versions_key s.versions good.distinct)
        (All-sort_by IsFiled versions_key s.versions good.filed)
      ∙ ground (arith, find-sort_by versions_key key s.versions good.distinct);
}
