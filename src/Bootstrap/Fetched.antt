-- ===== src/Bootstrap/Fetched.antt =====
-- The groups of a bootstrap: each is fetched, and its paths hold content of its digest.
use hubsync.Prelude.{
  ◌≡◌, refl, ap, ◌∙◌, arith, inl, inr, Bool, true, false, ◌&&◌, ◌||◌, Bool-cases, Option, none,
  some, List, [], ◌∷◌, ℤ, ◌==◌, ==_iff, ==_refl, bytes_eq, In,
}
use hubsync.Prelude.Table.{find, NodupKeys}
use hubsync.Model.{Digest, FilePath, file, HubTreeEntry, hub_tree_path, is_file}
use hubsync.Disk.{Disk}
use hubsync.Event.{Remote}
use hubsync.Event.Files.{bytes_at}
use hubsync.Bootstrap.{Hash, BlobTarget, BlobGroup, fetch_targets, fetch_groups}
use hubsync.Bootstrap.Blobs.{Settled, Serves}
use hubsync.Bootstrap.Groups.{has_target, targets_at, is_wanted, bytes_at-fetch_targets}

-- What the row at the path says about a digest.
abbrev pub wants : Option HubTreeEntry → Digest → Bool
wants none d = false
wants (some e) d = is_file e.kind && e.digest == d

pub is_wanted-find :
    (k : FilePath) (d : Digest) (tree : List HubTreeEntry)
    → NodupKeys hub_tree_path tree
    → is_wanted k d tree ≡ wants (find hub_tree_path k tree) d
unfolding is_wanted find
is_wanted-find k d [] u = refl
is_wanted-find k d (e ∷ tree) u = ground (
  arith,
  is_wanted-find k d tree u.1,
  u.0,
  ==_iff e.path k,
  λ (q : e.path ≡ k). ap (λ j. find hub_tree_path j tree) q,
)

abbrev pub is_target : FilePath → List BlobGroup → Bool
is_target k [] = false
is_target k (g ∷ groups) = has_target k g.targets || is_target k groups

-- The groups' blobs are served, and those at the path have the digest.
abbrev pub IsFor : Hash → Remote → FilePath → Digest → BlobGroup → Type 0
IsFor sum remote k d g =
    ((j : FilePath) → has_target j g.targets ≡ true → Serves sum remote g.digest)
    × (has_target k g.targets ≡ true → g.digest ≡ d)

module _ (sum : Hash) (remote : Remote) (now : ℤ) where
  fetch_targets-Settled :
      (digest : Digest) (targets : List BlobTarget) (disk : Disk)
      → ((j : FilePath) → has_target j targets ≡ true → Serves sum remote digest)
      → ((fetch_targets remote now digest targets disk).0 ≡ true)
        × ((k : FilePath)
            → has_target k targets ≡ false
            → bytes_at k (fetch_targets remote now digest targets disk).1 ≡ bytes_at k disk)
        × ((k : FilePath)
            → has_target k targets ≡ true
            → Settled sum file digest none
                (bytes_at k (fetch_targets remote now digest targets disk).1))
  fetch_targets-Settled digest [] disk serves =
      (refl, (λ k h. refl), λ k h. absurd (ground (arith, h)))
  fetch_targets-Settled digest (first ∷ targets) disk serves =
      let (b, got, right) = serves first.path (ground (arith, ==_refl first.path)) in
      let (ok, after) = bytes_at-fetch_targets remote now digest b (first ∷ targets) disk got in
      (ok, (λ k h. after k ∙ rw h refl), λ k h. (b, after k ∙ rw h refl, right))

  -- Every group is fetched, and a path with targets has content of the digest in the end.
  pub fetch_groups-Settled :
      (k : FilePath) (d : Digest) (groups : List BlobGroup) (disk : Disk)
      → ((g : BlobGroup) → In g groups → IsFor sum remote k d g)
      → ((fetch_groups remote now groups disk).0 ≡ true)
        × (is_target k groups ≡ false
            → bytes_at k (fetch_groups remote now groups disk).1 ≡ bytes_at k disk)
        × (is_target k groups ≡ true
            → Settled sum file d none (bytes_at k (fetch_groups remote now groups disk).1))
  unfolding fetch_groups
  fetch_groups-Settled k d [] disk all = (refl, (λ h. refl), λ h. absurd (ground (arith, h)))
  fetch_groups-Settled k d (g ∷ groups) disk all =
      let (serves, right) = all g (inl refl) in
      let (ok, others, own) = fetch_targets-Settled g.digest g.targets disk serves in
      let disk' = (fetch_targets remote now g.digest g.targets disk).1 in
      let (ok', others', own') = fetch_groups-Settled k d groups disk' (λ g' i. all g' (inr i)) in
      rw ok (
        ok',
        (λ h. others' (ground (arith, h)) ∙ others k (ground (arith, h))),
        λ h. elim (Bool-cases (is_target k groups)) [
          | inl later ↦ own' later
          | inr done ↦
              let here : has_target k g.targets ≡ true = ground (arith, h, done) in
              let (b, at, of) = own k here in (b, others' done ∙ at, of ∙ right here)
        ],
      )

pub is_target-targets_at :
    (k : FilePath) (d : Digest) (groups : List BlobGroup)
    → has_target k (targets_at d groups) ≡ true
    → is_target k groups ≡ true
unfolding find
is_target-targets_at k d [] h = h
is_target-targets_at k d (g ∷ groups) h = elim (Bool-cases (g.digest == d)) [
  | inl here ↦ ground (arith, h, here)
  | inr later ↦ ground (arith, is_target-targets_at k d groups (rw later at h))
]

pub is_target-In :
    (k : FilePath) (groups : List BlobGroup)
    → is_target k groups ≡ true
    → (g : BlobGroup) × (In g groups) × (has_target k g.targets ≡ true)
is_target-In k [] h = absurd (ground (arith, h))
is_target-In k (g ∷ groups) h = elim (Bool-cases (has_target k g.targets)) [
  | inl here ↦ (g, inl refl, here)
  | inr later ↦
      let (g', i, at) = is_target-In k groups (ground (arith, h, later)) in (g', inr i, at)
]
