-- ===== src/Bootstrap/Groups.antt =====
-- The rows of a tree grouped by their digest, and what fetching a group leaves.
use hubsync.Prelude.{
  ◌≡◌, refl, ap, ◌∙◌, arith, inl, inr, Bool, true, false, ◌&&◌, ◌||◌, Option-cases, Option, none,
  some, List, [], ◌∷◌, ◌++◌, Bytes, ℤ, if◌then◌else◌, ◌==◌, ==_iff, ==_refl, bytes_eq,
}
use hubsync.Prelude.Table.{find, NodupKeys, find-upsert, upsert-NodupKeys}
use hubsync.Model.{Digest, FilePath, FileKind, file, directory, symlink, HubTreeEntry, is_file}
use hubsync.Disk.{Disk, stat, write_file}
use hubsync.Event.{Remote}
use hubsync.Event.Files.{bytes_at, bytes_at-write_file}
use hubsync.Bootstrap.{
  BlobTarget, BlobGroup, group_digest, add_target, add_row, by_digest, write_targets, copy_first,
  fetch_targets, fetch_full_blob,
}

abbrev pub has_target : FilePath → List BlobTarget → Bool
has_target k [] = false
has_target k (t ∷ targets) = t.path == k || has_target k targets

abbrev pub targets_of : Option BlobGroup → List BlobTarget
targets_of none = []
targets_of (some g) = g.targets

abbrev pub targets_at : Digest → List BlobGroup → List BlobTarget
targets_at d groups = targets_of (find group_digest d groups)

-- Whether a row of the tree is a file at the path with the digest.
unfoldable pub is_wanted : FilePath → Digest → List HubTreeEntry → Bool
is_wanted k d [] = false
is_wanted k d (e ∷ tree) = (is_file e.kind && (e.path == k && e.digest == d)) || is_wanted k d tree

has_target-snoc :
    (k : FilePath) (xs : List BlobTarget) (t : BlobTarget)
    → has_target k (xs ++ t ∷ []) ≡ (has_target k xs || t.path == k)
has_target-snoc k [] t = ground arith
has_target-snoc k (x ∷ xs) t = ground (arith, has_target-snoc k xs t)

targets_at-add_target :
    (k : FilePath) (d digest : Digest) (t : BlobTarget) (groups : List BlobGroup)
    → has_target k (targets_at d (add_target digest t groups))
      ≡ (has_target k (targets_at d groups) || (t.path == k && digest == d))
targets_at-add_target k d digest t groups = elim (Option-cases (find group_digest digest groups)) [
  | inl new ↦
      rw (new, add_target)
        (ground (
          arith,
          find-upsert group_digest d (record { digest = digest; targets = t ∷ [] }) groups,
          new,
          ==_iff digest d,
          λ (q : digest ≡ d). ap (λ x. find group_digest x groups) q,
        ))
  | inr (g, old) ↦
      rw (old, add_target)
        (ground (
          arith,
          find-upsert group_digest d (record { digest = digest; targets = g.targets ++ t ∷ [] })
              groups,
          has_target-snoc k g.targets t,
          old,
          ==_iff digest d,
          λ (q : digest ≡ d). ap (λ x. find group_digest x groups) q,
        ))
]

targets_at-add_row :
    (k : FilePath) (d : Digest) (kind : FileKind) (e : HubTreeEntry) (groups : List BlobGroup)
    → has_target k (targets_at d (add_row kind e groups))
      ≡ (has_target k (targets_at d groups) || (is_file kind && (e.path == k && e.digest == d)))
targets_at-add_row k d file e groups =
    targets_at-add_target k d e.digest (record { path = e.path; mode = e.mode }) groups
targets_at-add_row k d directory e groups = ground arith
targets_at-add_row k d symlink e groups = ground arith

pub targets_at-by_digest :
    (k : FilePath) (d : Digest) (tree : List HubTreeEntry) (groups : List BlobGroup)
    → has_target k (targets_at d (by_digest tree groups))
      ≡ (has_target k (targets_at d groups) || is_wanted k d tree)
unfolding by_digest is_wanted
targets_at-by_digest k d [] groups = ground arith
targets_at-by_digest k d (e ∷ tree) groups = ground (
  arith,
  targets_at-by_digest k d tree (add_row e.kind e groups),
  targets_at-add_row k d e.kind e groups,
)

add_row-NodupKeys :
    (kind : FileKind) (e : HubTreeEntry) (groups : List BlobGroup)
    → NodupKeys group_digest groups
    → NodupKeys group_digest (add_row kind e groups)
add_row-NodupKeys directory e groups u = u
add_row-NodupKeys symlink e groups u = u
add_row-NodupKeys file e groups u = elim (Option-cases (find group_digest e.digest groups)) [
  | inl new ↦ rw (new, add_target) (upsert-NodupKeys group_digest _ groups u)
  | inr (g, old) ↦ rw (old, add_target) (upsert-NodupKeys group_digest _ groups u)
]

pub by_digest-NodupKeys :
    (tree : List HubTreeEntry) (groups : List BlobGroup)
    → NodupKeys group_digest groups
    → NodupKeys group_digest (by_digest tree groups)
unfolding by_digest
by_digest-NodupKeys [] groups u = u
by_digest-NodupKeys (e ∷ tree) groups u =
    by_digest-NodupKeys tree (add_row e.kind e groups) (add_row-NodupKeys e.kind e groups u)

module _ (remote : Remote) (now : ℤ) where
  bytes_at-write_targets :
      (b : Bytes) (targets : List BlobTarget) (disk : Disk) (k : FilePath)
      → bytes_at k (write_targets remote now b targets disk)
        ≡ (if has_target k targets then some b else bytes_at k disk)
  unfolding write_targets
  bytes_at-write_targets b [] disk k = refl
  bytes_at-write_targets b (t ∷ targets) disk k = ground (
    arith,
    bytes_at-write_targets b targets (write_file now t.path b t.mode disk) k,
    bytes_at-write_file now t.path k b t.mode disk,
  )

  bytes_at-copy_first :
      (first : FilePath) (b : Bytes) (targets : List BlobTarget) (disk : Disk)
      → bytes_at first disk ≡ some b
      → ((copy_first remote now first targets disk).0 ≡ true)
        × ((k : FilePath)
            → bytes_at k (copy_first remote now first targets disk).1
              ≡ (if has_target k targets then some b else bytes_at k disk))
  bytes_at-copy_first first b [] disk there = (refl, λ k. refl)
  bytes_at-copy_first first b (t ∷ targets) disk there = elim (Option-cases (stat first disk)) [
    | inl absent ↦ absurd (ground (arith, there, absent))
    | inr (f, at) ↦
        let same : f.bytes ≡ b = ground (arith, there, at) in
        rw (at, same, copy_first) (refl, λ k. bytes_at-write_targets b (t ∷ targets) disk k)
  ]

  -- A group whose blob is served: its targets hold it, and the other files what they held.
  pub bytes_at-fetch_targets :
      (digest : Digest) (b : Bytes) (targets : List BlobTarget) (disk : Disk)
      → remote.blob digest ≡ some b
      → ((fetch_targets remote now digest targets disk).0 ≡ true)
        × ((k : FilePath)
            → bytes_at k (fetch_targets remote now digest targets disk).1
              ≡ (if has_target k targets then some b else bytes_at k disk))
  bytes_at-fetch_targets digest b [] disk got = (refl, λ k. refl)
  bytes_at-fetch_targets digest b (first ∷ targets) disk got =
      let disk' = write_file now first.path b first.mode disk in
      let there : bytes_at first.path disk' ≡ some b = ground (
        arith,
        bytes_at-write_file now first.path first.path b first.mode disk,
        ==_refl first.path,
      ) in
      let (ok, after) = bytes_at-copy_first first.path b targets disk' there in
      rw (got, fetch_targets, fetch_full_blob)
        (ok, λ k. after k ∙ ground (arith, bytes_at-write_file now first.path k b first.mode disk))
