-- ===== src/Reconciler/Evict.antt =====
-- A local file is given up only for a verified remote head.
use hubsync.Prelude.{
  ◌≡◌, ◌≢◌, refl, ◌⊎◌, inl, inr, arith, true, false, Option, none, some, Bytes, ◌==◌, nat_eq,
  bytes_eq, ==_iff, Bool-cases, Option-cases,
}
use hubsync.Model.{Digest, FilePath, archived, state_eq, HubEntry}
use hubsync.Disk.{remove_file}
use hubsync.Store.{entry_lookup, mark_unpinned}
use hubsync.Archive.{RemoteInfo, Storage, join_key}
use hubsync.Reconciler.{
  Failure, store_failed, wrong_state, lookup_failed, no_row, Site, Io, Listing, Found, found,
  missing, head_mismatch, find_head, unpin_and_remove, evict_row, evict_with,
}

head_mismatch-none :
    (head : RemoteInfo) (e : HubEntry)
    → head_mismatch head e ≡ none
    → (head.file_id ≡ e.archive_file_id) × (head.size ≡ e.size) × (head.digest ≡ e.digest)
unfolding head_mismatch
head_mismatch-none head e h = ground (
  arith,
  h,
  ==_iff head.file_id e.archive_file_id,
  ==_iff head.size e.size,
  ==_iff head.digest e.digest,
)

pub head_mismatch_same :
    (head : RemoteInfo) (e : HubEntry)
    → head.file_id ≡ e.archive_file_id
    → head.size ≡ e.size
    → head.digest ≡ e.digest
    → head_mismatch head e ≡ none
unfolding head_mismatch
head_mismatch_same head e a b c = ground (
  arith,
  a,
  b,
  c,
  ==_iff head.file_id e.archive_file_id,
  ==_iff head.size e.size,
  ==_iff head.digest e.digest,
)

Found-cases :
    (x : Found) → ((head : RemoteInfo) × (x ≡ found head)) ⊎ ((f : Failure) × (x ≡ missing f))
Found-cases (found head) = inl (head, refl)
Found-cases (missing f) = inr (f, refl)

module _ {S : Type 0} (sum : Bytes → Digest) (algo prefix : Bytes) (storage : Storage S) where
  -- The row is archived, and a head is found that has its file id, its size and its digest.
  abbrev pub Verified : Option Listing → FilePath → Site S → Type 0
  Verified listing path site =
      (e : HubEntry) × (entry_lookup path site.store ≡ some e)
      × (e.archive_state ≡ archived)
      × (head : RemoteInfo) × (find_head sum algo prefix storage listing (join_key prefix path)
            site.remote
          ≡ found head)
      × (head.file_id ≡ e.archive_file_id)
      × (head.size ≡ e.size)
      × (head.digest ≡ e.digest)

  -- Nothing; the mark without the removal; or both. A mark is only for a verified head.
  abbrev pub Evicted : Io → Option Listing → FilePath → Site S → Option Failure × Site S → Type 0
  Evicted io listing path site (failure, site') =
      (failure ≢ none) × (site' ≡ site)
      ⊎ Verified listing path site
        × (site'.store ≡ mark_unpinned io.seconds path site.store)
        × (site'.remote ≡ site.remote)
        × ((failure ≢ none) × (site'.disk ≡ site.disk)
            ⊎ (failure ≡ none) × (site'.disk ≡ remove_file path site.disk))

  module _ (io : Io) (listing : Option Listing) (path : FilePath) (site : Site S) where
    refused : (f : Failure) → Evicted io listing path site (some f, site)
    refused f = inl ((λ e. absurd (ground arith)), refl)

    unpin_and_remove-Evicted :
        Verified listing path site
        → Evicted io listing path site (unpin_and_remove sum algo prefix storage io path site)
    unfolding unpin_and_remove
    unpin_and_remove-Evicted v = elim (Bool-cases io.store) [
      | inl broken ↦ rw (broken, unpin_and_remove) (refused store_failed)
      | inr works ↦ elim (Bool-cases io.remove) [
        | inl stays ↦
            rw (works, stays, unpin_and_remove)
              (inr (v, refl, refl, inl ((λ e. absurd (ground arith)), refl)))
        | inr gone ↦ rw (works, gone, unpin_and_remove) (inr (v, refl, refl, inr (refl, refl)))
      ]
    ]

    refused_at :
        (p : Option Failure × Site S) (f : Failure)
        → p ≡ (some f, site)
        → Evicted io listing path site p
    refused_at p f e = rw e (refused f)

    -- Every way through an eviction, with the failures of each call: the local file is removed only
    -- after the row is marked as unpinned, and the row is marked only if it is archived and a head
    -- is found for its key, in the remote store or in the listing, that has the row's file id, size
    -- and digest. Otherwise nothing changes, and the caller has an error.
    pub evict_with-Evicted :
        Evicted io listing path site (evict_with sum algo prefix storage io listing path site)
    unfolding evict_with evict_row
    evict_with-Evicted =
        by_lookup (Bool-cases io.lookup) (Option-cases (entry_lookup path site.store))
      where
        by_row :
            (e : HubEntry)
            → entry_lookup path site.store ≡ some e
            → Evicted io listing path site
                (evict_row sum algo prefix storage io listing path e site)
        by_row e at = elim (Bool-cases (e.archive_state == archived)) [
          | inr other ↦ refused_at _ wrong_state (rw (other, evict_row) refl)
          | inl state ↦
              elim (Found-cases
                (find_head sum algo prefix storage listing (join_key prefix path) site.remote)) [
                  | inr (f, missed) ↦ refused_at _ f (rw (state, missed, evict_row) refl)
                  | inl (head, hit) ↦ elim (Option-cases (head_mismatch head e)) [
                    | inr (f, differs) ↦ refused_at _ f (rw (state, hit, differs, evict_row) refl)
                    | inl matches ↦
                        let (a, b, c) = head_mismatch-none head e matches in
                        let passed : evict_row sum algo prefix storage io listing path e site
                            ≡ unpin_and_remove sum algo prefix storage io path site =
                          rw (state, hit, matches, evict_row) refl in
                        let is_archived = (==_iff e.archive_state archived).0 state in
                        rw passed
                          (unpin_and_remove-Evicted (e, at, is_archived, head, hit, a, b, c))
                  ]
                ]
        ]

        by_lookup :
            (io.lookup ≡ true) ⊎ (io.lookup ≡ false)
            → (entry_lookup path site.store ≡ none)
              ⊎ ((e : HubEntry) × (entry_lookup path site.store ≡ some e))
            → Evicted io listing path site (evict_with sum algo prefix storage io listing path site)
        by_lookup (inl broken) row = refused_at _ lookup_failed (rw (broken, evict_with) refl)
        by_lookup (inr works) (inl e) = refused_at _ no_row (rw (works, e, evict_with) refl)
        by_lookup (inr works) (inr (e, at)) =
            let whole : evict_with sum algo prefix storage io listing path site
                ≡ evict_row sum algo prefix storage io listing path e site =
              rw (works, at, evict_with) refl in
            rw whole (by_row e at)
