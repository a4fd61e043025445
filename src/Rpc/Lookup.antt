-- ===== src/Rpc/Lookup.antt =====
-- A run over many paths with one listing for each glob sees the heads that a request for each path
-- would see.
use hubsync.Prelude.{
  ◌≡◌, refl, ap, arith, inl, inr, Bool, true, false, Bool-cases, Option-cases, Option, none, some,
  List, [], ◌∷◌, ◌++◌, append_assoc, Bytes, codes, has_prefix, has_prefix-append-append,
  trim_prefix, trim_suffix, if◌then◌else◌, ◌==◌, bytes_eq, not, In,
}
use hubsync.Prelude.Table.{find}
use hubsync.Model.{FilePath, Digest, HubEntry, archived, state_eq}
use hubsync.Archive.{RemoteInfo, Storage, Head, head_of, not_exist, head_failed, join_key}
use hubsync.Archive.Key.{IsRelative}
use hubsync.Reconciler.{
  Listing, listing_key, Found, found, missing, find_head, Failure, Site, Io, evict_with, evict_row,
  not_listed, no_head, head_mismatch, unpin_and_remove, wrong_state,
}
use hubsync.Store.{entry_lookup}
use hubsync.Rpc.{literal_prefix, is_in, remote_lookup_for_globs}
use hubsync.Rpc.Covered.{
  info_of, IsListing, head_at, Covered, IsTrue, SeenCovered, lookup_from-Covered, or_else-none,
}

trim_prefix-has_prefix :
    (path lit : Bytes)
    → IsRelative path
    → has_prefix path lit ≡ true
    → has_prefix (trim_prefix path (codes "/")) (trim_prefix lit (codes "/")) ≡ true
unfolding trim_prefix has_prefix
trim_prefix-has_prefix path [] rel h = refl
trim_prefix-has_prefix [] (d ∷ lit) rel h = absurd (ground (arith, h))
trim_prefix-has_prefix (c ∷ path) (d ∷ lit) rel h = ground (arith, rel, h)

has_prefix-join_key :
    (prefix path lit : Bytes)
    → IsRelative path
    → has_prefix path lit ≡ true
    → has_prefix (join_key prefix path) (join_key prefix lit) ≡ true
unfolding join_key
has_prefix-join_key prefix path lit rel h = elim (Bool-cases (prefix == [])) [
  | inl none_given ↦ rw none_given (trim_prefix-has_prefix path lit rel h)
  | inr given ↦ rw given (
      ground (
        arith,
        append_assoc (trim_suffix prefix (codes "/")) (codes "/") (trim_prefix path (codes "/")),
        append_assoc (trim_suffix prefix (codes "/")) (codes "/") (trim_prefix lit (codes "/")),
        has_prefix-append-append (trim_suffix prefix (codes "/") ++ codes "/")
            (trim_prefix path (codes "/")) (trim_prefix lit (codes "/")),
        trim_prefix-has_prefix path lit rel h,
      ))
]

-- How an eviction ends, without the reason of a failure.
abbrev pub ended : {S : Type 0} → Option Failure × Site S → Bool × Site S
ended (none, site) = (true, site)
ended (some f, site) = (false, site)

module _ {S : Type 0} (sum : Bytes → Digest) (algo prefix : Bytes) (storage : Storage S) (io : Io)
    (listing : Listing) (path : FilePath) (site : Site S)
    (same : find listing_key (join_key prefix path) listing
      ≡ info_of (storage.head_by_key (join_key prefix path) site.remote)) where
  abbrev with_head : Found → HubEntry → Option Failure × Site S
  with_head (missing failure) e = (some failure, site)
  with_head (found head) e = elim (head_mismatch head e) [
    | some failure ↦ (some failure, site)
    | none ↦ unpin_and_remove sum algo prefix storage io path site
  ]

  found_in : Option RemoteInfo → Found
  found_in none = missing not_listed
  found_in (some i) = found i

  requested : Head → Found
  requested (head_of i) = found i
  requested not_exist = missing no_head
  requested head_failed = missing no_head

  ended-with_head :
      (h : Head) (e : HubEntry)
      → ended (with_head (found_in (info_of h)) e) ≡ ended (with_head (requested h) e)
  unfolding found_in requested
  ended-with_head (head_of i) e = refl
  ended-with_head not_exist e = refl
  ended-with_head head_failed e = refl

  find_head-listing :
      find_head sum algo prefix storage (some listing) (join_key prefix path) site.remote
      ≡ found_in (find listing_key (join_key prefix path) listing)
  unfolding find_head found_in
  find_head-listing = ground arith

  find_head-request :
      find_head sum algo prefix storage none (join_key prefix path) site.remote
      ≡ requested (storage.head_by_key (join_key prefix path) site.remote)
  unfolding find_head requested
  find_head-request = ground arith

  evict_row-with_head :
      (lookup : Option Listing) (e : HubEntry)
      → evict_row sum algo prefix storage io lookup path e site ≡ (
          if not (e.archive_state == archived)
          then (some wrong_state, site)
          else with_head
              (find_head sum algo prefix storage lookup (join_key prefix path) site.remote)
              e)
  unfolding evict_row
  evict_row-with_head lookup e = ground arith

  evict_row-same :
      (e : HubEntry)
      → ended (evict_row sum algo prefix storage io (some listing) path e site)
        ≡ ended (evict_row sum algo prefix storage io none path e site)
  evict_row-same e = ground (
    arith,
    evict_row-with_head (some listing) e,
    evict_row-with_head none e,
    find_head-listing,
    find_head-request,
    ap found_in same,
    ended-with_head (storage.head_by_key (join_key prefix path) site.remote) e,
  )

  evict_with-same :
      ended (evict_with sum algo prefix storage io (some listing) path site)
      ≡ ended (evict_with sum algo prefix storage io none path site)
  unfolding evict_with
  evict_with-same = elim (Bool-cases io.lookup) [
    | inl bad ↦ rw bad refl
    | inr good ↦ elim (Option-cases (entry_lookup path site.store)) [
      | inl no_entry ↦ ground (arith, good, no_entry)
      | inr (e, at) ↦ ground (arith, good, at, evict_row-same e)
    ]
  ]

-- Where a path has the literal prefix of one of the globs, the listings do not fail, and the remote
-- store is the one that was listed, an eviction with the
-- table of the listings ends as the eviction that asks for the head of its key: in the same state of
-- the hub, and both with success or both with a failure. The storage keeps the promises of listings,
-- and no object changes between the listings and the eviction.
pub evict_with-remote_lookup :
    {S : Type 0} {Good : S → Type 0} (sum : Bytes → Digest) (algo prefix : Bytes)
    (storage : Storage S) (io : Io) (globs : List Bytes) (glob : Bytes) (path : FilePath)
    (site : Site S) (listing : Listing)
    → IsListing storage Good
    → Good site.remote
    → remote_lookup_for_globs prefix storage globs site.remote ≡ some listing
    → In glob globs
    → IsRelative path
    → has_prefix path (literal_prefix glob) ≡ true
    → ended (evict_with sum algo prefix storage io (some listing) path site)
      ≡ ended (evict_with sum algo prefix storage io none path site)
unfolding remote_lookup_for_globs Covered IsTrue SeenCovered head_at is_in find
evict_with-remote_lookup sum algo prefix storage io globs glob path site listing law good e i rel
      below =
    let (_, new) =
      lookup_from-Covered prefix storage law globs [] site.remote [] listing good
        (λ k. or_else-none (info_of (storage.head_by_key k site.remote)))
        (λ q h. absurd (ground (arith, h))) e in
    evict_with-same sum algo prefix storage io listing path site (
      new glob i (join_key prefix path)
        (has_prefix-join_key prefix path (literal_prefix glob) rel below))
