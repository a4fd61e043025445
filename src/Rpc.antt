-- ===== src/Rpc.antt =====
-- rpc.go, with `MatchGlobs` of store.go: pinning and unpinning by globs. The glob matcher is the
-- doublestar package's.
mod Ls
mod Status
pub mod Covered
pub mod Lookup
pub mod FakeListing
pub mod Listed
pub mod LocalLs
pub mod Calls
pub mod Called
mod Samples
unfoldable pub use Ls.*
unfoldable pub use Status.*
use hubsync.Prelude.{
  ℕ, ◌+◌, Bool, true, false, ◌&&◌, ◌||◌, not, Option, none, some, List, [], ◌∷◌, ◌++◌, map, Bytes,
  codes, take, drop, length, select, has_prefix, index_of, trim_suffix, sort_by, pos, if◌then◌else◌,
  ◌==◌, nat_eq, bytes_eq,
}
use hubsync.Prelude.Table.{find, upsert}
use hubsync.Model.{
  FilePath, FileKind, file, directory, symlink, ArchiveState, unset, dirty, archived, unpinned,
  HubEntry, hub_path,
}
use hubsync.Store.{HubStore}
use hubsync.Archive.{RemoteInfo, Storage, join_key}
use hubsync.Reconciler.{
  Plan, PlanStep, Failure, Site, Io, Listing, listing_key, plan_pin, plan_unpin, apply,
}

-- `auth`: whether a request with this header goes on.
unfoldable pub rpc_auth : Bytes → Bytes → Bool
rpc_auth token auth = if token == [] then true else auth == codes "Bearer " ++ token

-- The bytes that end a literal prefix: * ? [ { \.
abbrev is_meta : ℕ → Bool
is_meta c = c == 42 || c == 63 || c == 91 || c == 123 || c == 92

unfoldable pub literal_prefix : Bytes → Bytes
literal_prefix [] = []
literal_prefix (c ∷ glob) = let rest = literal_prefix glob in if is_meta c then [] else c ∷ rest

-- One glob over the rows, behind the paths so far; `none` is the error of a bad glob.
module _ (match : Bytes → FilePath → Option Bool) where
  unfoldable pub match_glob : Bytes → List HubEntry → List FilePath → Option (List FilePath)
  unfolding is_in
  match_glob glob [] out = some out
  match_glob glob (e ∷ entries) out = elim (match glob e.path) [
    | none ↦ none
    | some ok ↦
        match_glob glob entries (if ok && not (is_in e.path out) then out ++ e.path ∷ [] else out)
  ]

  unfoldable pub match_all : List Bytes → List HubEntry → List FilePath → Option (List FilePath)
  unfolding match_glob
  match_all [] entries out = some out
  match_all (glob ∷ globs) entries out = elim (match_glob glob entries out) [
    | none ↦ none
    | some out' ↦ match_all globs entries out'
  ]

  unfoldable pub match_globs : List Bytes → HubStore → Option (List FilePath)
  unfolding match_all
  match_globs globs store = elim (match_all globs store.hub_entry []) [
    | none ↦ none
    | some out ↦ some (sort_by (λ p. p) out)
  ]

-- The entries of a listing by key; markers of common prefixes are dropped.
unfoldable pub merged : List RemoteInfo → Listing → Listing
merged [] m = m
merged (e ∷ entries) m = merged entries (if e.file_id == [] then m else upsert listing_key e m)

module _ {S : Type 0} (prefix : Bytes) (storage : Storage S) where
  -- The loop over the globs, each prefix once; `none` is an error of a listing.
  unfoldable pub lookup_from : List Bytes → List Bytes → S → Listing → Option Listing
  unfolding literal_prefix is_in merged
  lookup_from [] seen s m = some m
  lookup_from (glob ∷ globs) seen s m =
      let key = join_key prefix (literal_prefix glob) in
      let (entries, ok) = storage.list_keys key [] s in
      let again = lookup_from globs seen s m in
      let further = lookup_from globs (key ∷ seen) s (merged entries m) in
      if is_in key seen then again else if ok then further else none

  unfoldable pub remote_lookup_for_globs : List Bytes → S → Option Listing
  unfolding lookup_from
  remote_lookup_for_globs globs s = lookup_from globs [] s []

pub record PinRequest : Type 0 where
  pub globs : List Bytes
  pub dry : Bool

pub data TargetState : Type 0 where
  target_archived target_unpinned : TargetState

pub record PinResult : Type 0 where
  pub path : FilePath
  pub starting_state : Option ArchiveState
  pub steps : List PlanStep
  pub failure : Option Failure
  pub dry : Bool

pub data RunEnd : Type 0 where
  bad_glob no_matches list_failed : RunEnd
  results : List PinResult → RunEnd

module _ {S : Type 0} (sum : Bytes → Bytes) (algo prefix : Bytes) (storage : Storage S) where
  abbrev plan_for : TargetState → FilePath → Site S → Plan × Option Failure
  plan_for target_archived path site = plan_pin path site
  plan_for target_unpinned path site = plan_unpin path site

  abbrev applied :
      Bool → (ℕ → Io) → Option Listing → Plan → Option Failure → Site S → Option Failure × Site S
  applied dry io listing plan (some f) site = (some f, site)
  applied true io listing plan none site = (none, site)
  applied false io listing plan none site = apply sum algo prefix storage io listing plan site

  unfoldable pub reconcile_one :
      TargetState → Bool → (ℕ → Io) → Option Listing → FilePath → Site S → PinResult × Site S
  unfolding plan_pin plan_unpin apply
  reconcile_one target dry io listing path site =
      let (plan, problem) = plan_for target path site in
      let (failure, site') = applied dry io listing plan problem site in
      (
        record {
          path = path;
          starting_state = plan.starting_state;
          steps = plan.steps;
          failure = failure;
          dry = dry;
        },
        site',
      )

  unfoldable pub reconcile_all :
      TargetState
      → Bool
      → (ℕ → ℕ → Io)
      → Option Listing
      → List FilePath
      → Site S
      → List PinResult × Site S
  unfolding reconcile_one
  reconcile_all target dry io listing [] site = ([], site)
  reconcile_all target dry io listing (path ∷ paths) site =
      let (one, site') = reconcile_one target dry (io 0) listing path site in
      let (more, site'') = reconcile_all target dry (λ i. io (i + 1)) listing paths site' in
      (one ∷ more, site'')

  -- Whether the run takes a listing first: an unpin that is not dry.
  abbrev takes_listing : TargetState → Bool → Bool
  takes_listing target_archived dry = false
  takes_listing target_unpinned dry = not dry

  abbrev with_listing :
      PinRequest
      → TargetState
      → (ℕ → ℕ → Io)
      → List FilePath
      → Option Listing
      → Site S
      → RunEnd × Site S
  with_listing req target io matches none site = (list_failed, site)
  with_listing req target io matches (some listing) site =
      let (rs, site') = reconcile_all target req.dry io (some listing) matches site in
      (results rs, site')

  abbrev over_matches :
      PinRequest → TargetState → (ℕ → ℕ → Io) → Option (List FilePath) → Site S → RunEnd × Site S
  over_matches req target io none site = (bad_glob, site)
  over_matches req target io (some []) site = (no_matches, site)
  over_matches req target io (some (path ∷ matches)) site =
      if takes_listing target req.dry
      then with_listing req target io (path ∷ matches)
          (remote_lookup_for_globs prefix storage req.globs site.remote) site
      else let (rs, site') = reconcile_all target req.dry io none (path ∷ matches) site in
        (results rs, site')

  unfoldable pub run_reconcile :
      (Bytes → FilePath → Option Bool)
      → PinRequest
      → TargetState
      → (ℕ → ℕ → Io)
      → Site S
      → RunEnd × Site S
  unfolding match_globs remote_lookup_for_globs reconcile_all
  run_reconcile match req target io site =
      over_matches req target io (match_globs match req.globs site.store) site

-- The answer to a pin or unpin request: the status of an error, or the results.
pub data Answer : Type 0 where
  http_error : ℕ → Answer
  answered : List PinResult → Answer

abbrev pub answer : RunEnd → Answer
answer bad_glob = http_error 400
answer no_matches = http_error 404
answer list_failed = http_error 400
answer (results rs) = answered rs

-- `handleReconcile`, with the parsed body, or `none`.
module _ {S : Type 0} (sum : Bytes → Bytes) (algo prefix : Bytes) (storage : Storage S) where
  abbrev handle_request :
      (Bytes → FilePath → Option Bool)
      → TargetState
      → (ℕ → ℕ → Io)
      → Option PinRequest
      → Site S
      → Answer × Site S
  handle_request match target io none site = (http_error 400, site)
  handle_request match target io (some req) site =
      let (end, site') = run_reconcile sum algo prefix storage match req target io site in
      if length req.globs == 0 then (http_error 400, site) else (answer end, site')

  unfoldable pub handle_reconcile :
      (Bytes → FilePath → Option Bool)
      → TargetState
      → (ℕ → ℕ → Io)
      → Bool
      → Option PinRequest
      → Site S
      → Answer × Site S
  unfolding run_reconcile
  handle_reconcile match target io configured body site =
      if configured then handle_request match target io body site else (http_error 503, site)
