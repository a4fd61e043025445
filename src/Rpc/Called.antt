-- ===== src/Rpc/Called.antt =====
-- A call over the socket does what the run in the process does.
use hubsync.Prelude.{
  ℕ, ◌≡◌, refl, ap, arith, inl, inr, Bool, true, false, Option, none, some, List, [], ◌∷◌, ◌++◌,
  Bytes, codes, ◌==◌, sort_by, ==_iff, bytes_eq, Bool-cases, length, nat_eq, bytes_beq, drop,
  ==_refl, ◌⊎◌,
}
use hubsync.Model.{FilePath}
use hubsync.Archive.{Storage}
use hubsync.Reconciler.{Site, Io}
use hubsync.Rpc.{
  PinRequest, PinResult, TargetState, target_archived, target_unpinned, RunEnd, bad_glob,
  no_matches, list_failed, results, handle_reconcile, run_reconcile, rpc_auth, match_globs, answer,
}
use hubsync.Rpc.Calls.{serve_rpc, call_rpc, rpc_header, pinned_of, reply_of}

-- What a run in the process gives: results, or an error.
abbrev pub outcome_of : RunEnd → Option (List PinResult)
outcome_of bad_glob = none
outcome_of no_matches = none
outcome_of list_failed = none
outcome_of (results rs) = some rs

-- The client's token is the server's, or the server asks for none.
abbrev pub Admitted : Bytes → Bytes → Type 0
Admitted token own = (token ≡ []) ⊎ (own ≡ token)

rpc_auth-Admitted :
    (token own : Bytes) → rpc_auth token (rpc_header own) ≡ true → Admitted token own
unfolding rpc_auth rpc_header bytes_beq
rpc_auth-Admitted token own h = elim (Bool-cases (token == [])) [
  | inl open' ↦ inl ((==_iff token []).0 open')
  | inr closed ↦ elim (Bool-cases (own == [])) [
    | inl bare ↦ absurd (ground (arith, h, closed, bare))
    | inr given ↦
        let same : (codes "Bearer " ++ own == codes "Bearer " ++ token) ≡ true =
          ground (arith, h, closed, given) in
        inr (ap (drop 7) ((==_iff (codes "Bearer " ++ own) (codes "Bearer " ++ token)).0 same))
  ]
]

Admitted-rpc_auth :
    (token own : Bytes) → Admitted token own → rpc_auth token (rpc_header own) ≡ true
unfolding rpc_auth rpc_header bytes_beq
Admitted-rpc_auth token own (inl e) = rw e refl
Admitted-rpc_auth token own (inr e) = elim (Bool-cases (token == [])) [
  | inl open' ↦ rw open' refl
  | inr closed ↦ rw (closed, e, closed) (==_refl (codes "Bearer " ++ token))
]

answer-outcome_of : (end : RunEnd) → pinned_of (reply_of (answer end)) ≡ outcome_of end
answer-outcome_of bad_glob = refl
answer-outcome_of no_matches = refl
answer-outcome_of list_failed = refl
answer-outcome_of (results rs) = refl

module _ {S : Type 0} (sum : Bytes → Bytes) (algo prefix : Bytes) (storage : Storage S)
    (match : Bytes → FilePath → Option Bool) (token : Bytes) (query_fails : Bool) where
  -- The run in the process: its results, and what it leaves.
  abbrev pub run_here :
      TargetState → (ℕ → ℕ → Io) → PinRequest → Site S → Option (List PinResult) × Site S
  run_here target io req site =
      let (end, site') = run_reconcile sum algo prefix storage match req target io site in
      (outcome_of end, site')

  handled :
      (globs : List Bytes) (dry : Bool) (target : TargetState) (io : ℕ → ℕ → Io) (site : Site S)
      → let req : PinRequest = record { globs = globs; dry = dry } in
        let (a, site') =
          handle_reconcile sum algo prefix storage match target io true (some req) site in
        (pinned_of (reply_of a), site') ≡ run_here target io req site
  unfolding handle_reconcile run_reconcile match_globs sort_by
  handled [] dry target io site = refl
  handled (glob ∷ globs) dry target io site =
      let req : PinRequest = record { globs = glob ∷ globs; dry = dry } in
      let (end, site') = run_reconcile sum algo prefix storage match req target io site in
      let given : (length (glob ∷ globs) == 0) ≡ false = ground arith in
      rw given (ap (λ o. (o, site')) (answer-outcome_of end))

  -- A call to pin or unpin over the socket, at a server with an archive: a client with the server's
  -- token, or any client of a server without one, gets exactly the results of the run in the process,
  -- or an error where that ends with one, and the hub is left as that run leaves it. Any other client
  -- gets an error, and nothing changes.
  pub call_rpc-run_reconcile :
      (own : Bytes) (target : TargetState) (io : ℕ → ℕ → Io) (req : PinRequest) (site : Site S)
      → (Admitted token own
          → call_rpc sum algo prefix storage match token true query_fails io own target req site
            ≡ run_here target io req site)
        × (¬ Admitted token own
            → call_rpc sum algo prefix storage match token true query_fails io own target req site
              ≡ (none, site))
  unfolding call_rpc serve_rpc
  call_rpc-run_reconcile own target_archived io req site = (
    (λ admitted.
        rw (Admitted-rpc_auth token own admitted)
          (handled req.globs req.dry target_archived io site)),
    λ stranger. elim (Bool-cases (rpc_auth token (rpc_header own))) [
      | inl ok ↦ absurd (stranger (rpc_auth-Admitted token own ok))
      | inr denied ↦ rw denied refl
    ],
  )
  call_rpc-run_reconcile own target_unpinned io req site = (
    (λ admitted.
        rw (Admitted-rpc_auth token own admitted)
          (handled req.globs req.dry target_unpinned io site)),
    λ stranger. elim (Bool-cases (rpc_auth token (rpc_header own))) [
      | inl ok ↦ absurd (stranger (rpc_auth-Admitted token own ok))
      | inr denied ↦ rw denied refl
    ],
  )
