-- ===== src/Server/Guarded.antt =====
-- What a request can do to the hub.
use hubsync.Prelude.{
  ℕ, ◌≡◌, refl, sym, ap, ◌∙◌, arith, inl, inr, true, Bool-cases, none, some, [], ◌++◌, Bytes, codes,
  ==_iff, ==_refl, bytes_eq, ◌==◌, drop, has_prefix, has_prefix-append, has_prefix-split, bytes_beq,
  ◌⊎◌,
}
use hubsync.Model.{Digest}
use hubsync.Store.{changes_since}
use hubsync.Store.Materialized.{IsConsistent}
use hubsync.Push.{Hub, Faults, Now, PushRequest, process_push}
use hubsync.Push.Safety.{process_push-broadcasts}
use hubsync.Server.Routes.{
  auth_middleware, Config, Request, Reply, http_error, pushed, push_request, sync_subscribe, blobs,
  blobs_delta, latest_snapshot, snapshot, serve_http,
}

-- No token is asked for, or the header is the bearer's.
abbrev pub Authorized : Bytes → Bytes → Type 0
Authorized token auth = (token ≡ []) ⊎ (auth ≡ codes "Bearer " ++ token)

auth_middleware-Authorized :
    (token auth : Bytes) → auth_middleware token auth ≡ true → Authorized token auth
unfolding auth_middleware
auth_middleware-Authorized token auth h = elim (Bool-cases (token == [])) [
  | inl open' ↦ inl ((==_iff token []).0 open')
  | inr closed ↦
      let bearer : has_prefix auth (codes "Bearer ") ≡ true = ground (arith, h, closed) in
      let same : drop 7 auth ≡ token = ground (arith, h, closed, ==_iff (drop 7 auth) token) in
      inr
        (sym (has_prefix-split auth (codes "Bearer ") bearer) ∙ ap (λ t. codes "Bearer " ++ t) same)
]

Authorized-auth_middleware :
    (token auth : Bytes) → Authorized token auth → auth_middleware token auth ≡ true
unfolding auth_middleware bytes_beq
Authorized-auth_middleware token auth (inl e) = rw e refl
Authorized-auth_middleware token auth (inr e) =
    let bearer : has_prefix auth (codes "Bearer ") ≡ true =
      ap (λ s. has_prefix s (codes "Bearer ")) e ∙ has_prefix-append (codes "Bearer ") token in
    let same : (drop 7 auth == token) ≡ true = ap (λ s. drop 7 s == token) e ∙ ==_refl token in
    ground (arith, bearer, same)

module _ (sum sha256 : Bytes → Digest) (config : Config) (env : ℕ → Faults × Now) where
  -- The hub after a push that was let in.
  abbrev pub IsPushed : Bytes → Request → Hub → Reply × Hub → Type 0
  IsPushed auth request hub (reply, hub') =
      Authorized config.token auth
      × (req : PushRequest) × (request ≡ push_request (some req))
      × (reply ≡ pushed (process_push sum env req hub).0)
      × (hub' ≡ (process_push sum env req hub).1)
      × (hub'.sent ≡ hub.sent ++ changes_since hub.store.last_version hub'.store)

  let_in :
      (auth : Bytes) (request : Request) (hub : Hub)
      → IsConsistent hub.store
      → auth_middleware config.token auth ≡ true
      → let (reply, hub') = serve_http sum sha256 config env auth request hub in
        IsConsistent hub'.store × ((hub' ≡ hub) ⊎ IsPushed auth request hub (reply, hub'))
  unfolding serve_http
  let_in auth (sync_subscribe since) hub h ok = rw ok (h, inl refl)
  let_in auth (blobs digest_hex) hub h ok = rw ok (h, inl refl)
  let_in auth (blobs_delta none) hub h ok = rw ok (h, inl refl)
  let_in auth (blobs_delta (some req)) hub h ok = rw ok (h, inl refl)
  let_in auth (push_request none) hub h ok = rw ok (h, inl refl)
  let_in auth (push_request (some req)) hub h ok =
      let (answers, h', sent) = process_push-broadcasts sum env req hub h in
      rw ok (h', inr (auth_middleware-Authorized config.token auth ok, req, refl, refl, refl, sent))
  let_in auth latest_snapshot hub h ok = rw ok (h, inl refl)
  let_in auth (snapshot version) hub h ok = rw ok (h, inl refl)

  -- A request keeps a consistent hub consistent. It leaves the hub as it is, unless it is a push
  -- whose body decodes, from a client that needs no token or sends exactly the token's bearer header:
  -- the reply then has the push's results, and the hub broadcasts exactly the changes that it records
  -- past its last version. Any other header gets 401, and nothing happens.
  pub serve_http-Guarded :
      (auth : Bytes) (request : Request) (hub : Hub)
      → IsConsistent hub.store
      → let (reply, hub') = serve_http sum sha256 config env auth request hub in
        IsConsistent hub'.store
        × ((hub' ≡ hub) ⊎ IsPushed auth request hub (reply, hub'))
        × (¬ Authorized config.token auth → (reply ≡ http_error 401) × (hub' ≡ hub))
  unfolding serve_http
  serve_http-Guarded auth request hub h = elim (Bool-cases (auth_middleware config.token auth)) [
    | inl ok ↦
        let (h', effect) = let_in auth request hub h ok in
        (h', effect, λ refused. absurd (refused (auth_middleware-Authorized config.token auth ok)))
    | inr refused ↦ rw refused (h, inl refl, λ n. (refl, refl))
  ]
