-- ===== src/Server/Routes.antt =====
-- server.go: the routes behind the bearer check of auth.go, and the client's requests to them. A body
-- comes decoded, or as `none`.
use hubsync.Prelude.{
  ℕ, Bool, true, ◌&&◌, Option, none, some, List, [], ◌∷◌, ◌++◌, Bytes, codes, ℤ, pos, negsuc, drop,
  has_prefix, parse_int, decimal, if◌then◌else◌, ◌==◌, nat_eq, bytes_eq,
}
use hubsync.Model.{Digest}
use hubsync.Model.Text.{hex, parse_digest}
use hubsync.Store.{latest_version}
use hubsync.ClientStore.{ClientStore}
use hubsync.Delta.{BlockSig}
use hubsync.Delta.Wire.{DeltaResponse}
use hubsync.Push.{Hub, Faults, Now, PushRequest, PushResult, process_push}
use hubsync.Event.{Remote}
use hubsync.Snapshot.{generate_client_db}
use hubsync.Server.{BlobReply, handle_blob, handle_delta, served_blob}

-- `AuthMiddleware`: whether a request with this header goes on.
unfoldable pub auth_middleware : Bytes → Bytes → Bool
auth_middleware token auth =
    if token == [] then true else has_prefix auth (codes "Bearer ") && drop 7 auth == token

-- `setAuth` of the client; without a token there is no header.
unfoldable pub set_auth : Bytes → Bytes
set_auth [] = []
set_auth (b ∷ token) = codes "Bearer " ++ b ∷ token

pub record DeltaRequest : Type 0 where
  pub target_digest : Digest
  pub block_size : ℕ
  pub signature : List BlockSig

-- The routes, with the text of the path or of the query.
pub data Request : Type 0 where
  sync_subscribe blobs : Bytes → Request
  blobs_delta : Option DeltaRequest → Request
  push_request : Option PushRequest → Request
  latest_snapshot : Request
  snapshot : Bytes → Request

-- `failed` is a status of the delta handler that is not 200; a stream begins behind a version.
pub data Reply : Type 0 where
  http_error : ℕ → Reply
  stream : ℕ → Reply
  blob : BlobReply → Reply
  delta_failed : Reply
  delta : DeltaResponse → Reply
  pushed : List PushResult → Reply
  moved : Bytes → Reply
  database : ClientStore → Reply
  negative_database : Reply

-- Versions start at 1, so a negative `since` sends what 0 does.
abbrev since_of : Option ℤ → Reply
since_of none = http_error 400
since_of (some (pos n)) = stream n
since_of (some (negsuc n)) = stream 0

abbrev subscribe_reply : Bytes → Reply
subscribe_reply [] = stream 0
subscribe_reply (c ∷ since) = since_of (parse_int (c ∷ since))

abbrev latest_reply : ℕ → Reply
latest_reply version = if version == 0 then http_error 404 else moved (decimal version)

-- A negative version, which no redirect names, has a database that is not modelled.
abbrev snapshot_reply : Bytes → Hub → Option ℤ → Reply
snapshot_reply algo hub none = http_error 400
snapshot_reply algo hub (some (pos version)) = database (generate_client_db hub.store version algo)
snapshot_reply algo hub (some (negsuc n)) = negative_database

abbrev delta_reply : Option DeltaResponse → Reply
delta_reply none = delta_failed
delta_reply (some response) = delta response

abbrev database_of : Reply → Option ClientStore
database_of (database store) = some store
database_of reply = none

abbrev blob_of : (Bytes → Option Bytes) → Reply → Option Bytes
blob_of fetch (blob reply) = served_blob fetch reply
blob_of fetch reply = none

abbrev delta_of : Reply → Option DeltaResponse
delta_of (delta response) = some response
delta_of reply = none

abbrev results_of : Reply → Option (List PushResult)
results_of (pushed results) = some results
results_of reply = none

-- `Server`: the token, the name of the hasher, the presigner if there is an archive, and the prefix.
pub record Config : Type 0 where
  pub token : Bytes
  pub algo : Bytes
  pub presign : Option (Bytes → Option Bytes)
  pub prefix : Bytes

module _ (sum sha256 : Bytes → Digest) (config : Config) (env : ℕ → Faults × Now) where
  abbrev blob_reply : Option Digest → Hub → Reply
  blob_reply none hub = http_error 400
  blob_reply (some digest) hub = blob (handle_blob config.presign config.prefix digest hub)

  abbrev route : Request → Hub → Reply × Hub
  route (sync_subscribe since) hub = (subscribe_reply since, hub)
  route (blobs digest_hex) hub = (blob_reply (parse_digest digest_hex) hub, hub)
  route (blobs_delta none) hub = (http_error 400, hub)
  route (blobs_delta (some req)) hub =
      (delta_reply (handle_delta sha256 req.target_digest req.block_size req.signature hub), hub)
  route (push_request none) hub = (http_error 400, hub)
  route (push_request (some req)) hub =
      let (results, hub') = process_push sum env req hub in (pushed results, hub')
  route latest_snapshot hub = (latest_reply (latest_version hub.store), hub)
  route (snapshot version) hub = (snapshot_reply config.algo hub (parse_int version), hub)

  unfoldable pub serve_http : Bytes → Request → Hub → Reply × Hub
  unfolding auth_middleware parse_int parse_digest handle_blob handle_delta process_push
      latest_version generate_client_db
  serve_http auth request hub =
      if auth_middleware config.token auth then route request hub else (http_error 401, hub)

  -- The answer to `GET /snapshots-tree/latest`, whose redirect the client follows with its token.
  abbrev followed : Reply → Hub → Option ClientStore
  followed (moved version) hub =
      database_of (serve_http (set_auth config.token) (snapshot version) hub).0
  followed reply hub = database_of reply

  unfoldable pub fetch_tree_db : Hub → Option ClientStore
  unfolding serve_http set_auth
  fetch_tree_db hub = followed (serve_http (set_auth config.token) latest_snapshot hub).0 hub

  -- `sendPush` of the client, with the hub's token.
  unfoldable pub send_push : PushRequest → Hub → Option (List PushResult) × Hub
  unfolding serve_http set_auth
  send_push req hub =
      let (reply, hub') = serve_http (set_auth config.token) (push_request (some req)) hub in
      (results_of reply, hub')

  -- What a client with the hub's token gets from it; `fetch` follows a redirect to the archive.
  unfoldable pub hub_remote : (Bytes → Option Bytes) → Hub → Remote
  unfolding serve_http set_auth hex
  hub_remote fetch hub = record {
    blob = λ digest. blob_of fetch (serve_http (set_auth config.token) (blobs (hex digest)) hub).0;
    post_delta = λ digest block_size sigs.
        delta_of
          (serve_http (set_auth config.token)
            (blobs_delta
              (some (record { target_digest = digest; block_size = block_size; signature = sigs })))
            hub).0;
  }
