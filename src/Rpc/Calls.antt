-- ===== src/Rpc/Calls.antt =====
-- The routes of the RPC server of rpc.go behind its token, and the calls of its client. The socket
-- carries what is written to it, and a body of JSON is read as what was encoded.
use hubsync.Prelude.{
  ℕ, Bool, true, false, Option, none, some, List, [], ◌++◌, Bytes, codes, if◌then◌else◌, ◌==◌,
  bytes_eq,
}
use hubsync.Model.{FilePath}
use hubsync.Archive.{Storage}
use hubsync.Reconciler.{Site, Io}
use hubsync.Rpc.{
  PinRequest, PinResult, TargetState, target_archived, target_unpinned, Answer, http_error,
  answered, handle_reconcile, rpc_auth, StatusResponse, local_status,
}

-- A route with its body; `none` is a body that does not decode.
pub data RpcRequest : Type 0 where
  rpc_pin rpc_unpin : Option PinRequest → RpcRequest
  rpc_status unknown_route : RpcRequest

pub data RpcReply : Type 0 where
  rpc_error : ℕ → RpcReply
  pin_response : List PinResult → RpcReply
  status_response : StatusResponse → RpcReply

abbrev pub reply_of : Answer → RpcReply
reply_of (http_error status) = rpc_error status
reply_of (answered rs) = pin_response rs

-- `handleStatus`; the query may fail.
abbrev handle_status : Bool → {S : Type 0} → Site S → RpcReply
handle_status true site = rpc_error 500
handle_status false site = status_response (local_status site.store)

-- The header of `callRPC`; without a token there is none.
unfoldable pub rpc_header : Bytes → Bytes
rpc_header token = if token == [] then [] else codes "Bearer " ++ token

-- The body of an answer with status 200.
abbrev pub pinned_of : RpcReply → Option (List PinResult)
pinned_of (rpc_error status) = none
pinned_of (pin_response rs) = some rs
pinned_of (status_response s) = none

abbrev pub status_of : RpcReply → Option StatusResponse
status_of (rpc_error status) = none
status_of (pin_response rs) = none
status_of (status_response s) = some s

module _ {S : Type 0} (sum : Bytes → Bytes) (algo prefix : Bytes) (storage : Storage S)
    (match : Bytes → FilePath → Option Bool) (token : Bytes) (configured query_fails : Bool) where
  abbrev handle_target : TargetState → (ℕ → ℕ → Io) → Option PinRequest → Site S → RpcReply × Site S
  handle_target target io body site =
      let (a, site') =
        handle_reconcile sum algo prefix storage match target io configured body site in
      (reply_of a, site')

  -- A route of the mux behind `auth`; the mux answers for the others itself.
  unfoldable pub serve_rpc : (ℕ → ℕ → Io) → Bytes → RpcRequest → Site S → RpcReply × Site S
  unfolding handle_reconcile local_status rpc_auth
  serve_rpc io auth (rpc_pin body) site =
      if rpc_auth token auth
      then handle_target target_archived io body site
      else (rpc_error 401, site)
  serve_rpc io auth (rpc_unpin body) site =
      if rpc_auth token auth
      then handle_target target_unpinned io body site
      else (rpc_error 401, site)
  serve_rpc io auth rpc_status site =
      if rpc_auth token auth then (handle_status query_fails site, site) else (rpc_error 401, site)
  serve_rpc io auth unknown_route site = (rpc_error 404, site)

  abbrev request_for : TargetState → PinRequest → RpcRequest
  request_for target_archived req = rpc_pin (some req)
  request_for target_unpinned req = rpc_unpin (some req)

  -- `Pin` and `Unpin` of a client that reaches the socket; `none` is the error of any other status.
  unfoldable pub call_rpc :
      (ℕ → ℕ → Io) → Bytes → TargetState → PinRequest → Site S → Option (List PinResult) × Site S
  unfolding serve_rpc rpc_header
  call_rpc io own target req site =
      let (reply, site') = serve_rpc io (rpc_header own) (request_for target req) site in
      (pinned_of reply, site')

  -- `Status` of the client.
  unfoldable pub call_status : (ℕ → ℕ → Io) → Bytes → Site S → Option StatusResponse
  unfolding serve_rpc rpc_header
  call_status io own site = status_of (serve_rpc io (rpc_header own) rpc_status site).0
