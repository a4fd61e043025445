-- ===== src/ClientPush/Delivered.antt =====
-- A push of a client that is in step with the hub.
use hubsync.Prelude.{ℕ, ◌≡◌, refl, ap, ◌∙◌, some, List, [], ◌∷◌, map, Bytes, ℤ, bytes_eq}
use hubsync.Prelude.Table.{NodupKeys}
use hubsync.Model.{Digest, FilePath, hub_tree_path}
use hubsync.Scanner.{Visited}
use hubsync.Store.Materialized.{IsConsistent}
use hubsync.Event.{Remote, Replica}
use hubsync.Push.{Faults, PushRequest, Hub, Now, no_faults, PushOp, fail, process_push, process_ops}
use hubsync.Push.Replicated.{HasRows}
use hubsync.Push.Granted.{accepted_as, process_ops-accepted}
use hubsync.Server.Routes.{Config, send_push, serve_http}
use hubsync.Server.Holds.{auth_middleware-set_auth}
use hubsync.ClientPush.{
  LocalChange, LocalDeletion, scan_local, build_push_ops, push, send_ops, behind_send,
  handle_push_response,
}
use hubsync.ClientPush.Needed.{visited_path}
use hubsync.ClientPush.Answered.{answered, disk-answered}
use hubsync.ClientPush.Quiet.{IsReadable, scan_local_total, handle_push_response-quiet}
use hubsync.ClientPush.Permitted.{build_push_ops-NodupKeys, build_push_ops-AllPermitted}

send_push-process_push :
    (sum sha256 : Bytes → Digest) (config : Config) (env : ℕ → Faults × Now) (req : PushRequest)
    (hub : Hub)
    → (send_push sum sha256 config env req hub).0 ≡ some (process_push sum env req hub).0
unfolding send_push serve_http
send_push-process_push sum sha256 config env req hub =
    rw (auth_middleware-set_auth config.token) refl

send_ops-process_ops :
    (sum sha256 : Bytes → Digest) (config : Config) (remote : Remote) (now : ℤ) (clock : ℕ → Now)
    (hub : Hub) (changes : List LocalChange) (deletions : List LocalDeletion) (ops : List PushOp)
    (r : Replica)
    → send_ops remote now
        (λ req. (send_push sum sha256 config (λ i. (no_faults, clock i)) req hub).0)
        fail
        changes
        deletions
        ops
        r
      ≡ behind_send remote now changes deletions
          (some (process_ops sum (λ i. (no_faults, clock i)) fail ops hub).0)
          r
unfolding process_push process_ops handle_push_response
send_ops-process_ops sum sha256 config remote now clock hub changes deletions [] r = refl
send_ops-process_ops sum sha256 config remote now clock hub changes deletions (op ∷ ops) r =
    ap (λ answer. behind_send remote now changes deletions answer r)
      (send_push-process_push sum sha256 config (λ i. (no_faults, clock i))
        (record { ops = op ∷ ops; on_conflict = fail }) hub)

-- A client and a consistent hub whose rows are the same, when the client pushes what a scan of its
-- directory finds to the hub's route, with the hub's token, without faults and under the FAIL policy;
-- the walk visits no path twice, each file that it visits can be read, and the tree has one row for
-- each path. The hub accepts every operation of the push, the client's files stay as they are, and a
-- scan behind the answer finds nothing more to push.
pub push-Delivered :
    (sum sha256 : Bytes → Digest) (config : Config) (remote : Remote) (now : ℤ) (clock : ℕ → Now)
    (walk : List Visited) (r : Replica) (hub : Hub)
    → NodupKeys visited_path walk
    → NodupKeys hub_tree_path r.store.hub_tree
    → IsReadable r.disk walk
    → IsConsistent hub.store
    → HasRows hub.store r.store
    → let r' =
        (push sum remote now
          (λ req. (send_push sum sha256 config (λ i. (no_faults, clock i)) req hub).0)
          fail
          walk
          r).1 in
      ((changes : List LocalChange) × (deletions : List LocalDeletion) × (version : FilePath → ℕ)
        × (scan_local sum walk r.disk r.store ≡ some (changes, deletions))
        × ((process_ops sum
              (λ i. (no_faults, clock i))
              fail
              (build_push_ops changes deletions)
              hub).0
            ≡ map (accepted_as version) (build_push_ops changes deletions)))
      × (r'.disk ≡ r.disk)
      × (scan_local sum walk r'.disk r'.store ≡ some ([], []))
unfolding push answered
push-Delivered sum sha256 config remote now clock walk r hub w u readable consistent rows =
    let (changes, deletions, scan) = scan_local_total sum walk r.disk r.store readable in
    let ops = build_push_ops changes deletions in
    let (version, answers) =
      process_ops-accepted sum clock ops hub consistent
        (build_push_ops-NodupKeys sum walk r changes deletions w u scan)
        (build_push_ops-AllPermitted sum walk r changes deletions hub w u scan rows) in
    let r' = answered remote now changes deletions version ops r in
    let send =
      λ (req : PushRequest). (send_push sum sha256 config (λ i. (no_faults, clock i)) req hub).0 in
    let run : (push sum remote now send fail walk r).1 ≡ r' =
      rw (scan, push)
        (ap (λ x. x.1)
            (send_ops-process_ops sum sha256 config remote now clock hub changes deletions ops r)
          ∙ ap (λ results. (behind_send remote now changes deletions (some results) r).1)
              answers) in
    (
      (changes, deletions, version, scan, answers),
      ap (λ x. x.disk) run ∙ disk-answered remote now changes deletions version ops r,
      ap (λ x. scan_local sum walk x.disk x.store) run
          ∙ handle_push_response-quiet sum remote now version walk r changes deletions w u readable
              scan,
    )
