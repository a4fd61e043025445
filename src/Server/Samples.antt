-- ===== src/Server/Samples.antt =====
-- A hub with the file `a`, of the bytes 7 and 8, and a client that has those bytes.
use hubsync.Prelude.{
  ℕ, zero, suc, ◌+◌, ◌≡◌, refl, sym, ap, ◌∙◌, arith, none, some, [], ◌∷◌, Bytes, codes, pos, length,
  take, bytes_beq, ◌⊎◌, has_prefix, map, some, bytes_eq, take-nil, drop-nil, ◌-◌, false,
}
use hubsync.Prelude.Table.{find, upsert}
use hubsync.Model.{Digest, create, file, unset, HubEntry}
use hubsync.Disk.{DiskFile}
use hubsync.Store.{empty_store, append, path_by_digest, latest_version, tree_lookup}
use hubsync.Store.Materialized.{IsConsistent, empty_store-IsConsistent, append-IsConsistent}
use hubsync.Bootstrap.{Client, Ending, catchup}
use hubsync.Bootstrap.Samples.{walk_files, as_listed, old_client}
use hubsync.Store.Samples.{change}
use hubsync.Delta.{slice, block_at, block_size_or_default, optimal_block_size}
use hubsync.Delta.RoundTrip.{NoCollision}
use hubsync.Push.{
  Hub, Faults, Now, no_faults, PushRequest, op_update, fail, process_push, version_for_entry,
  accept_write,
}
use hubsync.Event.{fetch_delta}
use hubsync.Server.{asking, zeros}
use hubsync.Server.Routes.{
  Config, Reply, http_error, push_request, serve_http, auth_middleware, fetch_tree_db, hub_remote,
}
use hubsync.Server.Guarded.{serve_http-Guarded, IsPushed, Authorized}
use hubsync.Server.Transfer.{fetch_delta-handle_delta}

abbrev bytes : Bytes
bytes = 7 ∷ 8 ∷ []

abbrev file_a : DiskFile
file_a = record { path = codes "a"; bytes = bytes; mode = 0o644; mtime = pos 7 }

abbrev hub : Hub
hub = record {
  store = (append false 100 (change create (codes "a") (7 ∷ 8 ∷ [])) empty_store).1;
  disk = file_a ∷ [];
  sent = [];
}

abbrev plain : Bytes → Digest
plain b = b

-- 32 bytes that tell short strings apart.
abbrev wide : Bytes → Bytes
wide [] = zeros 32
wide (b ∷ bs) = (1 + b) ∷ zeros 31

length-wide : (b : Bytes) → length (wide b) ≡ 32
length-wide [] = refl
length-wide (b ∷ bs) = refl

-- What a window of the file holds, by where it starts.
abbrev window : ℕ → Bytes
window zero = bytes
window (suc zero) = 8 ∷ []
window (suc (suc j)) = []

windows_apart : (i j : ℕ) → wide (window i) ≡ wide (window j) → window i ≡ window j
windows_apart zero zero e = refl
windows_apart zero (suc zero) e = absurd (ground (arith, e))
windows_apart zero (suc (suc j)) e = absurd (ground (arith, e))
windows_apart (suc zero) zero e = absurd (ground (arith, e))
windows_apart (suc zero) (suc zero) e = refl
windows_apart (suc zero) (suc (suc j)) e = absurd (ground (arith, e))
windows_apart (suc (suc i)) zero e = absurd (ground (arith, e))
windows_apart (suc (suc i)) (suc zero) e = absurd (ground (arith, e))
windows_apart (suc (suc i)) (suc (suc j)) e = refl

slice-window : (j : ℕ) → slice j (j + 1024) bytes ≡ window j
slice-window zero = refl
slice-window (suc zero) = refl
slice-window (suc (suc j)) = ap (take (suc (suc j) + 1024 - suc (suc j))) (drop-nil j) ∙ take-nil _

block_window : (i : ℕ) → block_at bytes 1024 i ≡ window i
unfolding block_at
block_window zero = refl
block_window (suc zero) = refl
block_window (suc (suc i)) = ap (take _) (drop-nil i) ∙ take-nil _

apart : NoCollision wide bytes bytes 1024
apart i j e =
    block_window i
    ∙ windows_apart i j (ap wide (sym (block_window i)) ∙ e ∙ ap wide (slice-window j))
    ∙ sym (slice-window j)

fetch_delta-handle_delta_example :
    fetch_delta plain wide (asking wide (λ url. none) none [] hub) bytes bytes ≡ some bytes
unfolding block_size_or_default optimal_block_size path_by_digest append find upsert bytes_beq
fetch_delta-handle_delta_example =
    fetch_delta-handle_delta plain wide (λ url. none) none [] hub bytes (codes "a") file_a bytes
      length-wide (λ e. absurd (ground arith)) refl refl refl (omega arith) apart

abbrev config : Config
config = record { token = codes "secret"; algo = codes "sha256"; presign = none; prefix = [] }

abbrev env : ℕ → Faults × Now
env i = (no_faults, record { seconds = 100; mtime = pos 100 })

hub-IsConsistent : IsConsistent hub.store
unfolding latest_version
hub-IsConsistent =
    append-IsConsistent false 100 (change create (codes "a") bytes) empty_store
      empty_store-IsConsistent

abbrev row_a : HubEntry
row_a = record {
  path = codes "a";
  kind = file;
  digest = bytes;
  size = 3;
  mode = 0o644;
  mtime = pos 7;
  version = 1;
  archive_state = unset;
  archive_file_id = [];
  archive_sha1 = [];
  archive_uploaded_at = pos 0;
  updated_at = 100;
}

abbrev caught_up : Ending × Client
caught_up =
    catchup plain plain (hub_remote plain plain config env (λ url. none) hub) (pos 9)
      (fetch_tree_db plain plain config env hub) as_listed walk_files old_client

abbrev edit : PushRequest
edit = record {
  ops = record { path = codes "a"; op = op_update; base_version = 1; content = codes "new" } ∷ [];
  on_conflict = fail;
}

abbrev answered : Reply × Hub
answered = serve_http plain plain config env (codes "Bearer secret") (push_request (some edit)) hub

-- The update is accepted, and version 2 is broadcast.
answered_run : map (λ c. c.version) answered.1.sent ≡ 2 ∷ []
unfolding serve_http auth_middleware process_push version_for_entry append find upsert bytes_beq
    has_prefix tree_lookup accept_write
answered_run = refl

serve_http-Guarded_example :
    IsConsistent answered.1.store
    × ((answered.1 ≡ hub)
        ⊎ IsPushed plain plain config env
            (codes "Bearer secret")
            (push_request (some edit))
            hub
            answered)
    × (¬ Authorized (codes "secret") (codes "Bearer secret")
        → (answered.0 ≡ http_error 401) × (answered.1 ≡ hub))
serve_http-Guarded_example =
    serve_http-Guarded plain plain config env (codes "Bearer secret") (push_request (some edit)) hub
      hub-IsConsistent
