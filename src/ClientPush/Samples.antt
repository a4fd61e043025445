-- ===== src/ClientPush/Samples.antt =====
-- A client with an edited file, a new one and one that is gone.
use hubsync.Prelude.{
  ℕ, ◌≡◌, refl, sym, arith, none, some, List, [], ◌∷◌, map, Bytes, codes, pos, true, false,
  bytes_beq, bytes_eq, decimal, split_path, split_ext,
}
use hubsync.Prelude.Table.{find, upsert, NodupKeys}
use hubsync.Model.{Digest, FilePath, file, HubTreeEntry, hub_tree_path}
use hubsync.Disk.{Disk, DiskFile}
use hubsync.ClientStore.{ClientStore, fresh_client, apply_change}
use hubsync.Event.{Remote, Replica}
use hubsync.Scanner.{Visited}
use hubsync.Push.{Hub, Now, no_faults, process_ops, accepted, fail}
use hubsync.ClientPush.{
  LocalChange, LocalDeletion, scan_local, changes_of, deletions_of, is_seen, build_push_ops,
  update_hub_tree_after_push, conflicted_name, first_free, conflicted_copy_path,
  handle_push_response, push, pending_push_paths,
}
use hubsync.Push.Granted.{accepted_as}
use hubsync.ClientPush.Quiet.{IsReadable}
use hubsync.Server.Routes.{Config, send_push}
use hubsync.ClientPush.Delivered.{push-Delivered}
use hubsync.Store.{append}
use hubsync.Store.Log.{replay, replay_one}
use hubsync.Store.Samples.{two_files, two_files-IsConsistent}

abbrev plain : Bytes → Digest
plain bytes = bytes

abbrev local : Bytes → Bytes → DiskFile
local path bytes = record { path = path; bytes = bytes; mode = 0o600; mtime = pos 9 }

abbrev disk : Disk
disk =
    local (codes "d/a.txt") (codes "mine")
    ∷ local (codes "d/a (conflicted copy).txt") (codes "older")
    ∷ []

abbrev row : Bytes → Bytes → ℕ → HubTreeEntry
row path digest version = record {
  entry = record {
    path = path;
    kind = file;
    digest = digest;
    size = 3;
    mode = 0o644;
    mtime = pos 7;
  };
  version = version;
}

abbrev store : ClientStore
store = record {
  hub_tree = row (codes "d/a.txt") (codes "old") 4 ∷ row (codes "b") (codes "was") 5 ∷ [];
  hub_version = 5;
  hash_algo = codes "sha256";
}

abbrev visited : Bytes → Visited
visited path = record { path = path; is_dir = false; size = 4; mtime = pos 9 }

abbrev walk : List Visited
walk =
    record { path = codes "d"; is_dir = true; size = 0; mtime = pos 9 }
    ∷ visited (codes "d/a (conflicted copy).txt")
    ∷ visited (codes "d/a.txt")
    ∷ []

abbrev replica : Replica
replica = record { store = store; disk = disk; local_edits = none }

abbrev edited : LocalChange
edited = record {
  path = codes "d/a.txt";
  digest = codes "mine";
  content = codes "mine";
  hub_entry = some (row (codes "d/a.txt") (codes "old") 4);
}

abbrev new_copy : LocalChange
new_copy = record {
  path = codes "d/a (conflicted copy).txt";
  digest = codes "older";
  content = codes "older";
  hub_entry = none;
}

abbrev gone : LocalDeletion
gone = record { path = codes "b"; hub_entry = row (codes "b") (codes "was") 5 }

scan_run : scan_local plain walk disk store ≡ some (new_copy ∷ edited ∷ [], gone ∷ [])
unfolding scan_local changes_of deletions_of is_seen find bytes_beq
scan_run = refl

second_name_run :
    conflicted_copy_path (codes "d/a.txt") disk ≡ some (codes "d/a (conflicted copy 2).txt")
unfolding conflicted_copy_path first_free conflicted_name find bytes_beq split_path split_ext
    decimal
second_name_run = refl

abbrev remote : Remote
remote = record { blob = λ digest. some (codes "theirs"); post_delta = λ digest size sigs. none }

-- A client with the rows of a hub, which has edited `a`, lost `b`, and made `c`.
abbrev in_step : Replica
in_step = record {
  store = record fresh_client { hub_tree = replay [] two_files.change_log; hub_version = 2 };
  disk = local (codes "a") (codes "mine") ∷ local (codes "c") (codes "more") ∷ [];
  local_edits = none;
}

abbrev their_hub : Hub
their_hub = record { store = two_files; disk = []; sent = [] }

abbrev config : Config
config = record { token = codes "secret"; algo = codes "sha256"; presign = none; prefix = [] }

abbrev clock : ℕ → Now
clock i = record { seconds = 200; mtime = pos 200 }

abbrev walked : List Visited
walked = visited (codes "a") ∷ visited (codes "c") ∷ []

walked-IsReadable : IsReadable in_step.disk walked
unfolding find bytes_beq
walked-IsReadable = ((λ d e. absurd (ground (arith, e))), ((λ d e. absurd (ground (arith, e))), tt))

nodup_rows : NodupKeys hub_tree_path in_step.store.hub_tree
unfolding replay replay_one append find upsert bytes_beq
nodup_rows = (refl, (refl, tt))

abbrev behind_push : Replica
behind_push =
    (push plain remote (pos 11)
      (λ req. (send_push plain plain config (λ i. (no_faults, clock i)) req their_hub).0) fail
      walked in_step).1

push-Delivered_example :
    ((changes : List LocalChange) × (deletions : List LocalDeletion) × (version : FilePath → ℕ)
      × (scan_local plain walked in_step.disk in_step.store ≡ some (changes, deletions))
      × ((process_ops plain
            (λ i. (no_faults, clock i))
            fail
            (build_push_ops changes deletions)
            their_hub).0
          ≡ map (accepted_as version) (build_push_ops changes deletions)))
    × (behind_push.disk ≡ in_step.disk)
    × (scan_local plain walked behind_push.disk behind_push.store ≡ some ([], []))
unfolding find bytes_beq
push-Delivered_example =
    push-Delivered plain plain config remote (pos 11) clock walked in_step their_hub
      (refl, (refl, tt)) nodup_rows walked-IsReadable two_files-IsConsistent
      (λ k. sym (two_files-IsConsistent.materialized k))

-- An accepted push sets the client's version to its own, also past the changes of others that have
-- not come yet; and a delete of a file that the hub does not have is accepted as version 0.
version_run :
    (handle_push_response remote
      (pos 11)
      (edited ∷ [])
      (gone ∷ [])
      (record { path = codes "d/a.txt"; outcome = accepted 9 } ∷ [])
      replica).1.store.hub_version
    ≡ 9
unfolding handle_push_response update_hub_tree_after_push find bytes_beq apply_change
version_run = refl

version_zero_run :
    (handle_push_response remote
      (pos 11)
      (edited ∷ [])
      (gone ∷ [])
      (record { path = codes "b"; outcome = accepted 0 } ∷ [])
      replica).1.store.hub_version
    ≡ 0
unfolding handle_push_response update_hub_tree_after_push find bytes_beq apply_change
version_zero_run = refl

pending_run :
    pending_push_paths plain walk replica
    ≡ some (codes "d/a (conflicted copy).txt" ∷ codes "d/a.txt" ∷ codes "b" ∷ [])
unfolding pending_push_paths scan_local changes_of deletions_of is_seen find bytes_beq
pending_run = refl

push_run : (push plain remote (pos 11) (λ req. none) fail walk replica).0 ≡ none
unfolding push scan_local changes_of deletions_of is_seen find bytes_beq build_push_ops
push_run = refl
