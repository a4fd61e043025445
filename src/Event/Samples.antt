-- ===== src/Event/Samples.antt =====
-- A client at version 1 of a hub with the files `a`, version 1, and `b`, version 2.
use hubsync.Prelude.{refl, arith, Bytes, codes, pos, none, some, [], ◌∷◌, bytes_beq, bytes_eq}
use hubsync.Prelude.Table.{find, upsert}
use hubsync.Model.{Digest, ChangeEntry, create, file}
use hubsync.Disk.{Disk, write_file, set_mtime}
use hubsync.Store.Log.{row_of}
use hubsync.Store.Samples.{change}
use hubsync.ClientStore.{ClientStore, fresh_client, apply_change}
use hubsync.Event.{Remote, Replica, SyncEvent, changed, apply_event}
use hubsync.Event.Content.{IsHonest, IsFaithful, apply_event-IsFaithful}

abbrev plain : Bytes → Digest
plain bytes = bytes

-- With a hash that keeps its input, every blob is its digest.
abbrev remote : Remote
remote = record { blob = λ d. some d; post_delta = λ d block_size sigs. none }

abbrev first : ChangeEntry
first = record (change create (codes "a") (codes "x")) { version = 1 }

abbrev second : ChangeEntry
second = record (change create (codes "b") (codes "y")) { version = 2 }

abbrev client : ClientStore
client = record fresh_client { hub_tree = row_of first ∷ []; hub_version = 1 }

abbrev replica : Replica
replica = record { store = client; disk = []; local_edits = none }

abbrev hub_disk : Disk
hub_disk = record { path = codes "b"; bytes = codes "y"; mode = 0o644; mtime = pos 7 } ∷ []

honest : IsHonest plain remote
honest = record { blobs = λ d b e. ground arith }

empty_replica-IsFaithful : IsFaithful plain (record replica { store = fresh_client })
unfolding find
empty_replica-IsFaithful = record {
  distinct = tt;
  contents = λ k e b at has. absurd (ground (arith, at));
}

abbrev incoming : SyncEvent
incoming = record {
  version = 1;
  path = codes "a";
  payload = changed (record {
    kind = file;
    digest = codes "x";
    size = 1;
    mode = 0o644;
    mtime = pos 7;
    inlined = codes "x";
  });
}

abbrev client_with_x : ClientStore
client_with_x = record fresh_client {
  hub_tree = row_of (record first { size = 1 }) ∷ [];
  hub_version = 1;
}

abbrev taken : Replica
taken = record {
  store = client_with_x;
  disk = record { path = codes "a"; bytes = codes "x"; mode = 0o644; mtime = pos 7 } ∷ [];
  local_edits = none;
}

apply_event-IsFaithful_example : IsFaithful plain taken
unfolding apply_event apply_change find upsert bytes_beq write_file set_mtime
apply_event-IsFaithful_example =
    apply_event-IsFaithful plain plain remote honest (pos 9) incoming
      (record replica { store = fresh_client }) taken empty_replica-IsFaithful refl (λ h. refl) refl
