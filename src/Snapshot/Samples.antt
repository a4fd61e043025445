-- ===== src/Snapshot/Samples.antt =====
-- A snapshot of a hub whose file `a` is older than its last change.
use hubsync.Prelude.{[], Bytes, codes, pos, bytes_eq}
use hubsync.Model.{Digest, tree_entry, HubTreeEntry}
use hubsync.Store.Samples.{two_files}
use hubsync.Reconciler.Samples.{fresh_row}
use hubsync.Push.{PushOp, Hub, Now, op_update}
use hubsync.Snapshot.Versions.{at_version}

abbrev plain : Bytes → Digest
plain bytes = bytes

abbrev hub : Hub
hub = record { store = two_files; disk = []; sent = [] }

abbrev noon : Now
noon = record { seconds = 200; mtime = pos 200 }

abbrev edit : PushOp
edit = record { path = codes "a"; op = op_update; base_version = 2; content = codes "new" }

abbrev client_row : HubTreeEntry
client_row = at_version 2 (tree_entry fresh_row)
