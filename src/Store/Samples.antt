-- ===== src/Store/Samples.antt =====
-- A database with two files and a deletion.
use hubsync.Prelude.{◌≡◌, refl, Bytes, codes, pos, some, [], false, bytes_eq}
use hubsync.Model.{ChangeEntry, ChangeOp, create, delete, file}
use hubsync.Store.{HubStore, empty_store, append}
use hubsync.Store.Materialized.{IsConsistent, empty_store-IsConsistent, append-IsConsistent}

abbrev pub change : ChangeOp → Bytes → Bytes → ChangeEntry
change op path digest = record {
  version = 0;
  path = path;
  op = op;
  kind = file;
  digest = digest;
  size = 3;
  mode = 0o644;
  mtime = pos 7;
}

abbrev pub one_file : HubStore
one_file = (append false 100 (change create (codes "a") (codes "x")) empty_store).1

abbrev pub two_files : HubStore
two_files = (append false 101 (change create (codes "b") (codes "y")) one_file).1

pub one_file-IsConsistent : IsConsistent one_file
one_file-IsConsistent =
    append-IsConsistent false 100 (change create (codes "a") (codes "x")) empty_store
      empty_store-IsConsistent

pub two_files-IsConsistent : IsConsistent two_files
two_files-IsConsistent =
    append-IsConsistent false 101 (change create (codes "b") (codes "y")) one_file
      one_file-IsConsistent

version_run : (append false 102 (change delete (codes "a") []) two_files).0 ≡ some 3
unfolding append
version_run = refl
