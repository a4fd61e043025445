-- ===== src/Bootstrap/Samples.antt =====
-- A hub with two files of the same content and a client with an old file, whose digests are the
-- contents themselves.
use hubsync.Prelude.{
  ◌≡◌, refl, ap, arith, Bool, true, false, not, ◌&&◌, none, some, List, [], ◌∷◌, codes, pos,
  if◌then◌else◌, ==_iff, bytes_eq, bytes_beq, has_prefix,
}
use hubsync.Prelude.Table.{find}
use hubsync.Model.{FilePath, file, HubTreeEntry}
use hubsync.Disk.{Disk, DiskFile, stat}
use hubsync.Scanner.{Visited}
use hubsync.ClientStore.{ClientStore, fresh_client}
use hubsync.Event.{Remote}
use hubsync.Bootstrap.{Hash, Client, Ending, BlobGroup, catchup, bootstrap, new_hasher}
use hubsync.Bootstrap.Blobs.{is_walked}
use hubsync.Bootstrap.Mirror.{IsOrder, IsWalk, IsMirror, is_complete, is_there, catchup-IsMirror}
use hubsync.Bootstrap.Again.{is_idle, catchup_again}

abbrev hash : Hash
hash bytes = bytes

abbrev hub : Remote
hub = record { blob = λ d. some d; post_delta = λ d size sigs. none }

abbrev row : FilePath → HubTreeEntry
row path = record {
  entry = record {
    path = path;
    kind = file;
    digest = codes "xyz";
    size = 3;
    mode = 0o644;
    mtime = pos 7;
  };
  version = 1;
}

abbrev tree : ClientStore
tree = record {
  hub_tree = row (codes "a") ∷ row (codes "d/b") ∷ [];
  hub_version = 2;
  hash_algo = codes "sha256";
}

abbrev pub ignored : FilePath → Bool
ignored path = has_prefix path (codes ".hubsync/")

abbrev visit : DiskFile → Visited
visit f = record { path = f.path; is_dir = false; size = 0; mtime = f.mtime }

unfoldable pub walk_files : Disk → List Visited
walk_files [] = []
walk_files (f ∷ disk) =
    let rest = walk_files disk in if ignored f.path then rest else visit f ∷ rest

is_walked-walk_files :
    (disk : Disk) (k : FilePath)
    → is_walked k (walk_files disk) ≡ (is_there (stat k disk) && not (ignored k))
unfolding walk_files find
is_walked-walk_files [] k = refl
is_walked-walk_files (f ∷ disk) k =
    ground (arith, is_walked-walk_files disk k, ==_iff f.path k, λ (q : f.path ≡ k). ap ignored q)

pub walk_files-IsWalk : IsWalk ignored walk_files
walk_files-IsWalk = record { walked = is_walked-walk_files }

abbrev pub as_listed : List HubTreeEntry → List HubTreeEntry
as_listed rows = rows

pub as_listed-IsOrder : IsOrder as_listed
as_listed-IsOrder = record { once = λ rows u. u; same = λ rows k u. refl }

abbrev as_grouped : List BlobGroup → List BlobGroup
as_grouped groups = groups

knows_hash : new_hasher hash hash (codes "sha256") ≡ some hash
unfolding new_hasher bytes_beq
knows_hash = refl

-- An old version of `a`, a file that the hub no longer has, and one that is ignored.
abbrev pub old_client : Client
old_client = record {
  store = fresh_client;
  disk =
      record { path = codes "a"; bytes = codes "old"; mode = 0o600; mtime = pos 1 }
      ∷ record { path = codes "gone"; bytes = codes "x"; mode = 0o600; mtime = pos 1 }
      ∷ record { path = codes ".hubsync/x"; bytes = codes "y"; mode = 0o600; mtime = pos 1 }
      ∷ [];
  hasher = none;
}

abbrev caught_up : Ending × Client
caught_up = catchup hash hash hub (pos 9) (some tree) as_listed walk_files old_client

catchup-IsMirror_example :
    (is_complete caught_up.0 ≡ true) × IsMirror hash ignored tree old_client.disk caught_up.1
unfolding find bytes_beq
catchup-IsMirror_example =
    catchup-IsMirror hash hash hash hub (pos 9) ignored as_listed walk_files tree old_client
      as_listed-IsOrder walk_files-IsWalk knows_hash (refl, (refl, tt))
      (λ k e at kind. (e.digest, refl, refl))

-- The second time the hub serves nothing.
abbrev silent : Remote
silent = record { blob = λ d. none; post_delta = λ d size sigs. none }

abbrev again : Ending × Client
again = catchup hash hash silent (pos 10) (some tree) as_listed walk_files caught_up.1

catchup_again_example : (is_idle again.0 ≡ true) × (again.1.disk ≡ caught_up.1.disk)
unfolding find bytes_beq
catchup_again_example =
    catchup_again hash hash hash silent (pos 10) ignored as_listed walk_files tree old_client.disk
      caught_up.1 as_listed-IsOrder walk_files-IsWalk knows_hash (refl, (refl, tt))
      catchup-IsMirror_example.1

abbrev started : Ending × Client
started = bootstrap hash hash hub (pos 9) (some tree) as_grouped old_client
