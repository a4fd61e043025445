-- ===== src/Rpc/Ls.antt =====
-- `LocalLs` of rpc.go with `EntriesByPrefix` of store.go.
use hubsync.Prelude.{
  ℕ, ◌+◌, Bool, true, false, ◌||◌, Option, none, some, List, [], ◌∷◌, ◌++◌, map, Bytes, codes, take,
  drop, length, select, has_prefix, index_of, trim_suffix, sort_by, pos, if◌then◌else◌, ◌==◌,
  nat_eq, bytes_eq,
}
use hubsync.Model.{FilePath, directory, unset, HubEntry, hub_path}
use hubsync.Store.{HubStore}

unfoldable pub is_in : Bytes → List Bytes → Bool
is_in k [] = false
is_in k (x ∷ xs) = if x == k then true else is_in k xs

-- `path LIKE prefix || '%'` is SQLite's, and an argument: it matches more than the prefix does, for
-- letters match in either case and `_` and `%` in the prefix are wildcards.
unfoldable pub entries_by_prefix : (Bytes → FilePath → Bool) → Bytes → HubStore → List HubEntry
entries_by_prefix like [] store = store.hub_entry
entries_by_prefix like (c ∷ prefix) store =
    select (λ e. e.path == trim_suffix (c ∷ prefix) (codes "/") || like (c ∷ prefix) e.path)
      store.hub_entry

-- Where a row goes in a listing below a prefix: nowhere, as it is, or into a directory.
pub data Place : Type 0 where
  skipped as_is : Place
  below : FilePath → Place

abbrev pub placed_suffix : Bytes → Bytes → Option ℕ → Place
placed_suffix prefix suffix none = as_is
placed_suffix prefix suffix (some idx) = below (prefix ++ take (idx + 1) suffix)

abbrev pub placed_rest : Bytes → Bytes → Place
placed_rest prefix [] = skipped
placed_rest prefix (c ∷ suffix) =
    placed_suffix prefix (c ∷ suffix) (index_of (c ∷ suffix) (codes "/"))

unfoldable pub place_of : Bytes → FilePath → Place
place_of prefix path =
    if has_prefix path prefix then placed_rest prefix (drop (length prefix) path) else skipped

abbrev pub keep_file : Place → HubEntry → List HubEntry → List HubEntry
keep_file skipped e files = files
keep_file as_is e files = e ∷ files
keep_file (below dir) e files = files

abbrev pub keep_dir : Place → List FilePath → List FilePath
keep_dir skipped dirs = dirs
keep_dir as_is dirs = dirs
keep_dir (below dir) dirs = if is_in dir dirs then dirs else dir ∷ dirs

unfoldable pub files_of : Bytes → List HubEntry → List HubEntry
unfolding place_of
files_of prefix [] = []
files_of prefix (e ∷ rows) = keep_file (place_of prefix e.path) e (files_of prefix rows)

unfoldable pub dirs_of : Bytes → List HubEntry → List FilePath
unfolding place_of
dirs_of prefix [] = []
dirs_of prefix (e ∷ rows) = keep_dir (place_of prefix e.path) (dirs_of prefix rows)

-- `HubEntry{Path: …, Kind: FileKindDirectory}`.
abbrev pub synthetic_dir : FilePath → HubEntry
synthetic_dir path = record {
  path = path;
  kind = directory;
  digest = [];
  size = 0;
  mode = 0;
  mtime = pos 0;
  version = 0;
  archive_state = unset;
  archive_file_id = [];
  archive_sha1 = [];
  archive_uploaded_at = pos 0;
  updated_at = 0;
}

unfoldable pub delimited_entries : List HubEntry → Bytes → List HubEntry
unfolding files_of dirs_of
delimited_entries rows prefix =
    sort_by hub_path (files_of prefix rows ++ map synthetic_dir (dirs_of prefix rows))

pub record LsRequest : Type 0 where
  pub prefix : Bytes
  pub all : Bool

unfoldable pub local_ls : (Bytes → FilePath → Bool) → LsRequest → HubStore → List HubEntry
unfolding entries_by_prefix delimited_entries
local_ls like req store =
    if req.all
    then sort_by hub_path store.hub_entry
    else delimited_entries (entries_by_prefix like req.prefix store) req.prefix
