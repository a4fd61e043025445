-- ===== src/Archive/Fake.antt =====
-- archive/fake.go: the store in memory, which keeps the promises of the interface.
use hubsync.Prelude.{
  ℕ, ◌+◌, ℤ, pos, Bool, true, false, ◌&&◌, not, Option, none, some, List, [], ◌∷◌, ◌++◌, Bytes,
  codes, length, drop, take, if◌then◌else◌, ◌==◌, bytes_eq, has_prefix, index_of, decimal, sort_by,
}
use hubsync.Prelude.Table.{find, upsert, remove}
use hubsync.Archive.{RemoteInfo, UploadRequest, Head, head_of, not_exist, Storage}

pub record FakeVersion : Type 0 where
  pub info : RemoteInfo
  pub bytes : Bytes

-- The versions at a key, oldest first: those before the head, and the head. A key without versions
-- has no entry.
pub record Versions : Type 0 where
  pub key : Bytes
  pub older : List FakeVersion
  pub latest : FakeVersion

pub record FakeStorage : Type 0 where
  pub counter : ℕ
  pub versions : List Versions

abbrev pub new_fake_storage : FakeStorage
new_fake_storage = record { counter = 0; versions = [] }

abbrev pub versions_key : Versions → Bytes
versions_key v = v.key

-- `time.Now()` is the argument `now`; the context is not cancelled and the source can be read.
unfoldable pub fake_upload : ℤ → UploadRequest → FakeStorage → Option RemoteInfo × FakeStorage
fake_upload now req s =
    let n = s.counter + 1 in
    let info : RemoteInfo = record {
      file_id = codes "fake-" ++ decimal n;
      key = req.key;
      size = length req.source;
      digest = req.digest;
      digest_algo = req.digest_algo;
      content_sha1 = req.content_sha1;
      uploaded_at = now;
    } in
    let latest : FakeVersion = record { info = info; bytes = req.source } in
    let older : List FakeVersion = elim (find versions_key req.key s.versions) [
      | none ↦ []
      | some v ↦ v.older ++ v.latest ∷ []
    ] in
    (
      some info,
      record {
        counter = n;
        versions =
            upsert versions_key (record { key = req.key; older = older; latest = latest })
              s.versions;
      },
    )

unfoldable pub fake_head_by_key : Bytes → FakeStorage → Head
fake_head_by_key key s = elim (find versions_key key s.versions) [
  | none ↦ not_exist
  | some v ↦ head_of v.latest.info
]

unfoldable pub fake_download : Bytes → FakeStorage → Option Bytes
fake_download key s = elim (find versions_key key s.versions) [
  | none ↦ none
  | some v ↦ some v.latest.bytes
]

abbrev pub marker : Bytes → RemoteInfo
marker common = record {
  file_id = [];
  key = common;
  size = 0;
  digest = [];
  digest_algo = [];
  content_sha1 = [];
  uploaded_at = pos 0;
}

pub contains : Bytes → List Bytes → Bool
contains x [] = false
contains x (y ∷ ys) = if y == x then true else contains x ys

-- The common prefix that a tail is collapsed to.
unfoldable pub common_tail : Bytes → Bytes → Option Bytes
common_tail tail [] = none
common_tail tail (d ∷ delimiter) = elim (index_of tail (d ∷ delimiter)) [
  | none ↦ none
  | some idx ↦ some (take (idx + length (d ∷ delimiter)) tail)
]

-- The entry of one key, and the markers given so far.
unfoldable pub list_one : Bytes → Bytes → List Bytes → Versions → List RemoteInfo × List Bytes
unfolding common_tail contains
list_one prefix delimiter seen v =
    if has_prefix v.key prefix
    then elim (common_tail (drop (length prefix) v.key) delimiter) [
      | none ↦ (v.latest.info ∷ [], seen)
      | some tail ↦
          if contains (prefix ++ tail) seen
          then ([], seen)
          else (marker (prefix ++ tail) ∷ [], (prefix ++ tail) ∷ seen)
    ]
    else ([], seen)

unfoldable pub list_from : Bytes → Bytes → List Bytes → List Versions → List RemoteInfo
unfolding list_one
list_from prefix delimiter seen [] = []
list_from prefix delimiter seen (v ∷ vs) =
    let (entries, seen') = list_one prefix delimiter seen v in
    entries ++ list_from prefix delimiter seen' vs

unfoldable pub fake_list_keys : Bytes → Bytes → FakeStorage → List RemoteInfo × Bool
unfolding list_from
fake_list_keys prefix delimiter s =
    (list_from prefix delimiter [] (sort_by versions_key s.versions), true)

unfoldable pub fake_delete_by_key : Bytes → Bytes → FakeStorage → Bool × FakeStorage
fake_delete_by_key key want s = elim (find versions_key key s.versions) [
  | none ↦ (true, s)
  | some v ↦
      if not (want == []) && not (v.latest.info.file_id == want)
      then (false, s)
      else (true, record s { versions = remove versions_key key s.versions })
]

abbrev pub fake : ℤ → Storage FakeStorage
fake now = record {
  upload = fake_upload now;
  head_by_key = fake_head_by_key;
  download = fake_download;
  list_keys = fake_list_keys;
  delete_by_key = fake_delete_by_key;
}
