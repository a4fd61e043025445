-- ===== src/ArchiveOne.antt =====
-- archive_one.go: the upload of one file, which the worker and the one-shot tasks share.
mod Retry
mod Samples
use hubsync.Prelude.{
  hex_decode, Bool, true, false, ◌&&◌, not, Option, none, some, Bytes, List, [], ◌∷◌, if◌then◌else◌,
  ◌==◌, bytes_eq,
}
use hubsync.Model.{Digest, FilePath, is_file, ArchiveState, archived, unpinned, state_eq, HubEntry}
use hubsync.Disk.{stat}
use hubsync.Store.{entry_lookup, mark_archived}
use hubsync.Archive.{RemoteInfo, Storage, Head, head_of, not_exist, head_failed, join_key}
use hubsync.Reconciler.{Site, Io}

pub data TaskFailure : Type 0 where
  lookup_failed head_check_failed open_failed upload_failed mark_failed : TaskFailure

pub data TaskResult : Type 0 where
  missing_or_not_file : TaskResult
  in_state : ArchiveState → TaskResult
  head_matched uploaded : RemoteInfo → TaskResult
  failed : TaskFailure → TaskResult

unfoldable pub head_matches : RemoteInfo → Digest → Bytes → Bool
head_matches head [] local_algo = false
head_matches head (b ∷ local_digest) local_algo =
    if head.digest == []
    then false
    else if not (head.digest_algo == []) && not (head.digest_algo == local_algo)
    then false
    else head.digest == b ∷ local_digest

-- A checksum that is no hex is dropped.
abbrev pub sha1_bytes : Bytes → Bytes
sha1_bytes content_sha1 = let (bytes, good) = hex_decode content_sha1 in if good then bytes else []

module _ {S : Type 0} (algo prefix : Bytes) (storage : Storage S) where
  pub mark : Io → FilePath → RemoteInfo → TaskResult → Site S → TaskResult × Site S
  mark io path info result site = if io.store then (failed mark_failed, site) else (
    result,
    record site {
      store =
          mark_archived io.seconds path info.file_id (sha1_bytes info.content_sha1) info.uploaded_at
            site.store;
    },
  )

  pub upload_one : Io → FilePath → HubEntry → Site S → TaskResult × Site S
  unfolding mark
  upload_one io path e site = elim (stat path site.disk) [
    | none ↦ (failed open_failed, site)
    | some f ↦
        let (sent, remote') =
          storage.upload
            (record {
              key = join_key prefix path;
              size = e.size;
              mtime = e.mtime;
              source = f.bytes;
              digest = e.digest;
              digest_algo = algo;
              content_sha1 = [];
            })
            site.remote in
        elim sent [
          | none ↦ (failed upload_failed, record site { remote = remote' })
          | some info ↦ mark io path info (uploaded info) (record site { remote = remote' })
        ]
  ]

  by_head : Head → Io → FilePath → HubEntry → Site S → TaskResult × Site S
  unfolding upload_one head_matches
  by_head (head_of info) io path e site =
      if head_matches info e.digest algo
      then mark io path info (head_matched info) site
      else upload_one io path e site
  by_head not_exist io path e site = upload_one io path e site
  by_head head_failed io path e site = (failed head_check_failed, site)

  archive_file : Io → FilePath → HubEntry → Site S → TaskResult × Site S
  unfolding by_head
  archive_file io path e site =
      if not (is_file e.kind)
      then (missing_or_not_file, site)
      else if e.archive_state == archived
      then (in_state archived, site)
      else if e.archive_state == unpinned
      then (in_state unpinned, site)
      else by_head (storage.head_by_key (join_key prefix path) site.remote) io path e site

  unfoldable pub archive_one : Io → FilePath → Site S → TaskResult × Site S
  unfolding archive_file
  archive_one io path site =
      if io.lookup then (failed lookup_failed, site) else elim (entry_lookup path site.store) [
        | none ↦ (missing_or_not_file, site)
        | some e ↦ archive_file io path e site
      ]
