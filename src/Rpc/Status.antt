-- ===== src/Rpc/Status.antt =====
-- `LocalStatus` of rpc.go: the counts of the rows by kind and state.
use hubsync.Prelude.{ℕ, ◌+◌, List, [], ◌∷◌, nat_eq, bytes_eq}
use hubsync.Model.{
  FileKind, file, directory, symlink, ArchiveState, unset, dirty, archived, unpinned, HubEntry,
}
use hubsync.Store.{HubStore}

pub record ArchiveCounts : Type 0 where
  pub count : ℕ
  pub bytes : ℕ

pub record StatusResponse : Type 0 where
  pub files : ℕ
  pub dirs : ℕ
  pub archive : ArchiveCounts
  pub dirty_rows : ArchiveCounts
  pub unpinned_rows : ArchiveCounts
  pub null_rows : ArchiveCounts

abbrev no_counts : ArchiveCounts
no_counts = record { count = 0; bytes = 0 }

abbrev no_status : StatusResponse
no_status = record {
  files = 0;
  dirs = 0;
  archive = no_counts;
  dirty_rows = no_counts;
  unpinned_rows = no_counts;
  null_rows = no_counts;
}

abbrev counted_with : ℕ → ArchiveCounts → ArchiveCounts
counted_with size c = record { count = c.count + 1; bytes = c.bytes + size }

abbrev counted_state : ArchiveState → ℕ → StatusResponse → StatusResponse
counted_state archived size s = record s { archive = counted_with size s.archive }
counted_state dirty size s = record s { dirty_rows = counted_with size s.dirty_rows }
counted_state unpinned size s = record s { unpinned_rows = counted_with size s.unpinned_rows }
counted_state unset size s = record s { null_rows = counted_with size s.null_rows }

abbrev pub counted_row : FileKind → HubEntry → StatusResponse → StatusResponse
counted_row file e s = counted_state e.archive_state e.size (record s { files = s.files + 1 })
counted_row directory e s = record s { dirs = s.dirs + 1 }
counted_row symlink e s = s

unfoldable pub status_from : List HubEntry → StatusResponse → StatusResponse
status_from [] s = s
status_from (e ∷ entries) s = status_from entries (counted_row e.kind e s)

unfoldable pub local_status : HubStore → StatusResponse
unfolding status_from
local_status store = status_from store.hub_entry no_status
