-- ===== src/Server/Holds.antt =====
-- `handleBlob` on a hub that has the content of its rows, behind the bearer check.
use hubsync.Prelude.{
  ℕ, ◌≡◌, refl, ◌∙◌, true, Option, none, some, [], ◌∷◌, Bytes, ==_refl, bytes_eq, length, ◌<◌,
  has_prefix, bytes_beq, IsBytes,
}
use hubsync.Model.{Digest, FilePath, is_file, unpinned, state_eq, HubEntry}
use hubsync.Model.Text.{parse_digest-hex}
use hubsync.Disk.{DiskFile, stat}
use hubsync.Store.{path_by_digest, entry_lookup}
use hubsync.Store.Digests.{path_by_digest-entry_lookup}
use hubsync.Store.Materialized.{IsConsistent}
use hubsync.Archive.{join_key}
use hubsync.Bootstrap.Blobs.{Serves}
use hubsync.Push.{Hub, Faults, Now}
use hubsync.Server.{absent_blob, handle_blob, served_blob}
use hubsync.Server.Routes.{auth_middleware, set_auth, Config, serve_http, hub_remote}

pub auth_middleware-set_auth : (token : Bytes) → auth_middleware token (set_auth token) ≡ true
unfolding auth_middleware set_auth bytes_beq has_prefix
auth_middleware-set_auth [] = refl
auth_middleware-set_auth (b ∷ token) = ==_refl (b ∷ token)

module _ (sum : Bytes → Digest) (config : Config) (fetch : Bytes → Option Bytes) (hub : Hub) where
  -- The content of a row, in the hub's directory or in the archive.
  pub data Held (row : HubEntry) : Type 0 where
    in_directory :
        (f : DiskFile) → stat row.path hub.disk ≡ some f → sum f.bytes ≡ row.digest → Held row
    in_archive :
        (presign : Bytes → Option Bytes) (url b : Bytes)
        → stat row.path hub.disk ≡ none
        → row.archive_state ≡ unpinned
        → config.presign ≡ some presign
        → presign (join_key config.prefix row.path) ≡ some url
        → fetch url ≡ some b
        → sum b ≡ row.digest
        → Held row

  -- The hub has the content of all its files, whose digests are set.
  abbrev pub HoldsAll : Type 0
  HoldsAll =
      (k : FilePath) (row : HubEntry)
      → entry_lookup k hub.store ≡ some row
      → is_file row.kind ≡ true
      → (IsBytes row.digest) × (0 < length row.digest) × Held row

  handle_blob-Held :
      (digest : Digest) (row : HubEntry)
      → path_by_digest digest hub.store ≡ some row.path
      → entry_lookup row.path hub.store ≡ some row
      → row.digest ≡ digest
      → Held row
      → (b : Bytes) × (served_blob fetch (handle_blob config.presign config.prefix digest hub)
          ≡ some b)
        × (sum b ≡ digest)
  unfolding handle_blob absent_blob
  handle_blob-Held digest row first found same (in_directory f there right) =
      (f.bytes, rw (first, there, handle_blob) refl, right ∙ same)
  handle_blob-Held digest row first found same
        (in_archive presign url b absent unpinned' archive signed got right) =
      (
        b,
        rw (first, absent, found, unpinned', archive, signed, handle_blob, absent_blob) got,
        right ∙ same,
      )

  module _ (sha256 : Bytes → Digest) (env : ℕ → Faults × Now) where
    hub_remote_blob :
        (digest : Digest)
        → IsBytes digest
        → (hub_remote sum sha256 config env fetch hub).blob digest
          ≡ served_blob fetch (handle_blob config.presign config.prefix digest hub)
    unfolding hub_remote serve_http
    hub_remote_blob digest bytes =
        rw (auth_middleware-set_auth config.token, parse_digest-hex digest bytes) refl

    pub hub_remote-Serves :
        (k : FilePath) (e : HubEntry)
        → IsConsistent hub.store
        → HoldsAll
        → entry_lookup k hub.store ≡ some e
        → is_file e.kind ≡ true
        → Serves sum (hub_remote sum sha256 config env fetch hub) e.digest
    hub_remote-Serves k e consistent holds at kind =
        let (bytes, some', _) = holds k e at kind in
        let (row, first, found, kind', same) =
          path_by_digest-entry_lookup k e hub.store consistent.distinct at kind some' in
        let (b, got, right) =
          handle_blob-Held e.digest row first found same (holds row.path row found kind').2 in
        (b, hub_remote_blob e.digest bytes ∙ got, right)
