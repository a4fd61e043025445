-- ===== src/Subscribe/Resume.antt =====
-- A client whose connection breaks, and the next one.
use hubsync.Prelude.{ℕ, Option, none, some, bytes_eq}
use hubsync.Event.{Replica}

abbrev version_of : Option Replica → ℕ
version_of none = 0
version_of (some r) = r.store.hub_version
