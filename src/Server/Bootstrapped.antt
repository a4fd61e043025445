-- ===== src/Server/Bootstrapped.antt =====
-- A client that catches up with a hub over its routes.
use mathlib.Core.Option
use hubsync.Prelude.{ℕ, Bool, true, false, Option, none, some, bytes_eq, nat_eq}
use hubsync.Model.{HubTreeEntry, tree_entry, HubEntry}
use hubsync.Disk.{Disk}
use hubsync.ClientStore.{ClientStore}
use hubsync.Snapshot.Versions.{at_version}

-- A row of the hub, as the client's tree has it.
abbrev pub as_tracked : ℕ → Option HubEntry → Option HubTreeEntry
as_tracked version row = Option.map (at_version version) (Option.map tree_entry row)

abbrev pub has_row : Option HubEntry → Bool
has_row none = false
has_row (some r) = true
