-- ===== src/Push/Replicated.antt =====
-- A push and the clients that are connected while it comes.
use hubsync.Prelude.{◌≡◌, bytes_eq}
use hubsync.Prelude.Table.{find}
use hubsync.Model.{FilePath, hub_tree_path}
use hubsync.Store.{HubStore}
use hubsync.Store.Materialized.{row_at}
use hubsync.ClientStore.{ClientStore}

-- The client has exactly the rows of the hub.
abbrev pub HasRows : HubStore → ClientStore → Type 0
HasRows hub client = (k : FilePath) → find hub_tree_path k client.hub_tree ≡ row_at k hub.hub_entry
