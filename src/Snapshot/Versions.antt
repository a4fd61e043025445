-- ===== src/Snapshot/Versions.antt =====
-- The versions in a snapshot, and what a client that starts from it can push.
use mathlib.Core.Option
use hubsync.Prelude.{
  ℕ, ◌≡◌, refl, ap, ◌∙◌, arith, Option, none, some, List, [], ◌∷◌, Bytes, ==_iff, bytes_eq,
}
use hubsync.Prelude.Table.{find, NodupKeys, find-upsert, find-map, map-NodupKeys}
use hubsync.Model.{FilePath, TreeEntry, HubTreeEntry, hub_path, hub_tree_path, tree_entry}
use hubsync.Store.{HubStore, tree_snapshot, entry_lookup}
use hubsync.ClientStore.{ClientStore, fresh_client, upsert_entry}
use hubsync.Snapshot.{upsert_all, with_hash_algo, generate_client_db}

abbrev entry_path : TreeEntry → FilePath
entry_path e = e.path

abbrev pub at_version : ℕ → TreeEntry → HubTreeEntry
at_version version e = record { entry = e; version = version }

abbrev or_row : Option HubTreeEntry → Option HubTreeEntry → Option HubTreeEntry
or_row none row = row
or_row (some e) row = some e

find-upsert_all :
    (k : FilePath) (version : ℕ) (tree : List TreeEntry) (s : ClientStore)
    → NodupKeys entry_path tree
    → find hub_tree_path k (upsert_all version tree s).hub_tree
      ≡ or_row
          (Option.map (at_version version) (find entry_path k tree))
          (find hub_tree_path k s.hub_tree)
unfolding upsert_all upsert_entry find
find-upsert_all k version [] s u = refl
find-upsert_all k version (e ∷ tree) s u =
    find-upsert_all k version tree _ u.1
    ∙ ap (or_row (Option.map (at_version version) (find entry_path k tree)))
        (find-upsert hub_tree_path k (at_version version e) s.hub_tree)
    ∙ ground (arith, u.0, ==_iff e.path k, λ (q : e.path ≡ k). ap (λ j. find entry_path j tree) q)

or_row-none : (row : Option HubTreeEntry) → or_row row none ≡ row
or_row-none none = refl
or_row-none (some e) = refl

hash_algo_tree : (algo : Bytes) (s : ClientStore) → (with_hash_algo algo s).hub_tree ≡ s.hub_tree
hash_algo_tree [] s = refl
hash_algo_tree (b ∷ algo) s = refl

pub find-generate_client_db :
    (k : FilePath) (store : HubStore) (version : ℕ) (algo : Bytes)
    → NodupKeys hub_path store.hub_entry
    → find hub_tree_path k (generate_client_db store version algo).hub_tree
      ≡ Option.map (at_version version) (Option.map tree_entry (entry_lookup k store))
unfolding generate_client_db tree_snapshot entry_lookup find
find-generate_client_db k store version algo u =
    ap (find hub_tree_path k) (hash_algo_tree algo _)
    ∙ find-upsert_all k version (tree_snapshot store) fresh_client
        (map-NodupKeys hub_path entry_path tree_entry store.hub_entry (λ e. refl) u)
    ∙ or_row-none (Option.map (at_version version) (find entry_path k (tree_snapshot store)))
    ∙ ap (Option.map (at_version version))
        (find-map hub_path entry_path tree_entry k store.hub_entry (λ e. refl))
