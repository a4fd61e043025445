-- ===== src/Reconciler/Marks.antt =====
-- The row that `MarkArchived` and `MarkUnpinned` leave.
use mathlib.Core.Option
use hubsync.Prelude.{ℕ, ◌≡◌, refl, ℤ, Bytes, if◌then◌else◌, ◌==◌, bytes_eq}
use hubsync.Prelude.Table.{find-update}
use hubsync.Model.{FilePath, HubEntry, hub_path}
use hubsync.Store.{
  HubStore, entry_lookup, mark_archived, mark_unpinned, as_archived, as_unpinned, with_entry,
}

pub entry_lookup-with_entry :
    (path k : FilePath) (f : HubEntry → HubEntry) (s : HubStore)
    → ((e : HubEntry) → (f e).path ≡ e.path)
    → entry_lookup k (with_entry path f s)
      ≡ (if path == k then Option.map f (entry_lookup k s) else entry_lookup k s)
unfolding entry_lookup
entry_lookup-with_entry path k f s same = find-update hub_path k path f s.hub_entry same

pub entry_lookup-mark_unpinned :
    (now : ℕ) (path k : FilePath) (s : HubStore)
    → entry_lookup k (mark_unpinned now path s)
      ≡ (if path == k then Option.map (as_unpinned now) (entry_lookup k s) else entry_lookup k s)
unfolding mark_unpinned
entry_lookup-mark_unpinned now path k s =
    entry_lookup-with_entry path k (as_unpinned now) s (λ e. refl)

pub entry_lookup-mark_archived :
    (now : ℕ) (path k : FilePath) (file_id sha1 : Bytes) (uploaded_at : ℤ) (s : HubStore)
    → entry_lookup k (mark_archived now path file_id sha1 uploaded_at s) ≡ (
        if path == k
        then Option.map (as_archived now file_id sha1 uploaded_at) (entry_lookup k s)
        else entry_lookup k s)
unfolding mark_archived
entry_lookup-mark_archived now path k file_id sha1 uploaded_at s =
    entry_lookup-with_entry path k (as_archived now file_id sha1 uploaded_at) s (λ e. refl)
