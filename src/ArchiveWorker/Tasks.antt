-- ===== src/ArchiveWorker/Tasks.antt =====
-- archive_task.go: the tasks of the one-shot archive run, which the task runner plans and works off.
use hubsync.Prelude.{
  ℕ, ◌+◌, Bool, Option, none, some, List, [], ◌∷◌, Bytes, ℤ, hex_encode, if◌then◌else◌,
}
use hubsync.Model.{FilePath, HubEntry}
use hubsync.Store.{HubStore, pending_archive_rows}
use hubsync.Archive.{Storage}
use hubsync.Reconciler.{Site, Io}
use hubsync.ArchiveOne.{TaskResult, archive_one}

-- `ArchiveTask`, less the dependencies that `Hydrate` wires.
pub record ArchiveTask : Type 0 where
  pub id : FilePath
  pub path : FilePath
  pub size : ℕ
  pub digest_hex : Bytes
  pub mtime : ℤ

abbrev pub task_of : HubEntry → ArchiveTask
task_of e = record {
  id = e.path;
  path = e.path;
  size = e.size;
  digest_hex = hex_encode e.digest;
  mtime = e.mtime;
}

-- What `ArchiveTaskFactory.List` yields: a task, or one of its two errors, which is the last.
pub data Listed : Type 0 where
  listed : ArchiveTask → Listed
  query_failed cancelled : Listed

-- The loop over the rows; `ended` says whether the context has ended before a row. The caller may
-- stop behind any of what is yielded.
abbrev pub listed_from : (ℕ → Bool) → List HubEntry → List Listed
listed_from ended [] = []
listed_from ended (e ∷ rows) =
    let rest = listed_from (λ i. ended (i + 1)) rows in
    if ended 0 then cancelled ∷ [] else listed (task_of e) ∷ rest

unfoldable pub list_tasks : Bool → (ℕ → Bool) → HubStore → List Listed
unfolding pending_archive_rows hex_encode
list_tasks query_fails ended store =
    if query_fails then query_failed ∷ [] else listed_from ended (pending_archive_rows store)

-- `ArchiveTask.Run`; `none` is the error of a task whose dependencies are not wired.
unfoldable pub run_task :
    {S : Type 0} (algo prefix : Bytes) (storage : Storage S)
    → Bool
    → Io
    → ArchiveTask
    → Site S
    → Option TaskResult × Site S
unfolding archive_one
run_task algo prefix storage wired io t site =
    let (result, site') = archive_one algo prefix storage io t.path site in
    if wired then (some result, site') else (none, site)
