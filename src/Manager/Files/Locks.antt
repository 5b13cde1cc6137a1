-- ===== src/Manager/Files/Locks.antt =====
-- src/fs_safe.rs: `FileLock`, a file beside the target, and the directories that a removal empties.
use kaleidoscope_sdk.Prelude.{
  is_some, if◌then◌else◌, any, bytes_eq, Text, codes, Bool, false, not, ◌||◌, Option, none, some,
  List, [], ◌∷◌,
}
use kaleidoscope_sdk.Manager.Error.{ErrorKind, ok, host_conflict, refuse_if}
use kaleidoscope_sdk.Manager.Files.Paths.{FilePath, sibling_path, path_eq}
use kaleidoscope_sdk.Manager.Files.Os.{
  file, Disk, put, without, Machine, create_lock, write_lock, unlink, Os, pure, lift, change, call,
  inspect_entry, mode_of, ◌>>=◌, ◌>>◌, Entry, directory, entry_at,
}
use kaleidoscope_sdk.Manager.Files.Snapshots.{ensure_parent_directory}

module _ (machine : Machine) where
  -- `FileLock::acquire`. A lock that is created and then cannot be written stays, since no `FileLock`
  -- is there yet to drop. What is written, the number of the process, is never read.
  unfoldable pub acquire : FilePath → Os FilePath
  acquire target = do
    ensure_parent_directory machine target
    path ← lift (sibling_path target (codes ".kaleidoscope-lock"))
    found ← inspect_entry machine path "inspect lock"
    lift
        (refuse_if (is_some found) (host_conflict "another manager operation owns the target lock"))
    call machine create_lock path "create lock"
    change (put path (file [] (mode_of machine (some 0x180))))
    call machine write_lock path "write lock"
    pure path

  abbrev pub released : FilePath → Disk → Option ErrorKind → Disk
  released path disk none = without path disk
  released path disk (some kind) = disk

  -- `drop` of the lock, which ignores a failure.
  unfoldable pub release : FilePath → Os (Unit {0})
  release path disk = (ok tt, released path disk (machine.fails unlink path disk))

  abbrev is_child : Bool → List Text → Bool → List Text → Bool
  is_child root names a [] = false
  is_child root names a (name ∷ parents) =
      path_eq (record { is_absolute = root; names = names })
        (record { is_absolute = a; names = parents })

  unfoldable pub is_occupied : Bool → List Text → Disk → Bool
  is_occupied root names disk = any (λ e. is_child root names e.0.is_absolute e.0.names) disk

  unfoldable pub is_managed_directory : Text → Bool
  is_managed_directory name =
      any (λ m. bytes_eq m name)
        (codes "use-kaleidoscope"
          ∷ codes "skills"
          ∷ codes ".agents"
          ∷ codes ".claude"
          ∷ codes "rules"
          ∷ codes ".codex"
          ∷ codes ".cursor"
          ∷ [])

  -- `fs::remove_dir`, which takes a directory only.
  abbrev pub remove_dir : FilePath → Disk → Option Entry → Option ErrorKind → Option Disk
  remove_dir path disk (some directory) none = some (without path disk)
  remove_dir path disk _ _ = none

  -- The loop of `prune_empty_managed_directories`, from a directory upwards.
  unfoldable pub prune_from : Bool → List Text → Disk → Disk
  unfolding is_occupied is_managed_directory
  prune_from root [] disk = disk
  prune_from root (name ∷ parents) disk =
      if not (is_managed_directory name) || is_occupied root (name ∷ parents) disk
      then disk
      else (let path : FilePath = record { is_absolute = root; names = name ∷ parents } in
          elim (remove_dir path disk (entry_at path disk) (machine.fails unlink path disk)) [
            | none ↦ disk
            | some disk' ↦ prune_from root parents disk'
          ])

  abbrev pub parents_of : List Text → List Text
  parents_of [] = []
  parents_of (name ∷ parents) = parents

  -- `prune_empty_managed_directories`
  unfoldable pub prune : FilePath → Os (Unit {0})
  unfolding prune_from
  prune target disk = (ok tt, prune_from target.is_absolute (parents_of target.names) disk)
