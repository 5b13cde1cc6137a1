-- ===== src/Manager/Files/Snapshots.antt =====
-- src/fs_safe.rs: snapshots of a file, and its atomic replacement. The temporary file of an
-- `atomic_write` is gone when the call returns, whether it fails or not.
use kaleidoscope_sdk.Prelude.{
  ltb, ◌==◌, length, bytes_eq, Text, codes, ℕ, String, Bool, true, false, not, ◌&&◌, Option, none,
  some, List, [], ◌∷◌,
}
use kaleidoscope_sdk.JsonSpan.Value.{Bytes}
use kaleidoscope_sdk.Manager.Error.{
  ErrorKind, already_exists, other_kind, io, Result, ok, err, unsafe_path, concurrent_edit,
  refuse_if,
}
use kaleidoscope_sdk.Manager.Files.Paths.{FilePath, validate_absolute_path, sibling_path}
use kaleidoscope_sdk.Manager.Files.Os.{
  Entry, file, directory, link, put, without, Machine, read, create_directory, set_mode, publish,
  flush, unlink, Os, pure, lift, look_up, change, call, inspect_entry, mode_of, ◌>>=◌, ◌>>◌,
}

-- `TargetWrite`
pub data TargetWrite : Type 0 where
  write : Bytes → TargetWrite
  remove leave : TargetWrite

-- `TargetWrite::resulting_bytes`
unfoldable pub resulting_bytes : TargetWrite → Option Bytes → Option Bytes
resulting_bytes (write bytes) original = some bytes
resulting_bytes remove original = none
resulting_bytes leave original = original

abbrev pub is_remove : TargetWrite → Bool
is_remove remove = true
is_remove _ = false

abbrev pub is_leave : TargetWrite → Bool
is_leave leave = true
is_leave _ = false

pub record Snapshot : Type 0 where
  pub bytes : Option Bytes
  pub sha256 : Text
  pub unix_mode : Option ℕ

abbrev pub option_bytes_eq : Option Bytes → Option Bytes → Bool
option_bytes_eq none none = true
option_bytes_eq (some a) (some b) = bytes_eq a b
option_bytes_eq _ _ = false

abbrev pub option_mode_eq : Option ℕ → Option ℕ → Bool
option_mode_eq none none = true
option_mode_eq (some a) (some b) = a == b
option_mode_eq _ _ = false

-- The derived `==` of `Snapshot`.
unfoldable pub snapshot_eq : Snapshot → Snapshot → Bool
snapshot_eq a b =
    option_bytes_eq a.bytes b.bytes
    && bytes_eq a.sha256 b.sha256
    && option_mode_eq a.unix_mode b.unix_mode

module _ (machine : Machine) where
  -- `Snapshot::absent`
  unfoldable pub absent : Snapshot
  absent = record {
    bytes = none;
    sha256 = machine.digest_bytes (codes "<absent>");
    unix_mode = none;
  }

  -- The snapshot of a file that could be read.
  unfoldable pub snapshot_of : Bytes → Option ℕ → Snapshot
  snapshot_of bytes mode = record {
    bytes = some bytes;
    sha256 = machine.digest_bytes bytes;
    unix_mode = mode;
  }

  -- What `read_snapshot` does with the metadata.
  unfoldable pub read_entry : FilePath → ℕ → String → Option Entry → Os Snapshot
  unfolding absent snapshot_of
  read_entry path maximum target none = pure absent
  read_entry path maximum target (some link) =
      lift (err (unsafe_path target "selected file is a symlink"))
  read_entry path maximum target (some directory) =
      lift (err (unsafe_path target "not a bounded regular file"))
  read_entry path maximum target (some (file bytes mode)) = do
    lift (refuse_if (ltb maximum (length bytes)) (unsafe_path target "not a bounded regular file"))
    call machine read path "read file"
    pure (snapshot_of bytes mode)

  -- `read_snapshot`
  unfoldable pub read_snapshot : FilePath → ℕ → String → Os Snapshot
  unfolding read_entry
  read_snapshot path maximum target = do
    lift (validate_absolute_path path target)
    found ← inspect_entry machine path "inspect file"
    read_entry path maximum target found

  -- `assert_unchanged`
  unfoldable pub assert_unchanged : FilePath → Snapshot → ℕ → String → Os (Unit {0})
  unfolding snapshot_eq
  assert_unchanged path expected maximum target = do
    now ← read_snapshot path maximum target
    lift (refuse_if (not (snapshot_eq now expected)) concurrent_edit)

  -- What stands there after all, where another process has been faster.
  abbrev raced : Option Entry → Result (Unit {0})
  raced (some directory) = ok tt
  raced none = err (io "inspect directory" other_kind)
  raced _ = err (unsafe_path "configuration directory" "raced with an unsafe entry")

  -- A new directory, by how `create_dir` turns out.
  unfoldable pub make_directory : FilePath → Option ErrorKind → Os (Unit {0})
  make_directory cursor none = do
    change (put cursor directory)
    call machine set_mode cursor "set directory permissions"
  make_directory cursor (some already_exists) = do
    found ← inspect_entry machine cursor "inspect directory"
    lift (raced found)
  make_directory cursor (some other_kind) = lift (err (io "create directory" other_kind))

  -- One ancestor of `ensure_parent_directory_for`: an existing directory, or a new one.
  unfoldable pub ensure_entry : FilePath → Option Entry → Os (Unit {0})
  unfolding make_directory
  ensure_entry cursor (some link) =
      lift (err (unsafe_path "configuration directory" "an ancestor is a symlink"))
  ensure_entry cursor (some (file bytes mode)) =
      lift (err (unsafe_path "configuration directory" "an ancestor is not a directory"))
  ensure_entry cursor (some directory) = pure tt
  ensure_entry cursor none =
      λ disk. make_directory cursor (machine.fails create_directory cursor disk) disk

  unfoldable pub ensure_directories : Bool → List Text → Os (Unit {0})
  unfolding ensure_entry
  ensure_directories is_absolute [] = pure tt
  ensure_directories is_absolute (name ∷ parents) = do
    ensure_directories is_absolute parents
    let cursor : FilePath = record { is_absolute = is_absolute; names = name ∷ parents }
    found ← inspect_entry machine cursor "inspect directory"
    ensure_entry cursor found

  abbrev pub parent_names : List Text → Result (List Text)
  parent_names [] = err (unsafe_path "configuration file" "path has no parent")
  parent_names (name ∷ parents) = ok parents

  -- `ensure_parent_directory`
  unfoldable pub ensure_parent_directory : FilePath → Os (Unit {0})
  unfolding ensure_directories
  ensure_parent_directory path = do
    lift (validate_absolute_path path "configuration file")
    parents ← lift (parent_names path.names)
    ensure_directories path.is_absolute parents

  abbrev pub refuse_link : Option Entry → Result (Unit {0})
  refuse_link (some link) = err (unsafe_path "configuration file" "selected file is a symlink")
  refuse_link _ = ok tt

  -- `atomic_write`. A file that is published and then cannot be flushed stays.
  unfoldable pub atomic_write : FilePath → Bytes → Option ℕ → Os (Unit {0})
  unfolding mode_of
  atomic_write path bytes unix_mode = do
    ensure_parent_directory path
    found ← look_up path
    lift (refuse_link found)
    call machine publish path "publish file"
    change (put path (file bytes (mode_of machine unix_mode)))
    call machine flush path "sync directory"

  -- The end of `atomic_remove`, by what is there.
  unfoldable pub remove_entry : FilePath → Option Entry → Os (Unit {0})
  remove_entry path none = pure tt
  remove_entry path (some link) =
      lift (err (unsafe_path "configuration file" "removal target is not a regular file"))
  remove_entry path (some directory) =
      lift (err (unsafe_path "configuration file" "removal target is not a regular file"))
  remove_entry path (some (file bytes mode)) = do
    call machine unlink path "remove file"
    change (without path)
    call machine flush path "sync directory"

  -- `atomic_remove`
  unfoldable pub atomic_remove : FilePath → Os (Unit {0})
  unfolding remove_entry
  atomic_remove path = do
    found ← inspect_entry machine path "inspect removal target"
    remove_entry path found

  -- `restore_snapshot`
  unfoldable pub restore_snapshot : FilePath → Snapshot → Os (Unit {0})
  restore_snapshot path snapshot = elim snapshot.bytes [
    | none ↦ atomic_remove path
    | some bytes ↦ atomic_write path bytes snapshot.unix_mode
  ]

  -- `write_bounded_backup`. No caller looks at the path that it returns.
  unfoldable pub write_bounded_backup : FilePath → Snapshot → Os (Unit {0})
  write_bounded_backup target original = elim original.bytes [
    | none ↦ pure tt
    | some bytes ↦ lift (sibling_path target (codes ".kaleidoscope-backup")) >>= λ backup.
        atomic_write backup bytes (some 0x180)
  ]
