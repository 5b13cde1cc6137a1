-- ===== src/Manager/Files/Keeps.antt =====
-- What the operations of src/fs_safe.rs leave as it is: every file but those they are called for.
use kaleidoscope_sdk.Prelude.{
  none-ne-some, some-injective, ℕ, ◌≡◌, refl, sym, ap, ◌∙◌, Bool, false, not, [], ◌∷◌, List, ◌||◌,
  Text, codes, Option, some, none, Bool-cases, Option-cases, inl, inr, String,
}
use kaleidoscope_sdk.JsonSpan.Value.{Bytes}
use kaleidoscope_sdk.Manager.Error.{already_exists, other_kind, ok, ErrorKind}
use kaleidoscope_sdk.Manager.Files.Paths.{FilePath, path_eq, sibling_path}
use kaleidoscope_sdk.Manager.Files.Os
use kaleidoscope_sdk.Manager.Files.Os.{
  create_directory, Disk, Entry, file, directory, link, entry_at, without, put, Os, Machine, Call,
  inspect, unlink, pure, lift, attempt, change, call, look_up, inspect_entry, mode_of, go_on, ◌>>=◌,
  ◌>>◌,
}
use kaleidoscope_sdk.Manager.Files.Frame.{
  Keeps, HoldsFile, path_eq→eq, pure-Keeps, lift-Keeps, look_up-Keeps, bind-Keeps, bind_ok-Keeps,
  entry_at-without, put-Keeps, without-Keeps, call-Keeps, inspect_entry-Keeps,
}
use kaleidoscope_sdk.Manager.Files.Snapshots.{
  make_directory, Snapshot, read_entry, read_snapshot, assert_unchanged, ensure_entry,
  ensure_directories, ensure_parent_directory, atomic_write, remove_entry, atomic_remove,
  restore_snapshot, write_bounded_backup,
}
use kaleidoscope_sdk.Manager.Files.Locks.{
  is_managed_directory, is_occupied, acquire, release, prune, prune_from, remove_dir, released,
}

-- The file beside `target` with the suffix is another than `p`.
abbrev pub IsNotBeside : FilePath → FilePath → Text → Type 0
IsNotBeside p target suffix =
    (q : FilePath) → sibling_path target suffix ≡ ok q → path_eq q p ≡ false

module _ (machine : Machine) (p : FilePath) where
  -- A directory is made only where nothing stands.
  missing-ne :
      (cursor : FilePath) (disk : Disk) (bytes : Bytes) (mode : Option ℕ)
      → entry_at cursor disk ≡ none
      → HoldsFile p bytes mode disk
      → path_eq cursor p ≡ false
  missing-ne cursor disk bytes mode missing h = elim (Bool-cases (path_eq cursor p)) [
    | inl same ↦
        absurd
          (none-ne-some (sym missing ∙ ap (λ q. entry_at q disk) (path_eq→eq cursor p same) ∙ h))
    | inr other ↦ other
  ]

  make_directory-Keeps :
      (cursor : FilePath) (failed : Option ErrorKind)
      → path_eq cursor p ≡ false
      → Keeps p (make_directory machine cursor failed)
  unfolding make_directory
  make_directory-Keeps cursor none other =
      bind-Keeps p _ _ (put-Keeps p cursor directory other) (λ u. call-Keeps p machine _ cursor _)
  make_directory-Keeps cursor (some already_exists) other =
      bind-Keeps p _ _ (inspect_entry-Keeps p machine cursor _) (λ found. lift-Keeps p _)
  make_directory-Keeps cursor (some other_kind) other = lift-Keeps p _

  ensure_entry-Keeps :
      (cursor : FilePath) (found : Option Entry) (disk : Disk) (bytes : Bytes) (mode : Option ℕ)
      → entry_at cursor disk ≡ found
      → HoldsFile p bytes mode disk
      → HoldsFile p bytes mode (ensure_entry machine cursor found disk).1
  unfolding ensure_entry
  ensure_entry-Keeps cursor (some link) disk bytes mode is_found h =
      lift-Keeps p _ disk bytes mode h
  ensure_entry-Keeps cursor (some (file b m)) disk bytes mode is_found h =
      lift-Keeps p _ disk bytes mode h
  ensure_entry-Keeps cursor (some directory) disk bytes mode is_found h =
      pure-Keeps p _ disk bytes mode h
  ensure_entry-Keeps cursor none disk bytes mode is_found h =
      make_directory-Keeps cursor (machine.fails create_directory cursor disk)
        (missing-ne cursor disk bytes mode is_found h) disk bytes mode h

  ensure_one-Keeps :
      (cursor : FilePath)
      → Keeps p (
          inspect_entry machine cursor "inspect directory" >>= λ found.
          ensure_entry machine cursor found)
  unfolding ◌>>=◌ inspect_entry call look_up
  ensure_one-Keeps cursor disk bytes mode h =
      elim (Option-cases (machine.fails inspect cursor disk)) [
        | inl works ↦
            rw works (ensure_entry-Keeps cursor (entry_at cursor disk) disk bytes mode refl h)
        | inr (kind, fails) ↦ rw fails h
      ]

  ensure_directories-Keeps :
      (root : Bool) (names : List Text) → Keeps p (ensure_directories machine root names)
  unfolding ensure_directories
  ensure_directories-Keeps root [] = pure-Keeps p tt
  ensure_directories-Keeps root (name ∷ parents) =
      bind-Keeps p _ _ (ensure_directories-Keeps root parents)
        (λ u. ensure_one-Keeps (record { is_absolute = root; names = name ∷ parents }))

  pub ensure_parent_directory-Keeps : (q : FilePath) → Keeps p (ensure_parent_directory machine q)
  unfolding ensure_parent_directory
  ensure_parent_directory-Keeps q = bind-Keeps p _ _ (lift-Keeps p _) (λ u.
      bind-Keeps p _ _ (lift-Keeps p _) (λ parents. ensure_directories-Keeps q.is_absolute parents))

  read_entry-Keeps :
      (q : FilePath) (maximum : ℕ) (target : String) (found : Option Entry)
      → Keeps p (read_entry machine q maximum target found)
  unfolding read_entry
  read_entry-Keeps q maximum target none = pure-Keeps p _
  read_entry-Keeps q maximum target (some link) = lift-Keeps p _
  read_entry-Keeps q maximum target (some directory) = lift-Keeps p _
  read_entry-Keeps q maximum target (some (file b m)) =
      bind-Keeps p _ _ (lift-Keeps p _)
        (λ u. bind-Keeps p _ _ (call-Keeps p machine _ q _) (λ v. pure-Keeps p _))

  read_snapshot-Keeps :
      (q : FilePath) (maximum : ℕ) (target : String)
      → Keeps p (read_snapshot machine q maximum target)
  unfolding read_snapshot
  read_snapshot-Keeps q maximum target = bind-Keeps p _ _ (lift-Keeps p _) (λ u.
      bind-Keeps p _ _ (inspect_entry-Keeps p machine q _)
        (λ found. read_entry-Keeps q maximum target found))

  pub assert_unchanged-Keeps :
      (q : FilePath) (expected : Snapshot) (maximum : ℕ) (target : String)
      → Keeps p (assert_unchanged machine q expected maximum target)
  unfolding assert_unchanged
  assert_unchanged-Keeps q expected maximum target =
      bind-Keeps p _ _ (read_snapshot-Keeps q maximum target) (λ now. lift-Keeps p _)

  pub atomic_write-Keeps :
      (q : FilePath) (bytes : Bytes) (mode : Option ℕ)
      → path_eq q p ≡ false
      → Keeps p (atomic_write machine q bytes mode)
  unfolding atomic_write
  atomic_write-Keeps q bytes mode other = bind-Keeps p _ _ (ensure_parent_directory-Keeps q) (λ u.
      bind-Keeps p _ _ (look_up-Keeps p q) (λ found. bind-Keeps p _ _ (lift-Keeps p _) (λ u.
        bind-Keeps p _ _ (call-Keeps p machine _ q _)
          (λ u. bind-Keeps p _ _ (put-Keeps p q _ other) (λ u. call-Keeps p machine _ q _)))))

  remove_entry-Keeps :
      (q : FilePath) (found : Option Entry)
      → path_eq q p ≡ false
      → Keeps p (remove_entry machine q found)
  unfolding remove_entry
  remove_entry-Keeps q none other = pure-Keeps p tt
  remove_entry-Keeps q (some link) other = lift-Keeps p _
  remove_entry-Keeps q (some directory) other = lift-Keeps p _
  remove_entry-Keeps q (some (file b m)) other =
      bind-Keeps p _ _ (call-Keeps p machine _ q _)
        (λ u. bind-Keeps p _ _ (without-Keeps p q other) (λ u. call-Keeps p machine _ q _))

  pub atomic_remove-Keeps : (q : FilePath) → path_eq q p ≡ false → Keeps p (atomic_remove machine q)
  unfolding atomic_remove
  atomic_remove-Keeps q other =
      bind-Keeps p _ _ (inspect_entry-Keeps p machine q _)
        (λ found. remove_entry-Keeps q found other)

  pub restore_snapshot-Keeps :
      (q : FilePath) (snapshot : Snapshot)
      → path_eq q p ≡ false
      → Keeps p (restore_snapshot machine q snapshot)
  unfolding restore_snapshot
  restore_snapshot-Keeps q snapshot other = elim (Option-cases snapshot.bytes) [
    | inl absent ↦ rw absent (atomic_remove-Keeps q other)
    | inr (bytes, present) ↦ rw present (atomic_write-Keeps q bytes snapshot.unix_mode other)
  ]

  pub write_bounded_backup-Keeps :
      (target : FilePath) (original : Snapshot)
      → IsNotBeside p target (codes ".kaleidoscope-backup")
      → Keeps p (write_bounded_backup machine target original)
  unfolding write_bounded_backup
  write_bounded_backup-Keeps target original other = elim (Option-cases original.bytes) [
    | inl absent ↦ rw absent (pure-Keeps p tt)
    | inr (bytes, present) ↦ rw present (
        bind_ok-Keeps p _ _ (lift-Keeps p (sibling_path target (codes ".kaleidoscope-backup")))
          (λ backup before after found.
            atomic_write-Keeps backup bytes (some 0x180)
              (other backup (Os.lift-eq-ok _ before found))))
  ]

  -- The lock is the file beside the target.
  pub acquire-path :
      (target lock : FilePath) (before after : Disk)
      → acquire machine target before ≡ (ok lock, after)
      → sibling_path target (codes ".kaleidoscope-lock") ≡ ok lock
  unfolding acquire lift pure
  acquire-path target lock before after h =
      let (u, d1, e1, h1) = Os.>>=-eq-ok _ _ before h in
      let (path, d2, e2, h2) = Os.>>=-eq-ok _ _ d1 h1 in
      let (there, d3, e3, h3) = Os.>>=-eq-ok _ _ d2 h2 in
      let (u, d4, e4, h4) = Os.>>=-eq-ok _ _ d3 h3 in
      let (u, d5, e5, h5) = Os.>>=-eq-ok _ _ d4 h4 in
      let (u, d6, e6, h6) = Os.>>=-eq-ok _ _ d5 h5 in
      let (u, d7, e7, h7) = Os.>>=-eq-ok _ _ d6 h6 in ap (λ r. r.0) e2 ∙ ap (λ r. r.0) h7

  pub acquire-Keeps :
      (target : FilePath)
      → IsNotBeside p target (codes ".kaleidoscope-lock")
      → Keeps p (acquire machine target)
  unfolding acquire
  acquire-Keeps target other = bind-Keeps p _ _ (ensure_parent_directory-Keeps target) (λ u.
      bind_ok-Keeps p _ _ (lift-Keeps p (sibling_path target (codes ".kaleidoscope-lock")))
        (λ path before after found.
          bind-Keeps p _ _ (inspect_entry-Keeps p machine path _) (λ there.
            bind-Keeps p _ _ (lift-Keeps p _) (λ u.
              bind-Keeps p _ _ (call-Keeps p machine _ path _) (λ u.
                bind-Keeps p _ _ (put-Keeps p path _ (other path (Os.lift-eq-ok _ before found)))
                  (λ u.
                    bind-Keeps p _ _ (call-Keeps p machine _ path _) (λ u. pure-Keeps p path)))))))

  released-Keeps :
      (q : FilePath) (disk : Disk) (failed : Option ErrorKind) (bytes : Bytes) (mode : Option ℕ)
      → path_eq q p ≡ false
      → HoldsFile p bytes mode disk
      → HoldsFile p bytes mode (released machine q disk failed)
  released-Keeps q disk none bytes mode other h = entry_at-without p q disk other ∙ h
  released-Keeps q disk (some kind) bytes mode other h = h

  pub release-Keeps : (q : FilePath) → path_eq q p ≡ false → Keeps p (release machine q)
  unfolding release
  release-Keeps q other disk bytes mode h = released-Keeps q disk _ bytes mode other h

  remove_dir-Keeps :
      (q : FilePath) (disk : Disk) (found : Option Entry) (failed : Option ErrorKind)
      (bytes : Bytes) (mode : Option ℕ) {disk' : Disk}
      → entry_at q disk ≡ found
      → remove_dir machine q disk found failed ≡ some disk'
      → HoldsFile p bytes mode disk
      → HoldsFile p bytes mode disk'
  remove_dir-Keeps q disk none failed bytes mode is_found gone h = cc
  remove_dir-Keeps q disk (some link) failed bytes mode is_found gone h = cc
  remove_dir-Keeps q disk (some (file b m)) failed bytes mode is_found gone h = cc
  remove_dir-Keeps q disk (some directory) (some kind) bytes mode is_found gone h = cc
  remove_dir-Keeps q disk (some directory) none bytes mode is_found gone h =
      elim (Bool-cases (path_eq q p)) [
        | inl same ↦ absurd (cc (path_eq→eq q p same))
        | inr other ↦ rw (← some-injective gone) (entry_at-without p q disk other ∙ h)
      ]

  prune_from-Keeps :
      (root : Bool) (names : List Text) (disk : Disk) (bytes : Bytes) (mode : Option ℕ)
      → HoldsFile p bytes mode disk
      → HoldsFile p bytes mode (prune_from machine root names disk)
  unfolding prune_from
  prune_from-Keeps root [] disk bytes mode h = h
  prune_from-Keeps root (name ∷ parents) disk bytes mode h =
      elim (Bool-cases (
        not (is_managed_directory machine name)
        || is_occupied machine root (name ∷ parents) disk)) [
          | inl stays ↦ rw stays h
          | inr goes ↦
              let q : FilePath = record { is_absolute = root; names = name ∷ parents } in
              elim (Option-cases
                (remove_dir machine q disk (entry_at q disk) (machine.fails unlink q disk))) [
                  | inl refused ↦ rw (goes, refused) h
                  | inr (disk', gone) ↦
                      rw (goes, gone)
                        (prune_from-Keeps root parents disk' bytes mode
                          (remove_dir-Keeps q disk (entry_at q disk) _ bytes mode refl gone h))
                ]
        ]

  pub prune-Keeps : (target : FilePath) → Keeps p (prune machine target)
  unfolding prune
  prune-Keeps target disk bytes mode h = prune_from-Keeps _ _ disk bytes mode h
