-- ===== src/Manager/Instructions/Apply/Unlocks.antt =====
-- The lock of `apply` is gone when it returns.
use kaleidoscope_sdk.Prelude.{
  ◌≡◌, refl, sym, ◌∙◌, Bool, false, not, ◌||◌, [], ◌∷◌, List, Text, if◌then◌else◌, Option, some,
  none, Bool-cases, Option-cases, inl, inr, some-injective, none-ne-some,
}
use kaleidoscope_sdk.Manager.Error.{ErrorKind, Result, ok, err}
use kaleidoscope_sdk.Manager.Files.Paths.{FilePath, path_eq}
use kaleidoscope_sdk.Manager.Files.Os
use kaleidoscope_sdk.Manager.Files.Os.{
  Disk, Entry, file, directory, link, entry_at, without, Os, Machine, unlink, lift, pure, attempt,
  go_on, ◌>>=◌, ◌>>◌,
}
use kaleidoscope_sdk.Manager.Files.Snapshots.{is_remove}
use kaleidoscope_sdk.Manager.Files.Locks.{
  is_managed_directory, is_occupied, remove_dir, prune_from, prune, acquire, release,
}
use kaleidoscope_sdk.Manager.Instructions.{InstructionPlan, Parts}
use kaleidoscope_sdk.Manager.Instructions.Apply.{is_noop, apply_locked, apply}

module _ (p : FilePath) where
  without_self : (disk : Disk) → entry_at p (without p disk) ≡ none
  unfolding entry_at without
  without_self [] = refl
  without_self ((q, e) ∷ disk) = elim (Bool-cases (path_eq q p)) [
    | inl same ↦ rw same (without_self disk)
    | inr other ↦ rw other (rw other (without_self disk))
  ]

  -- What is missing stays missing where something is taken away.
  without-none :
      (q : FilePath) (disk : Disk) → entry_at p disk ≡ none → entry_at p (without q disk) ≡ none
  unfolding entry_at without
  without-none q [] missing = refl
  without-none q ((r, e) ∷ disk) missing = elim (Bool-cases (path_eq r p)) [
    | inl here ↦ absurd (none-ne-some {a = e} (sym missing ∙ rw here refl))
    | inr other ↦
        let rest = without-none q disk (rw other at missing) in
        elim (Bool-cases (path_eq r q)) [
          | inl gone ↦ rw gone rest
          | inr kept ↦ rw kept (rw other rest)
        ]
  ]

  module _ (machine : Machine) where
    remove_dir-none :
        (q : FilePath) (disk : Disk) (found : Option Entry) (failed : Option ErrorKind)
        {disk' : Disk}
        → remove_dir machine q disk found failed ≡ some disk'
        → entry_at p disk ≡ none
        → entry_at p disk' ≡ none
    remove_dir-none q disk none failed gone missing = cc
    remove_dir-none q disk (some link) failed gone missing = cc
    remove_dir-none q disk (some (file b m)) failed gone missing = cc
    remove_dir-none q disk (some directory) (some kind) gone missing = cc
    remove_dir-none q disk (some directory) none gone missing =
        rw (← some-injective gone) (without-none q disk missing)

    prune_from-none :
        (root : Bool) (names : List Text) (disk : Disk)
        → entry_at p disk ≡ none
        → entry_at p (prune_from machine root names disk) ≡ none
    unfolding prune_from
    prune_from-none root [] disk missing = missing
    prune_from-none root (name ∷ parents) disk missing =
        elim (Bool-cases (
          not (is_managed_directory machine name)
          || is_occupied machine root (name ∷ parents) disk)) [
            | inl stays ↦ rw stays missing
            | inr goes ↦
                let q : FilePath = record { is_absolute = root; names = name ∷ parents } in
                elim (Option-cases
                  (remove_dir machine q disk (entry_at q disk) (machine.fails unlink q disk))) [
                    | inl refused ↦ rw (goes, refused) missing
                    | inr (disk', gone) ↦
                        rw (goes, gone)
                          (prune_from-none root parents disk'
                            (remove_dir-none q disk (entry_at q disk) _ gone missing))
                  ]
          ]

-- The end of `apply`, after the lock is dropped.
module _ (machine : Machine) (parts : Parts) (plan : InstructionPlan) (lock : FilePath) where
  finish : Result (Unit {0}) → Os (Unit {0})
  finish outcome = do
    lift outcome
    if is_remove plan.write then prune machine plan.target else pure tt

  finish-none :
      (outcome : Result (Unit {0})) (disk : Disk)
      → entry_at lock disk ≡ none
      → entry_at lock (finish outcome disk).1 ≡ none
  unfolding finish ◌>>=◌ lift pure prune
  finish-none (err e) disk missing = missing
  finish-none (ok u) disk missing = elim (Bool-cases (is_remove plan.write)) [
    | inl removes ↦ rw removes (prune_from-none lock machine _ _ disk missing)
    | inr other ↦ rw other missing
  ]

  attempt-eq : (m : Os (Unit {0})) (disk : Disk) → attempt m disk ≡ (ok (m disk).0, (m disk).1)
  unfolding attempt
  attempt-eq m disk = refl

  release-eq :
      (disk : Disk)
      → machine.fails unlink lock disk ≡ none
      → release machine lock disk ≡ (ok tt, without lock disk)
  unfolding release
  release-eq disk works = rw works refl

  apply-eq :
      (disk : Disk) {held : Disk}
      → is_noop plan.action ≡ false
      → acquire machine plan.target disk ≡ (ok lock, held)
      → ((d : Disk) → machine.fails unlink lock d ≡ none)
      → apply machine parts plan disk
        ≡ finish
            (apply_locked machine parts plan held).0
            (without lock (apply_locked machine parts plan held).1)
  unfolding apply finish
  apply-eq disk {held} works acquired unlinks = rw works (
      Os.>>=-step _ _ disk acquired
      ∙ Os.>>=-step _ _ held (attempt-eq (apply_locked machine parts plan) held)
      ∙ Os.>>=-step _ _ _ (release-eq _ (unlinks _)))

  -- Once `apply` has the lock, the lock is gone when it returns, if it can be unlinked at all: whatever the
  -- outcome is, and whatever call of the system fails on the way.
  pub apply-unlocked :
      (disk : Disk) {held : Disk}
      → is_noop plan.action ≡ false
      → acquire machine plan.target disk ≡ (ok lock, held)
      → ((d : Disk) → machine.fails unlink lock d ≡ none)
      → entry_at lock (apply machine parts plan disk).1 ≡ none
  apply-unlocked disk works acquired unlinks =
      rw (apply-eq disk works acquired unlinks) (finish-none _ _ (without_self lock _))
