-- ===== src/Manager/Instructions/Apply/Keeps.antt =====
-- What `apply` leaves as it is.
use kaleidoscope_sdk.Prelude.{◌≡◌, Bool, true, false, if◌then◌else◌, codes, Option, some, none}
use kaleidoscope_sdk.JsonSpan.Value.{Bytes}
use kaleidoscope_sdk.Manager.Error.{Result, ok, err}
use kaleidoscope_sdk.Manager.Files.Paths.{FilePath, path_eq}
use kaleidoscope_sdk.Manager.Files.Os.{Os, Machine}
use kaleidoscope_sdk.Manager.Files.Frame.{
  Keeps, pure-Keeps, lift-Keeps, attempt-Keeps, bind-Keeps, bind_ok-Keeps,
}
use kaleidoscope_sdk.Manager.Files.Keeps.{
  IsNotBeside, assert_unchanged-Keeps, atomic_write-Keeps, atomic_remove-Keeps,
  restore_snapshot-Keeps, write_bounded_backup-Keeps, acquire-path, acquire-Keeps, release-Keeps,
  prune-Keeps,
}
use kaleidoscope_sdk.Manager.Files.Snapshots.{TargetWrite, write, remove, leave, is_remove}
use kaleidoscope_sdk.Manager.Instructions.{InstructionPlan, Parts}
use kaleidoscope_sdk.Manager.Instructions.Apply.{
  is_noop, write_target, write_receipt, restore_if, settle, apply_locked, apply,
}

-- A path that the plan does not name, and that is neither the lock nor the backup beside its target.
abbrev pub IsForeign : InstructionPlan → FilePath → Type 0
IsForeign plan p =
    (path_eq plan.target p ≡ false)
    × (path_eq plan.receipt_path p ≡ false)
    × (path_eq plan.backup_path p ≡ false)
    × IsNotBeside p plan.target (codes ".kaleidoscope-lock")
    × IsNotBeside p plan.target (codes ".kaleidoscope-backup")

if-Keeps :
    (p : FilePath) (test : Bool) (m n : Os (Unit {0}))
    → Keeps p m
    → Keeps p n
    → Keeps p (if test then m else n)
if-Keeps p true m n first second = first
if-Keeps p false m n first second = second

module _ (machine : Machine) (parts : Parts) (p : FilePath) (plan : InstructionPlan)
    (foreign : IsForeign plan p) where
  write_target-Keeps :
      (w : TargetWrite) → Keeps p (write_target machine plan.target plan.original w)
  unfolding write_target
  write_target-Keeps (write bytes) = atomic_write-Keeps machine p plan.target bytes _ foreign.0
  write_target-Keeps remove = atomic_remove-Keeps machine p plan.target foreign.0
  write_target-Keeps leave = pure-Keeps p tt

  write_receipt-Keeps :
      (bytes : Option Bytes) → Keeps p (write_receipt machine parts plan.receipt_path bytes)
  write_receipt-Keeps none = atomic_remove-Keeps machine p plan.receipt_path foreign.1
  write_receipt-Keeps (some bytes) =
      atomic_write-Keeps machine p plan.receipt_path bytes _ foreign.1

  restore_if-Keeps :
      (unchanged : Result (Unit {0})) → Keeps p (restore_if machine parts plan unchanged)
  restore_if-Keeps (err e) = pure-Keeps p tt
  restore_if-Keeps (ok u) = restore_snapshot-Keeps machine p plan.target plan.original foreign.0

  settle-Keeps : (outcome : Result (Unit {0})) → Keeps p (settle machine parts plan outcome)
  unfolding settle
  settle-Keeps (ok u) =
      if-Keeps p plan.remove_backup _ _ (atomic_remove-Keeps machine p plan.backup_path foreign.2)
        (pure-Keeps p tt)
  settle-Keeps (err e) =
      bind-Keeps p _ _ (attempt-Keeps p _ (assert_unchanged-Keeps machine p plan.target _ _ _))
        (λ unchanged. bind-Keeps p _ _ (restore_if-Keeps unchanged) (λ u. lift-Keeps p _))

  apply_locked-Keeps : Keeps p (apply_locked machine parts plan)
  unfolding apply_locked
  apply_locked-Keeps = bind-Keeps p _ _ (assert_unchanged-Keeps machine p plan.target _ _ _) (λ u.
      bind-Keeps p _ _ (assert_unchanged-Keeps machine p plan.receipt_path _ _ _) (λ u.
        bind-Keeps p _ _
          (if-Keeps p _ _ _ (write_bounded_backup-Keeps machine p plan.target _ foreign.4)
            (pure-Keeps p tt))
          (λ u. bind-Keeps p _ _ (write_target-Keeps plan.write) (λ u.
            bind-Keeps p _ _ (lift-Keeps p _) (λ bytes.
              bind-Keeps p _ _ (attempt-Keeps p _ (write_receipt-Keeps bytes))
                (λ outcome. settle-Keeps outcome))))))

  -- Applying a plan, whatever call of the system fails on the way, leaves every file as it is, bytes and
  -- mode, that is not the target, its receipt, its backup or its lock.
  pub apply-Keeps : Keeps p (apply machine parts plan)
  unfolding apply
  apply-Keeps = if-Keeps p (is_noop plan.action) _ _ (pure-Keeps p tt) (
      bind_ok-Keeps p _ _ (acquire-Keeps machine p plan.target foreign.3)
        (λ lock before after acquired.
          bind-Keeps p _ _ (attempt-Keeps p _ apply_locked-Keeps) (λ outcome.
            bind-Keeps p _ _
              (release-Keeps machine p lock
                (foreign.3 lock (acquire-path machine p plan.target lock before after acquired)))
              (λ u. bind-Keeps p _ _ (lift-Keeps p outcome) (λ u.
                if-Keeps p (is_remove plan.write) _ _ (prune-Keeps machine p plan.target)
                  (pure-Keeps p tt))))))
