-- ===== src/Manager/Instructions/Apply/Undoes.antt =====
-- What a removal plans to write.
use kaleidoscope_sdk.Prelude.{◌≡◌, Bool, true, not, [], ◌++◌, Text, ◌⊎◌, some, Option, ◌&&◌}
use kaleidoscope_sdk.JsonSpan.Value.{Bytes}
use kaleidoscope_sdk.Manager.Error.{ok}
use kaleidoscope_sdk.Manager.Files.Os
use kaleidoscope_sdk.Manager.Files.Os.{Disk, Machine}
use kaleidoscope_sdk.Manager.Files.Snapshots.{Snapshot, TargetWrite, write, remove, leave}
use kaleidoscope_sdk.Manager.Instructions.{InstructionReceipt, Parts, is_whole_file, owned_shape}
use kaleidoscope_sdk.Manager.Instructions.Apply.{read_backup}
use kaleidoscope_sdk.Manager.Instructions.Receipts.{Site}

-- The text without the block, and without the separator that the receipt names, if it stood before it.
abbrev pub TakesOut : Text → Text → Text → Text → Type 0
TakesOut text block separator out =
    (a : Text) × (s : Text) × (b : Text) × (text ≡ a ++ (s ++ (block ++ b)))
    × ((s ≡ []) ⊎ (s ≡ separator))
    × (out ≡ a ++ b)

-- The bytes of the backup, which are those from before the installation by their digest, in the place of
-- what the installation wrote.
abbrev pub Restores : Site → InstructionReceipt → Snapshot → Bytes → Type 0
Restores site receipt backup out =
    (backup.bytes ≡ some out)
    × (backup.sha256 ≡ receipt.pre_sha256)
    × (site.original.sha256 ≡ receipt.post_sha256)

-- What a removal may do to a file with a block.
abbrev pub Undoes : Site → InstructionReceipt → Snapshot → Text → Text → TargetWrite → Type 0
Undoes site receipt backup text block leave = Unit {0}
Undoes site receipt backup text block remove = receipt.file_created ≡ true
Undoes site receipt backup text block (write out) =
    TakesOut text block receipt.separator out ⊎ Restores site receipt backup out

-- What a removal may do to a whole file that the manager did not create.
abbrev pub Releases : Site → InstructionReceipt → Snapshot → TargetWrite → Type 0
Releases site receipt backup leave = Unit {0}
Releases site receipt backup remove = ⊥
Releases site receipt backup (write out) = Restores site receipt backup out

module _ (machine : Machine) (parts : Parts) (site : Site) (force : Bool)
    (receipt : InstructionReceipt) (text : Text) where
  -- With the backup that is on the disk: a whole file that the manager did not create is released; or else
  -- the block that was found is undone, which is that of the receipt, but with `--force`.
  abbrev pub Removal : Option Text → Disk → TargetWrite → Type 0
  Removal current disk target =
      (backup : Snapshot) × ((read_backup machine parts site disk).0 ≡ ok backup)
      × (((is_whole_file (owned_shape site.target_kind) && not receipt.file_created ≡ true)
            × Releases site receipt backup target)
          ⊎ ((block : Text) × (current ≡ some block)
              × ((force ≡ true) ⊎ (block ≡ receipt.owned_block))
              × Undoes site receipt backup text block target))
