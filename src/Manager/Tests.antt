-- ===== src/Manager/Tests.antt =====
-- The manager on a small project: `Machine` and `Parts` are given here by concrete functions, a machine
-- whose calls never fail and a digest that is the bytes themselves.
mod Applied
use kaleidoscope_sdk.Prelude.{
  strip_suffix, ends_with, matches_from, bytes_eq, find_from, ℕ, ◌≡◌, refl, sym, ◌∙◌, Bool, true,
  false, List, [], ◌∷◌, ◌++◌, Text, codes, Option, some, none, ◌⊎◌, String, starts_with,
}
use kaleidoscope_sdk.JsonSpan.Value.{Bytes}
use kaleidoscope_sdk.Manager.Error.{
  Result, ManagerError, ok, err, ok-injective, concurrent_edit, io, other_kind,
}
use kaleidoscope_sdk.Manager.Files.Paths.{FilePath, path_eq, sibling_path}
use kaleidoscope_sdk.Manager.Files.Os.{
  Entry, file, directory, entry_at, Machine, Os, lift, ◌>>◌, mode_of, unlink,
}
use kaleidoscope_sdk.Manager.Files.Keeps.{IsNotBeside}
use kaleidoscope_sdk.Manager.Files.Snapshots.{
  Snapshot, TargetWrite, write, absent, snapshot_of, snapshot_eq, read_snapshot, restore_snapshot,
}
use kaleidoscope_sdk.Manager.Files.Locks.{acquire}
use kaleidoscope_sdk.Manager.Instructions.{
  InstructionTarget, agents, OwnedShape, marker_block, InstructionPlan, InstructionReceipt, Parts,
  already_installed, marker_start, marker_end, owned_shape, max_instruction_bytes,
}
use kaleidoscope_sdk.Manager.Instructions.Receipts.{
  snapshot_text, Site, noop_plan, decode_receipt, or_text,
}
use kaleidoscope_sdk.Manager.Instructions.Blocks.{
  validate_ownership, find_owned_block, remove_block, install_block, current_owned,
}
use kaleidoscope_sdk.Manager.Instructions.Blocks.Found.{Holds}
use kaleidoscope_sdk.Manager.Instructions.Blocks.Located.{Located, current_owned-Located}
use kaleidoscope_sdk.Manager.Instructions.Blocks.Removal.{remove_block-keeps}
use kaleidoscope_sdk.Manager.Instructions.Blocks.RoundTrip.{remove_block-install_block}
use kaleidoscope_sdk.Manager.Instructions.Install.{install_plan}
use kaleidoscope_sdk.Manager.Instructions.Install.Discards.{Installs}
use kaleidoscope_sdk.Manager.Instructions.Install.Disclosed.{
  install_plan-Installs, install_plan-discarded,
}
use kaleidoscope_sdk.Manager.Instructions.Apply.{
  read_backup, remove_owned, settle, apply_locked, apply, write_target, file_mode, is_noop,
}
use kaleidoscope_sdk.Manager.Instructions.Apply.Undoes.{Undoes}
use kaleidoscope_sdk.Manager.Instructions.Apply.RoundTrip.{IsExact, site_after}
use kaleidoscope_sdk.Manager.Instructions.Apply.Keeps.{IsForeign, apply-Keeps}
use kaleidoscope_sdk.Manager.Instructions.Apply.Rollback.{
  settle-restores, settle-new_file, read_target,
}
use kaleidoscope_sdk.Manager.Instructions.Apply.Unlocks.{apply-unlocked}

abbrev machine : Machine
machine = record {
  fails = λ c path disk. none;
  digest_bytes = λ bytes. bytes;
  is_utf8 = λ bytes. true;
  has_modes = true;
}

-- The block of AGENTS.md, between its markers.
abbrev block_with : Text → Text
block_with words =
    codes "<!-- >>> kaleidoscope-manager owner=kaleidoscope-manager-v1 instruction=agents -->\n"
    ++ (words
        ++ codes
            "<!-- <<< kaleidoscope-manager owner=kaleidoscope-manager-v1 instruction=agents -->\n")

abbrev block : Text
block = block_with (codes "Ask.\n")

abbrev parts : Parts
parts = record {
  canonical_block = λ kind. block;
  to_vec_pretty = λ receipt. some (codes "{}");
  from_slice = λ bytes. none;
}

abbrev kind_text : Text
kind_text = codes "Be kind.\n"

abbrev path_to : Text → FilePath
path_to name = record { is_absolute = true; names = name ∷ codes "project" ∷ [] }

-- A text with a block between two of the user's lines.
abbrev around : Text
around = codes "a\n\nB\nc\n"

remove_block-keeps_input :
    remove_block around (codes "B\n") (codes "\n") marker_block ≡ ok (codes "a\nc\n")
unfolding remove_block find_from starts_with bytes_eq
remove_block-keeps_input = refl

remove_block-keeps_example :
    (a : Text) × (s : Text) × (b : Text) × (around ≡ a ++ (s ++ (codes "B\n" ++ b)))
    × ((s ≡ []) ⊎ (s ≡ codes "\n"))
    × (codes "a\nc\n" ≡ a ++ b)
remove_block-keeps_example =
    remove_block-keeps around (codes "B\n") (codes "\n") (codes "a\nc\n") remove_block-keeps_input

no_block : find_owned_block kind_text agents ≡ ok none
unfolding find_owned_block marker_start marker_end matches_from starts_with
no_block = refl

added :
    install_block kind_text none block marker_block
    ≡ ok (kind_text ++ (codes "\n" ++ block), codes "\n")
unfolding install_block ends_with strip_suffix
added = refl

remove_block-install_block_example :
    (find_owned_block (kind_text ++ (codes "\n" ++ block)) agents ≡ find_owned_block block agents)
    × (remove_block (kind_text ++ (codes "\n" ++ block)) block (codes "\n") marker_block
        ≡ ok kind_text)
unfolding marker_start marker_end starts_with
remove_block-install_block_example =
    remove_block-install_block kind_text block agents {separator = codes "\n"} refl refl refl
      no_block added

found : current_owned (kind_text ++ block) agents none marker_block false ≡ ok (some block)
unfolding current_owned find_owned_block marker_start marker_end matches_from starts_with
found = refl

current_owned-Located_example : Located (kind_text ++ block) agents marker_block false block
current_owned-Located_example =
    current_owned-Located (kind_text ++ block) agents none marker_block false found

-- AGENTS.md as it is read: there, and without a receipt beside it.
abbrev site : Bytes → Site
site bytes = record {
  target_kind = agents;
  host = none;
  target = path_to (codes "AGENTS.md");
  receipt_path = path_to (codes "AGENTS.md.kaleidoscope-instruction-owner.json");
  backup_path = path_to (codes "AGENTS.md.kaleidoscope-backup");
  original = snapshot_of machine bytes (some 0x1A4);
  receipt_original = absent machine;
}

-- A result by its value, with a stand-in for an error.
abbrev value_of : Result InstructionPlan → InstructionPlan
value_of (ok plan) = plan
value_of (err e) = noop_plan (site []) already_installed

abbrev is_ok : Result InstructionPlan → Bool
is_ok (ok plan) = true
is_ok (err e) = false

value_of-eq : (r : Result InstructionPlan) → is_ok r ≡ true → r ≡ ok (value_of r)
value_of-eq (ok plan) h = refl
value_of-eq (err e) h = cc

abbrev installed : InstructionPlan
installed = value_of (install_plan machine parts (site kind_text) false)

abbrev kind_and_block : Text
kind_and_block = kind_text ++ (codes "\n" ++ block)

installed-ok : install_plan machine parts (site kind_text) false ≡ ok installed
unfolding install_plan decode_receipt absent snapshot_text current_owned owned_shape
    find_owned_block matches_from snapshot_of starts_with marker_start marker_end validate_ownership
    install_block
installed-ok = value_of-eq (install_plan machine parts (site kind_text) false) refl

installed-write : installed.write ≡ write kind_and_block
unfolding install_plan decode_receipt absent snapshot_text current_owned owned_shape
    find_owned_block matches_from snapshot_of starts_with marker_start marker_end validate_ownership
    install_block ends_with strip_suffix
installed-write = refl

installed-discarded : installed.discarded ≡ none
unfolding install_plan decode_receipt absent snapshot_text current_owned owned_shape
    find_owned_block matches_from snapshot_of starts_with marker_start marker_end validate_ownership
    install_block
installed-discarded = refl

install_plan-Installs_example :
    (old : Option InstructionReceipt) × (decode_receipt machine parts (absent machine) agents
      ≡ ok old)
    × Installs (owned_shape agents) old kind_text block kind_and_block
unfolding snapshot_of
install_plan-Installs_example =
    install_plan-Installs machine parts (site kind_text) false installed-ok installed-write
      installed-discarded

-- The block, edited by hand.
abbrev edited : Text
edited = block_with (codes "Never ask.\n")

abbrev forced_plan : InstructionPlan
forced_plan = value_of (install_plan machine parts (site edited) true)

forced-ok : install_plan machine parts (site edited) true ≡ ok forced_plan
unfolding install_plan decode_receipt absent snapshot_text current_owned owned_shape
    find_owned_block matches_from snapshot_of starts_with marker_start marker_end bytes_eq
    install_block
forced-ok = value_of-eq (install_plan machine parts (site edited) true) refl

forced-discarded : forced_plan.discarded ≡ some edited
unfolding install_plan decode_receipt absent snapshot_text current_owned owned_shape
    find_owned_block matches_from snapshot_of starts_with marker_start marker_end bytes_eq
    install_block
forced-discarded = refl

install_plan-discarded_example : (◌≡◌ {A = Bool} true true) × Holds edited edited
unfolding snapshot_of
install_plan-discarded_example =
    install_plan-discarded machine parts (site edited) true forced-ok forced-discarded
