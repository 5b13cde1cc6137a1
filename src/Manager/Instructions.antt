-- ===== src/Manager/Instructions.antt =====
-- src/instructions.rs: the manager's text in the instruction files of an agent. `Parts` stands for the
-- texts that the build includes, and for the JSON form of a receipt.
pub mod Blocks
pub mod Receipts
pub mod Install
pub mod Removal
pub mod Apply
use kaleidoscope_sdk.Prelude.{
  if◌then◌else◌, bytes_eq, Text, codes, ℕ, ◌*◌, String, Bool, true, false, not, ◌||◌, Option, none,
  some, [], ◌∷◌,
}
use kaleidoscope_sdk.JsonSpan.Value.{Bytes}
use kaleidoscope_sdk.Manager.Error.{Result, ok, err, usage, unsafe_path, refuse_if, ◌>>◌}
use kaleidoscope_sdk.Manager.Files.Paths.{FilePath, join}
use kaleidoscope_sdk.Manager.Files.Snapshots.{Snapshot, TargetWrite}
use kaleidoscope_sdk.Manager.Host.{Host, codex, claude_code, open_code}
use kaleidoscope_sdk.Manager.Host

pub data InstructionTarget : Type 0 where
  skill agents claude cursor : InstructionTarget

unfoldable pub as_str : InstructionTarget → String
as_str skill = "skill"
as_str agents = "agents"
as_str claude = "claude"
as_str cursor = "cursor"

-- `InstructionTarget::from_str`
unfoldable pub from_str : Text → Result InstructionTarget
from_str t =
    if bytes_eq t (codes "skill") || bytes_eq t (codes "skill.md")
    then ok skill
    else if bytes_eq t (codes "agents") || bytes_eq t (codes "agents.md")
    then ok agents
    else if bytes_eq t (codes "claude") || bytes_eq t (codes "claude.md")
    then ok claude
    else if bytes_eq t (codes "cursor") || bytes_eq t (codes "cursor-rule")
    then ok cursor
    else err (usage "instruction target must be skill, agents, claude, or cursor")

-- The derived `==`.
abbrev pub target_eq : InstructionTarget → InstructionTarget → Bool
target_eq skill skill = true
target_eq agents agents = true
target_eq claude claude = true
target_eq cursor cursor = true
target_eq _ _ = false

pub data OwnedShape : Type 0 where
  marker_block whole_file : OwnedShape

abbrev pub is_whole_file : OwnedShape → Bool
is_whole_file whole_file = true
is_whole_file marker_block = false

pub data InstructionAction : Type 0 where
  add adopt update remove already_installed already_removed : InstructionAction

pub data RestoreTier : Type 0 where
  byte_identical structural adopted_left_in_place : RestoreTier

pub record InstructionReceipt : Type 0 where
  pub version : ℕ
  pub owner : Text
  pub target : InstructionTarget
  pub shape : OwnedShape
  pub owned_sha256 : Text
  pub owned_block : Text
  pub pre_sha256 : Text
  pub post_sha256 : Text
  pub separator : Text
  pub file_created : Bool
  pub adopted : Bool

-- What a plan says to people, its preview, is left out.
pub record InstructionPlan : Type 0 where
  pub target_kind : InstructionTarget
  pub host : Option Host
  pub action : InstructionAction
  pub target : FilePath
  pub receipt_path : FilePath
  pub backup_path : FilePath
  pub restore : Option RestoreTier
  pub discarded : Option Text
  pub adopted : Bool
  pub original : Snapshot
  pub receipt_original : Snapshot
  pub write : TargetWrite
  pub receipt_after : Option InstructionReceipt
  pub remove_backup : Bool

pub record Parts : Type 0 where
  -- The texts of `canonical_block`.
  pub canonical_block : InstructionTarget → Text
  -- `serde_json`, at the receipt.
  pub to_vec_pretty : InstructionReceipt → Option Bytes
  pub from_slice : Bytes → Option InstructionReceipt

abbrev pub owner_name : Text
owner_name = codes "kaleidoscope-manager-v1"

abbrev pub receipt_version : ℕ
receipt_version = 2

abbrev pub max_instruction_bytes : ℕ
max_instruction_bytes = 1024 * 1024

abbrev pub max_receipt_bytes : ℕ
max_receipt_bytes = 64 * 1024

unfoldable pub owned_shape : InstructionTarget → OwnedShape
owned_shape skill = whole_file
owned_shape agents = marker_block
owned_shape claude = marker_block
owned_shape cursor = marker_block

unfoldable pub marker_start : InstructionTarget → Text
marker_start skill = []
marker_start agents =
    codes "<!-- >>> kaleidoscope-manager owner=kaleidoscope-manager-v1 instruction=agents -->"
marker_start claude =
    codes "<!-- >>> kaleidoscope-manager owner=kaleidoscope-manager-v1 instruction=claude -->"
marker_start cursor =
    codes "---\n# >>> kaleidoscope-manager owner=kaleidoscope-manager-v1 instruction=cursor"

unfoldable pub marker_end : InstructionTarget → Text
marker_end skill = []
marker_end agents =
    codes "<!-- <<< kaleidoscope-manager owner=kaleidoscope-manager-v1 instruction=agents -->"
marker_end claude =
    codes "<!-- <<< kaleidoscope-manager owner=kaleidoscope-manager-v1 instruction=claude -->"
marker_end cursor =
    codes "# <<< kaleidoscope-manager owner=kaleidoscope-manager-v1 instruction=cursor"

-- The directory of the skill, which depends on the host.
abbrev skill_path : FilePath → Option Host → Result FilePath
skill_path project none = err (usage "instructions install skill requires --host")
skill_path project (some claude_code) = ok (
    join project
      (codes "SKILL.md" ∷ codes "use-kaleidoscope" ∷ codes "skills" ∷ codes ".claude" ∷ []))
skill_path project (some codex) = ok (
    join project
      (codes "SKILL.md" ∷ codes "use-kaleidoscope" ∷ codes "skills" ∷ codes ".agents" ∷ []))
skill_path project (some open_code) = ok (
    join project
      (codes "SKILL.md" ∷ codes "use-kaleidoscope" ∷ codes "skills" ∷ codes ".agents" ∷ []))
skill_path project (some Host.cursor) = err (usage "Cursor has no skill directory")

abbrev path_in : FilePath → Option Host → InstructionTarget → Result FilePath
path_in project host skill = skill_path project host
path_in project host agents = ok (join project (codes "AGENTS.md" ∷ []))
path_in project host claude = ok (join project (codes "CLAUDE.md" ∷ []))
path_in project host cursor =
    ok (join project (codes "kaleidoscope.mdc" ∷ codes "rules" ∷ codes ".cursor" ∷ []))

-- `instruction_path`
unfoldable pub instruction_path : InstructionTarget → Option Host → FilePath → Result FilePath
unfolding join
instruction_path kind host project =
    refuse_if (not project.is_absolute) (unsafe_path "project directory" "path must be absolute")
    >> path_in project host kind
