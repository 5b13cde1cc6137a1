-- ===== src/Manager/Hooks/Restore.antt =====
-- src/hooks.rs: what `plan_remove_at` writes to the settings file, once the entry is out of the document.
pub mod Justified
use kaleidoscope_sdk.Prelude.{
  Text, ℕ, ◌≡◌, refl, sym, ap, ◌∙◌, Bool, true, false, not, ◌&&◌, ◌||◌, Option, none, some, is_some,
  if◌then◌else◌, bytes_eq, bytes_eq→eq, Bool-cases, Option-cases, inl, inr, ◌⊎◌, ◌>>=◌, arith,
}
use kaleidoscope_sdk.JsonSpan.Value.{Bytes, Value}
use kaleidoscope_sdk.JsonSpan.Enter.{Serde}
use kaleidoscope_sdk.JsonSpan.Excise.{excise}
use kaleidoscope_sdk.JsonSpan.Excise.Sound.{IsExcision, excise-IsExcision}
use kaleidoscope_sdk.Manager.Error.{Result, ok, err, ok-injective}
use kaleidoscope_sdk.Manager.Files.Snapshots.{TargetWrite, write, remove, leave, Snapshot}
use kaleidoscope_sdk.Manager.Host.{Scope}
use kaleidoscope_sdk.Manager.Instructions.{RestoreTier, byte_identical, structural}
use kaleidoscope_sdk.Manager.Hooks.Document.{is_empty_shell}

pub record HookReceipt : Type 0 where
  pub version : ℕ
  pub owner : Text
  pub scope : Scope
  pub profile : Text
  pub owned : Value
  pub owned_sha256 : Text
  pub pre_sha256 : Text
  pub post_sha256 : Text
  pub file_created : Bool
  pub adopted : Bool

-- The tier, whether the formatting is kept, the write, and whether the backup goes.
abbrev pub Restore : Type 0
Restore = RestoreTier × Bool × TargetWrite × Bool

abbrev pub backup_write : Option Bytes → TargetWrite
backup_write none = remove
backup_write (some bytes) = write bytes

-- The first tier: the file is what the manager wrote.
unfoldable pub is_exact : HookReceipt → Snapshot → Snapshot → Bool
is_exact receipt original backup =
    not receipt.adopted
    && (bytes_eq original.sha256 receipt.post_sha256
        && (receipt.file_created
            || (is_some backup.bytes && bytes_eq backup.sha256 receipt.pre_sha256)))

-- `serde_json`, with the encoding of `encode_settings`, and the test for UTF-8.
module _ (serde : Serde) (encode_settings : Value → Result Bytes) (is_utf8 : Bytes → Bool) where
  abbrev pub utf8 : Option Bytes → Option Bytes
  utf8 none = none
  utf8 (some bytes) = if is_utf8 bytes then some bytes else none

  abbrev pub excised : Value → Value → Option Bytes → Option Bytes
  excised before after found = utf8 found >>= λ text. excise serde text before after

  abbrev pub encoded : Result Bytes → Result Restore
  encoded (err e) = err e
  encoded (ok bytes) = ok (structural, false, write bytes, false)

  abbrev pub cut_or_encoded : Value → Option Bytes → Result Restore
  cut_or_encoded after (some text) = ok (structural, true, write text, false)
  cut_or_encoded after none = encoded (encode_settings after)

  unfoldable pub restore_write : HookReceipt → Snapshot → Snapshot → Value → Value → Result Restore
  unfolding is_exact is_empty_shell
  restore_write receipt original backup before after =
      if is_exact receipt original backup
      then ok (
        byte_identical,
        false,
        (if receipt.file_created then remove else backup_write backup.bytes),
        true,
      )
      else if receipt.file_created && is_empty_shell after
      then ok (structural, false, remove, false)
      else cut_or_encoded after (excised before after original.bytes)
