-- ===== src/Manager/Hooks/Restore/Justified.antt =====
-- What a removal writes to the settings file, and what that rests on.
use kaleidoscope_sdk.Prelude.{
  ◌≡◌, refl, Bool, true, false, not, ◌&&◌, ◌||◌, Option, none, some, is_some, if◌then◌else◌,
  bytes_eq, bytes_eq→eq, Bool-cases, inl, inr,
}
use kaleidoscope_sdk.JsonSpan.Value.{Bytes, Value}
use kaleidoscope_sdk.JsonSpan.Enter.{Serde}
use kaleidoscope_sdk.JsonSpan.Excise.Sound.{IsExcision, excise-IsExcision}
use kaleidoscope_sdk.Manager.Error.{Result, ok, err, ok-injective}
use kaleidoscope_sdk.Manager.Files.Snapshots.{TargetWrite, write, remove, leave, Snapshot}
use kaleidoscope_sdk.Manager.Instructions.{
  RestoreTier, byte_identical, structural, adopted_left_in_place,
}
use kaleidoscope_sdk.Manager.Hooks.Document.{is_empty_shell}
use mathlib.Core.Path.{subst}
use kaleidoscope_sdk.Manager.Hooks.Restore.{
  HookReceipt, Restore, backup_write, is_exact, excised, encoded, cut_or_encoded, restore_write,
}

and-true : (a b : Bool) → (a && b) ≡ true → (a ≡ true) × (b ≡ true)
and-true true b h = (refl, h)
and-true false b h = cc

not-true : (a : Bool) → not a ≡ true → a ≡ false
not-true true h = cc
not-true false h = refl

module _ (serde : Serde) (encode_settings : Value → Result Bytes) (is_utf8 : Bytes → Bool)
    (receipt : HookReceipt) (original backup : Snapshot) (before after : Value) where
  abbrev JustifiedBy : RestoreTier → Bool → TargetWrite → Type 0
  JustifiedBy tier kept remove = receipt.file_created ≡ true
  JustifiedBy tier kept leave = ⊥
  JustifiedBy byte_identical kept (write bytes) =
      (receipt.adopted ≡ false)
      × (original.sha256 ≡ receipt.post_sha256)
      × (backup.bytes ≡ some bytes)
      × (backup.sha256 ≡ receipt.pre_sha256)
  JustifiedBy structural true (write bytes) =
      (text : Bytes) × (original.bytes ≡ some text) × IsExcision serde text before after bytes
  JustifiedBy structural false (write bytes) = encode_settings after ≡ ok bytes
  JustifiedBy adopted_left_in_place kept (write bytes) = ⊥

  -- A file is deleted if the manager created it; the bytes of the backup, by the digest those from before
  -- the installation, replace only what the installation wrote; otherwise the entry is cut out of the
  -- text, or the document without it is encoded.
  abbrev pub Justified : Restore → Type 0
  Justified (tier, kept, target, gone) = JustifiedBy tier kept target

  exact_created :
      (created : Bool) (saved : Option Bytes)
      → receipt.file_created ≡ created
      → backup.bytes ≡ saved
      → receipt.adopted ≡ false
      → original.sha256 ≡ receipt.post_sha256
      → (created || (is_some saved && bytes_eq backup.sha256 receipt.pre_sha256)) ≡ true
      → Justified (byte_identical, false, (if created then remove else backup_write saved), true)
  exact_created true saved is_created stands own same h = is_created
  exact_created false none is_created stands own same h = cc
  exact_created false (some bytes) is_created stands own same h =
      (own, same, stands, bytes_eq→eq backup.sha256 receipt.pre_sha256 h)

  exact-Justified :
      is_exact receipt original backup ≡ true
      → Justified (
        byte_identical,
        false,
        (if receipt.file_created then remove else backup_write backup.bytes),
        true,
      )
  unfolding is_exact
  exact-Justified h =
      let (own, rest) = and-true (not receipt.adopted) _ h in
      let (same, last) = and-true (bytes_eq original.sha256 receipt.post_sha256) _ rest in
      exact_created receipt.file_created backup.bytes refl refl (not-true receipt.adopted own)
        (bytes_eq→eq original.sha256 receipt.post_sha256 same) last

  excised-IsExcision :
      (found : Option Bytes) {out : Bytes}
      → excised serde encode_settings is_utf8 before after found ≡ some out
      → (text : Bytes) × (found ≡ some text) × IsExcision serde text before after out
  excised-IsExcision none h = cc
  excised-IsExcision (some text) {out} h = elim (Bool-cases (is_utf8 text)) [
    | inl valid ↦ (text, refl, excise-IsExcision serde text before after out (rw valid at h))
    | inr invalid ↦ absurd (none-ne (rw invalid at h))
  ]
    where
      none-ne : {b : Bytes} → none ≡ some b → ⊥
      none-ne e = cc

  encoded-Justified :
      (result : Result Bytes) {restore : Restore}
      → encode_settings after ≡ result
      → encoded serde encode_settings is_utf8 result ≡ ok restore
      → Justified restore
  encoded-Justified (err e) is_result h = cc
  encoded-Justified (ok bytes) is_result h = subst Justified (ok-injective h) is_result

  written-Justified :
      (found : Option Bytes) {restore : Restore}
      → excised serde encode_settings is_utf8 before after original.bytes ≡ found
      → cut_or_encoded serde encode_settings is_utf8 after found ≡ ok restore
      → Justified restore
  written-Justified none is_found h = encoded-Justified (encode_settings after) refl h
  written-Justified (some out) is_found h =
      subst Justified (ok-injective h) (excised-IsExcision original.bytes is_found)

  -- What a removal writes to the settings file is justified: the file is deleted only if the manager
  -- created it; the backup is written only if the entry was not adopted, the file is what the
  -- installation wrote, and the backup what was there before, by the digests; or else the text is written
  -- with nothing but the entry cut out of it, as `excise` found it, or the document without the entry is
  -- encoded.
  pub restore_write-Justified :
      {restore : Restore}
      → restore_write serde encode_settings is_utf8 receipt original backup before after
        ≡ ok restore
      → Justified restore
  unfolding restore_write
  restore_write-Justified h = elim (Bool-cases (is_exact receipt original backup)) [
    | inl exact ↦ subst Justified (ok-injective (rw exact at h)) (exact-Justified exact)
    | inr changed ↦ elim (Bool-cases (receipt.file_created && is_empty_shell after)) [
      | inl empty ↦
          subst Justified (ok-injective (rw empty at (rw changed at h)))
            (and-true receipt.file_created (is_empty_shell after) empty).0
      | inr others ↦
          written-Justified (excised serde encode_settings is_utf8 before after original.bytes) refl
            (rw others at (rw changed at h))
    ]
  ]
