-- ===== src/Manager/Hooks/Tests.antt =====
-- The theorems about the edits of src/hooks.rs at concrete inputs, and runs of these.
use kaleidoscope_sdk.Prelude.{bytes_eq, codes, ◌≡◌, refl, ap, true, false, none, some}
use kaleidoscope_sdk.JsonSpan.Value.{
  remove_item, len, member_count, value_eq, item, get, Bytes, Value, Items, bool, array, object,
  nil, cons, end, member,
}
use kaleidoscope_sdk.Manager.Error.{ok, err, invalid_owner_receipt}
use kaleidoscope_sdk.Manager.Hooks.{event, owned_entry, adopt, update, already_installed}
use kaleidoscope_sdk.Manager.Hooks.Document.{
  remove_entry, replace_entry, entry_at, indices_where, push_entry, resembling_indices, event_array,
  identical_indices, matching_indices,
}
use kaleidoscope_sdk.Manager.Hooks.Document.Tidy.{is_tidy}
use kaleidoscope_sdk.Manager.Hooks.Action.{install_document}
use kaleidoscope_sdk.Manager.Hooks.Action.RoundTrip.{install_document-idempotent}
use kaleidoscope_sdk.Manager.Hooks.Removal.{remove_document, remove_document-install_document}
use kaleidoscope_sdk.Manager.Hooks.Removal.Owned.{TakesOwned, remove_document-TakesOwned}
use kaleidoscope_sdk.Manager.Hooks.Removal.Refuses.{two_entries, install_document-refuses}
use kaleidoscope_sdk.JsonSpan.Excise.{excise}
use kaleidoscope_sdk.JsonSpan.Tests.{text, rest, before, after, toy_serde, leading_member_cut}
use kaleidoscope_sdk.Manager.Files.Snapshots.{write, Snapshot}
use kaleidoscope_sdk.Manager.Host.{user}
use kaleidoscope_sdk.Manager.Instructions.{structural}
use kaleidoscope_sdk.Manager.Hooks.Restore.{HookReceipt, is_exact, cut_or_encoded, restore_write}
use kaleidoscope_sdk.Manager.Hooks.Restore.Justified.{Justified, restore_write-Justified}

abbrev entry : Value
entry = owned_entry 10 (codes "/m") (codes "p")

abbrev old_entry : Value
old_entry = owned_entry 10 (codes "/m") (codes "q")

abbrev settings : Value
settings = object (member (codes "quiet") (bool true) end)

abbrev settings_with : Items → Value
settings_with entries = object (
    member (codes "quiet") (bool true)
      (member (codes "hooks") (object (member event (array entries) end)) end))

install_document-idempotent_example :
    install_document (settings_with (cons entry nil)) (some entry) entry
    ≡ ok (already_installed, settings_with (cons entry nil))
unfolding is_tidy get bytes_eq install_document matching_indices identical_indices event_array
    resembling_indices owned_entry item push_entry
install_document-idempotent_example =
    install_document-idempotent 10 (codes "/m") (codes "p") settings none refl refl

remove_document-install_document_example :
    remove_document false (settings_with (cons entry nil)) entry ≡ ok (some settings)
unfolding is_tidy get bytes_eq install_document matching_indices identical_indices event_array
    resembling_indices owned_entry item push_entry
remove_document-install_document_example =
    remove_document-install_document false 10 (codes "/m") (codes "p") settings none refl refl

remove_document-TakesOwned_example :
    TakesOwned
      (settings_with (cons old_entry (cons entry nil)))
      entry
      (settings_with (cons old_entry nil))
unfolding remove_document matching_indices event_array get bytes_eq indices_where value_eq
    owned_entry member_count remove_entry len remove_item
remove_document-TakesOwned_example =
    remove_document-TakesOwned (settings_with (cons old_entry (cons entry nil))) entry refl

install_document-refuses_example :
    (install_document (settings_with (cons entry (cons entry nil))) (some entry) entry
      ≡ two_entries)
    × (remove_document true (settings_with (cons entry (cons entry nil))) entry ≡ two_entries)
unfolding value_eq owned_entry member_count get bytes_eq identical_indices event_array indices_where
    install_document matching_indices entry_at item replace_entry
install_document-refuses_example =
    install_document-refuses true (settings_with (cons old_entry (cons entry nil))) entry
      (some old_entry) refl refl refl

abbrev receipt : HookReceipt
receipt = record {
  version = 2;
  owner = codes "kaleidoscope-manager-v1";
  scope = user;
  profile = codes "p";
  owned = entry;
  owned_sha256 = codes "o";
  pre_sha256 = codes "f";
  post_sha256 = codes "e";
  file_created = false;
  adopted = true;
}

abbrev snapshot : Bytes → Snapshot
snapshot bytes = record { bytes = some bytes; sha256 = codes "d"; unix_mode = none }

restores_with :
    excise toy_serde text before after ≡ some rest
    → restore_write toy_serde
        (λ document. err invalid_owner_receipt)
        (λ bytes. true)
        receipt
        (snapshot text)
        (snapshot rest)
        before
        after
      ≡ ok (structural, true, write rest, false)
unfolding restore_write is_exact
restores_with h =
    ap (cut_or_encoded toy_serde (λ document. err invalid_owner_receipt) (λ bytes. true) after) h

restore_write-Justified_example :
    Justified toy_serde
      (λ document. err invalid_owner_receipt)
      (λ bytes. true)
      receipt
      (snapshot text)
      (snapshot rest)
      before
      after
      (structural, true, write rest, false)
restore_write-Justified_example =
    restore_write-Justified toy_serde (λ document. err invalid_owner_receipt) (λ bytes. true)
      receipt (snapshot text) (snapshot rest) before after (restores_with leading_member_cut)

-- One entry that stands there without a receipt is adopted.
adopts :
    install_document (settings_with (cons entry nil)) none entry
    ≡ ok (adopt, settings_with (cons entry nil))
unfolding install_document matching_indices identical_indices event_array get bytes_eq indices_where
    value_eq owned_entry member_count
adopts = refl

-- An update beside an entry that is already the new one makes a second one.
doubles :
    install_document (settings_with (cons old_entry (cons entry nil))) (some old_entry) entry
    ≡ ok (update, settings_with (cons entry (cons entry nil)))
unfolding install_document matching_indices event_array get bytes_eq indices_where value_eq
    owned_entry member_count entry_at item replace_entry
doubles = refl
