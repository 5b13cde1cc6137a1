-- ===== src/Manager/Hooks/Action.antt =====
-- src/hooks.rs: what `plan_install_at` does, by the entries of the document and the entry of the receipt.
pub mod RoundTrip
use kaleidoscope_sdk.Prelude.{
  ℕ, suc, Bool, Option, none, some, List, [], ◌∷◌, if◌then◌else◌, ltb, is_some,
}
use kaleidoscope_sdk.JsonSpan.Value.{Value, value_eq}
use kaleidoscope_sdk.Manager.Error.{Result, ok, err, host_conflict, ◌>>=◌}
use kaleidoscope_sdk.Manager.Hooks.{
  HookAction, add, adopt, update, remove, already_installed, already_removed,
}
use kaleidoscope_sdk.Manager.Hooks.Document.{
  matching_indices, identical_indices, resembling_indices, entry_at, push_entry, replace_entry,
}

-- The lines of the `match` where no entry is the receipt's, without a receipt and with one.
abbrev pub unmatched : Option Value → List ℕ → List ℕ → Result HookAction
unmatched owned [] [] = ok add
unmatched none (i ∷ []) resembling = ok adopt
unmatched none (i ∷ j ∷ identical) resembling =
    err (host_conflict "several identical Kaleidoscope entries")
unmatched owned identical resembling =
    err (host_conflict "an entry that runs this manager with different surrounding fields")

abbrev pub by_entry : Value → Value → HookAction
by_entry desired entry = if value_eq entry desired then already_installed else update

abbrev pub by_matches : Value → Option Value → Value → List ℕ → Result HookAction
by_matches document owned desired [] =
    unmatched owned (identical_indices document desired) (resembling_indices document desired)
by_matches document owned desired (i ∷ []) =
    entry_at document i >>= λ entry. ok (by_entry desired entry)
by_matches document owned desired (i ∷ j ∷ more) =
    err (host_conflict "several identical manager-owned entries")

-- The `match` of `plan_install_at`, by what the receipt owns.
unfoldable pub install_action : Value → Option Value → Value → Result HookAction
install_action document owned desired =
    by_matches document owned desired (matching_indices document owned)

abbrev pub replace_first_of : Value → Value → List ℕ → Result Value
replace_first_of document desired [] = ok document
replace_first_of document desired (i ∷ more) = replace_entry document i desired

-- The document after the installation, which is the one before for the actions that write nothing.
unfoldable pub edited : Value → Option Value → Value → HookAction → Result Value
edited document owned desired add = push_entry document desired
edited document owned desired update =
    replace_first_of document desired (matching_indices document owned)
edited document owned desired _ = ok document

-- The part of `plan_install_at` from the three probes to the new document.
unfoldable pub install_document : Value → Option Value → Value → Result (HookAction × Value)
unfolding install_action edited
install_document document owned desired = do
  action ← install_action document owned desired
  document' ← edited document owned desired action
  ok (action, document')
