-- ===== src/Manager/Hooks/Removal.antt =====
-- src/hooks.rs: what `plan_remove_at` does to the document, by the entry of the receipt.
pub mod Owned
pub mod Refuses
use kaleidoscope_sdk.Prelude.{
  ℕ, ◌≡◌, ap, ◌∙◌, Bool, true, false, Text, Option, none, some, List, [], ◌∷◌,
}
use kaleidoscope_sdk.JsonSpan.Value.{Value}
use kaleidoscope_sdk.Manager.Error.{Result, ok, err, host_conflict, ◌>>=◌}
use kaleidoscope_sdk.Manager.Hooks.{add, owned_entry}
use kaleidoscope_sdk.Manager.Hooks.Document.{matching_indices, resembling_indices, remove_entry}
use kaleidoscope_sdk.Manager.Hooks.Document.Tidy.{is_tidy}
use kaleidoscope_sdk.Manager.Hooks.Document.RoundTrip.{IsUndone}
use kaleidoscope_sdk.Manager.Hooks.Action.{install_document}
use kaleidoscope_sdk.Manager.Hooks.Action.RoundTrip.{install_document-IsUndone}

-- An edited copy of the entry is removed with `--force` only.
abbrev pub remove_resembling : Bool → Value → List ℕ → Result (Option Value)
remove_resembling force document [] = ok none
remove_resembling false document (i ∷ more) =
    err (host_conflict "hand-edited and no longer matches its owner receipt")
remove_resembling true document (i ∷ more) = remove_entry document i >>= λ d. ok (some d)

abbrev pub remove_matching : Bool → Value → Value → List ℕ → Result (Option Value)
remove_matching force document owned [] =
    remove_resembling force document (resembling_indices document owned)
remove_matching force document owned (i ∷ []) = remove_entry document i >>= λ d. ok (some d)
remove_matching force document owned (i ∷ j ∷ more) =
    err (host_conflict "several identical manager-owned entries")

-- The document without the entry, and nothing where it is already removed.
unfoldable pub remove_document : Bool → Value → Value → Result (Option Value)
remove_document force document owned =
    remove_matching force document owned (matching_indices document (some owned))

undone :
    (force : Bool) (document entry document' : Value)
    → IsUndone document entry document'
    → remove_document force document' entry ≡ ok (some document)
unfolding remove_document
undone force document entry document' (index, at, found, removed) =
    ap (remove_matching force document' entry) found ∙ ap (λ r. r >>= λ d. ok (some d)) removed

-- When an installation adds the entry of the manager to a document, a removal by the receipt of that
-- entry gives the document of before, with all its members in their places, with --force or without, if
-- that had neither an empty array under the event nor an empty object `hooks`.
pub remove_document-install_document :
    (force : Bool) (timeout : ℕ) (manager profile : Text) (document : Value) (owned : Option Value)
    {document' : Value}
    → is_tidy document ≡ true
    → install_document document owned (owned_entry timeout manager profile) ≡ ok (add, document')
    → remove_document force document' (owned_entry timeout manager profile) ≡ ok (some document)
remove_document-install_document force timeout manager profile document owned {document'} tidy h =
    undone force document (owned_entry timeout manager profile) document'
      (install_document-IsUndone timeout manager profile document owned tidy h)
