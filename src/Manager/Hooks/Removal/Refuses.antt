-- ===== src/Manager/Hooks/Removal/Refuses.antt =====
-- An update beside an entry that is already the new one leaves two, and then neither planner goes on.
use kaleidoscope_sdk.Prelude.{
  ℕ, ◌≡◌, refl, sym, ap, ◌∙◌, Bool, true, false, Option, none, some, List, [], ◌∷◌, if◌then◌else◌,
}
use kaleidoscope_sdk.JsonSpan.Value.{Value, value_eq}
use kaleidoscope_sdk.Manager.Error.{◌>>=◌, Result, ok, err, host_conflict, ok-injective, >>=-eq-ok}
use kaleidoscope_sdk.Manager.Hooks.{update, already_installed}
use kaleidoscope_sdk.Manager.Hooks.Document.{
  found_in, matching_indices, identical_indices, resembling_indices, entry_at, replace_entry,
}
use kaleidoscope_sdk.Manager.Hooks.Action.{
  unmatched, by_entry, by_matches, install_action, edited, replace_first_of, install_document,
}
use kaleidoscope_sdk.Manager.Hooks.Document.Doubled.{IsTwo}
use kaleidoscope_sdk.Manager.Hooks.Document.Replaced.{
  Replaces-IsTwo, replace_in-Replaces, found_in-entries_of,
}
use kaleidoscope_sdk.Manager.Hooks.Removal.{remove_document, remove_matching}

abbrev IsUpdate : Value → Value → List ℕ → Type 0
IsUpdate document desired matches =
    (i : ℕ) × (w : Value) × (matches ≡ i ∷ [])
    × (entry_at document i ≡ ok w)
    × (value_eq w desired ≡ false)

by_matches-IsUpdate :
    (document : Value) (owned : Option Value) (desired : Value) (matches : List ℕ)
    → by_matches document owned desired matches ≡ ok update
    → IsUpdate document desired matches
by_matches-IsUpdate document owned desired [] h =
    absurd
      (other owned (identical_indices document desired) (resembling_indices document desired) h)
  where
    other :
        (o : Option Value) (identical resembling : List ℕ)
        → unmatched o identical resembling ≡ ok update
        → ⊥
    other o [] [] e = cc
    other none [] (r ∷ rs) e = cc
    other (some v) [] (r ∷ rs) e = cc
    other none (i ∷ []) rs e = cc
    other none (i ∷ j ∷ more) rs e = cc
    other (some v) (i ∷ []) rs e = cc
    other (some v) (i ∷ j ∷ more) rs e = cc
by_matches-IsUpdate document owned desired (i ∷ []) h =
    let found = >>=-eq-ok (entry_at document i) (λ entry. ok (by_entry desired entry)) h in
    (i, found.0, refl, found.1, differs (value_eq found.0 desired) (ok-injective found.2))
  where
    differs : (same : Bool) → (if same then already_installed else update) ≡ update → same ≡ false
    differs true h = cc
    differs false h = refl
by_matches-IsUpdate document owned desired (i ∷ j ∷ more) h = cc

abbrev pub two_entries : {A : Type 0} → Result A
two_entries = err (host_conflict "several identical manager-owned entries")

-- When an installation updates the receipt's entry, and an entry equal to the new one already stands in
-- the document, the new document has two of them: with the receipt of the new entry, the next
-- installation is refused, and so is a removal, with --force or without.
pub install_document-refuses :
    (force : Bool) (document desired : Value) (owned : Option Value) {document' : Value} {j : ℕ}
    {rest : List ℕ}
    → value_eq desired desired ≡ true
    → identical_indices document desired ≡ j ∷ rest
    → install_document document owned desired ≡ ok (update, document')
    → (install_document document' (some desired) desired ≡ two_entries)
      × (remove_document force document' desired ≡ two_entries)
unfolding install_document install_action edited replace_entry remove_document
install_document-refuses force document desired owned {document'} same identical h =
    let chosen = >>=-eq-ok (install_action document owned desired) _ h in
    let written = >>=-eq-ok (edited document owned desired (chosen.0)) _ chosen.2 in
    let is_update : chosen.0 ≡ update = ap (λ r. r.0) (ok-injective written.2) in
    replaced
      (by_matches-IsUpdate document owned desired (matching_indices document owned)
        (chosen.1 ∙ ap ok is_update))
      (ap (edited document owned desired) (sym is_update)
        ∙ written.1
        ∙ ap ok (ap (λ r. r.1) (ok-injective written.2)))
  where
    both :
        IsTwo (λ v. value_eq v desired) desired same (matching_indices document' (some desired))
        → (install_document document' (some desired) desired ≡ two_entries)
          × (remove_document force document' desired ≡ two_entries)
    both (a, b, more, two) = (
      ap
          (λ ns. by_matches document' (some desired) desired ns >>= λ action.
            edited document' (some desired) desired action >>= λ d. ok (action, d))
          two,
      ap (remove_matching force document' desired) two,
    )

    replaced :
        IsUpdate document desired (matching_indices document owned)
        → replace_first_of document desired (matching_indices document owned) ≡ ok document'
        → (install_document document' (some desired) desired ≡ two_entries)
          × (remove_document force document' desired ≡ two_entries)
    replaced (i, w, matches, stands, differs) done = both (
        Replaces-IsTwo document desired w document' i same stands differs identical (
          replace_in-Replaces document i desired (found_in document) (found_in-entries_of document)
            (ap (replace_first_of document desired) (sym matches) ∙ done)))
