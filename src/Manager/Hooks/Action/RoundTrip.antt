-- ===== src/Manager/Hooks/Action/RoundTrip.antt =====
-- An installation of the hook that adds an entry can be taken back.
use kaleidoscope_sdk.Prelude.{
  Text, ℕ, ◌≡◌, refl, sym, ap, ◌∙◌, true, Option, none, some, List, [], ◌∷◌, bytes_eq,
  bytes_eq_self, Bool-cases, inl, inr, arith,
}
use kaleidoscope_sdk.JsonSpan.Value.{Value, value_eq, get}
use kaleidoscope_sdk.Manager.Error.{ok, ok-injective, ◌>>=◌, >>=-eq-ok}
use kaleidoscope_sdk.Manager.Hooks.{add, update, already_installed, owned_entry, command_for}
use kaleidoscope_sdk.Manager.Hooks.Document.{
  matching_indices, identical_indices, resembling_indices, entry_at,
}
use kaleidoscope_sdk.Manager.Hooks.Document.Tidy.{is_tidy}
use kaleidoscope_sdk.Manager.Hooks.Document.RoundTrip.{IsUndone, push_entry-IsUndone}
use kaleidoscope_sdk.Manager.Hooks.Action.{
  unmatched, by_entry, by_matches, install_action, edited, install_document,
}

owned_entry-value_eq :
    (timeout : ℕ) (manager profile : Text)
    → value_eq (owned_entry timeout manager profile) (owned_entry timeout manager profile) ≡ true
unfolding owned_entry value_eq get kaleidoscope_sdk.JsonSpan.Value.member_count bytes_eq
owned_entry-value_eq timeout manager profile =
    rw (bytes_eq_self (command_for manager profile)) (ground arith)

unmatched-add :
    (owned : Option Value) (identical resembling : List ℕ)
    → unmatched owned identical resembling ≡ ok add
    → identical ≡ []
unmatched-add owned [] resembling h = refl
unmatched-add none (i ∷ []) resembling h = cc
unmatched-add none (i ∷ j ∷ more) resembling h = cc
unmatched-add (some v) (i ∷ []) resembling h = cc
unmatched-add (some v) (i ∷ j ∷ more) resembling h = cc

by_entry-add : (desired entry : Value) → by_entry desired entry ≡ add → ⊥
by_entry-add desired entry h = elim (Bool-cases (value_eq entry desired)) [
  | inl same ↦ installed (sym (rw same refl) ∙ h)
  | inr other ↦ updated (sym (rw other refl) ∙ h)
]
  where
    installed : already_installed ≡ add → ⊥
    installed e = cc

    updated : update ≡ add → ⊥
    updated e = cc

by_matches-add :
    (document : Value) (owned : Option Value) (desired : Value) (matches : List ℕ)
    → by_matches document owned desired matches ≡ ok add
    → identical_indices document desired ≡ []
by_matches-add document owned desired [] h =
    unmatched-add owned (identical_indices document desired) (resembling_indices document desired) h
by_matches-add document owned desired (i ∷ []) h =
    let found = >>=-eq-ok (entry_at document i) (λ entry. ok (by_entry desired entry)) h in
    absurd (by_entry-add desired (found.0) (ok-injective found.2))
by_matches-add document owned desired (i ∷ j ∷ more) h = cc

-- When an installation adds the entry of the manager to a document, the receipt's entry is found once in
-- the result, and taking it out there gives the document of before with all its members in their places,
-- if that had neither an empty array under the event nor an empty object `hooks`.
pub install_document-IsUndone :
    (timeout : ℕ) (manager profile : Text) (document : Value) (owned : Option Value)
    {document' : Value}
    → is_tidy document ≡ true
    → install_document document owned (owned_entry timeout manager profile) ≡ ok (add, document')
    → IsUndone document (owned_entry timeout manager profile) document'
unfolding install_document install_action edited
install_document-IsUndone timeout manager profile document owned tidy h =
    let chosen =
      >>=-eq-ok (install_action document owned (owned_entry timeout manager profile)) _ h in
    let written =
      >>=-eq-ok (edited document owned (owned_entry timeout manager profile) (chosen.0)) _
        chosen.2 in
    let is_add : chosen.0 ≡ add = ap (λ r. r.0) (ok-injective written.2) in
    push_entry-IsUndone document (owned_entry timeout manager profile)
      (owned_entry-value_eq timeout manager profile)
      (by_matches-add document owned (owned_entry timeout manager profile)
        (matching_indices document owned) (chosen.1 ∙ ap ok is_add))
      tidy
      (ap (edited document owned (owned_entry timeout manager profile)) (sym is_add)
        ∙ written.1
        ∙ ap ok (ap (λ r. r.1) (ok-injective written.2)))

undone-already_installed :
    (document entry document' : Value)
    → value_eq entry entry ≡ true
    → IsUndone document entry document'
    → install_action document' (some entry) entry ≡ ok already_installed
unfolding install_action
undone-already_installed document entry document' same (index, at, found, removed) =
    ap (by_matches document' (some entry) entry) found
    ∙ ap (λ r. r >>= λ e. ok (by_entry entry e)) at
    ∙ rw same refl

-- When an installation adds the entry of the manager to a document, the same installation with the
-- receipt of that entry reports that it is already there, and changes nothing, if the document had
-- neither an empty array under the event nor an empty object `hooks`.
pub install_document-idempotent :
    (timeout : ℕ) (manager profile : Text) (document : Value) (owned : Option Value)
    {document' : Value}
    → is_tidy document ≡ true
    → install_document document owned (owned_entry timeout manager profile) ≡ ok (add, document')
    → install_document document'
        (some (owned_entry timeout manager profile))
        (owned_entry timeout manager profile)
      ≡ ok (already_installed, document')
unfolding install_document edited
install_document-idempotent timeout manager profile document owned {document'} tidy h =
    ap
      (λ r. r >>= λ action.
        edited document' (some (owned_entry timeout manager profile))
          (owned_entry timeout manager profile) action
        >>= λ d. ok (action, d))
      (undone-already_installed document (owned_entry timeout manager profile) document'
        (owned_entry-value_eq timeout manager profile)
        (install_document-IsUndone timeout manager profile document owned tidy h))
