-- ===== src/Manager/Hooks/Document/RoundTrip.antt =====
-- An entry that is put into a document can be taken out again.
use kaleidoscope_sdk.Prelude.{
  ℕ, ◌≡◌, refl, sym, ap, ◌∙◌, ◌>>=◌, Bool, true, [], ◌∷◌, Option, some, codes, inl, inr, arith,
}
use kaleidoscope_sdk.JsonSpan.Value.{
  Value, null, bool, number, string, array, object, Items, Members, get, item, len, value_eq,
}
use kaleidoscope_sdk.Manager.Error.{Result, ok, err, ok-injective}
use kaleidoscope_sdk.Manager.Hooks.{event}
use kaleidoscope_sdk.Manager.Hooks.Document.{
  event_array, present, entry_at, push, push_in, push_under, push_entry, remove_entry, with_entries,
  indices_in, indices_where, matching_indices, identical_indices, member_of, as_array, array_or_new,
  object_or_new,
}
use kaleidoscope_sdk.Manager.Hooks.Document.Keys.{get-set_key, item-push, indices_where-push}
use kaleidoscope_sdk.Manager.Hooks.Document.Tidy.{
  is_tidy, get_end, has_hooks, remove_pushed, object_or_new-ok, array_or_new-ok, untidy, hooks',
}
use mathlib.Core.Path.{subst}

event_array_pushed :
    (m hooks : Members) (entries : Items) (entry : Value)
    → event_array (with_entries m hooks (push entries entry)) ≡ some (push entries entry)
unfolding event_array
event_array_pushed m hooks entries entry =
    rw (get-set_key (codes "hooks") (object (hooks' m hooks entries entry)) m)
      (rw (get-set_key event (array (push entries entry)) hooks) refl)

entry_at_pushed :
    (m hooks : Members) (entries : Items) (entry : Value)
    → entry_at (with_entries m hooks (push entries entry)) (len entries) ≡ ok entry
unfolding entry_at
entry_at_pushed m hooks entries entry =
    ap (λ found. present (found >>= λ xs. item xs (len entries)))
      (event_array_pushed m hooks entries entry)
    ∙ ap present (item-push entries entry)

-- The indices of the entries that the pushed one is put behind.
event_indices :
    (test : Value → Bool) (found : Option Value) (hooks : Members) (entries : Items)
    → object_or_new found ≡ ok hooks
    → array_or_new (get event hooks) ≡ ok entries
    → indices_in test (found >>= λ h. member_of event h >>= λ xs. as_array xs)
      ≡ indices_where test entries 0
unfolding indices_where
event_indices test found hooks entries is_hooks is_entries =
    elim (object_or_new-ok found hooks is_hooks) [
      | inl (missing, empty) ↦ rw missing (
          ap (λ xs. indices_where test xs 0)
            (ok-injective (
              sym (ap array_or_new get_end)
              ∙ ap (λ h. array_or_new (get event h)) (sym empty)
              ∙ is_entries)))
      | inr there ↦ rw there (elim (array_or_new-ok (get event hooks) entries is_entries) [
        | inl (missing, empty) ↦ rw (missing, empty) refl
        | inr stands ↦ rw stands refl
      ])
    ]

abbrev pub IsUndone : Value → Value → Value → Type 0
IsUndone document entry document' =
    (index : ℕ) × (entry_at document' index ≡ ok entry)
    × (matching_indices document' (some entry) ≡ index ∷ [])
    × (remove_entry document' index ≡ ok document)

push_in-IsUndone :
    (m hooks : Members) (entry : Value) {document' : Value} (found : Result Items)
    → value_eq entry entry ≡ true
    → identical_indices (object m) entry ≡ []
    → has_hooks (get (codes "hooks") m) ≡ true
    → object_or_new (get (codes "hooks") m) ≡ ok hooks
    → array_or_new (get event hooks) ≡ found
    → push_in entry m hooks found ≡ ok document'
    → IsUndone (object m) entry document'
unfolding identical_indices matching_indices event_array
push_in-IsUndone m hooks entry (err e) same new tidy is_hooks is_entries h = cc
push_in-IsUndone m hooks entry (ok entries) same new tidy is_hooks is_entries h =
    subst (IsUndone (object m) entry) (ok-injective h) (
      len entries,
      entry_at_pushed m hooks entries entry,
      ap (indices_in (λ v. value_eq v entry)) (event_array_pushed m hooks entries entry)
          ∙ indices_where-push (λ v. value_eq v entry) entry 0 entries same
              (sym (
                  event_indices (λ v. value_eq v entry) (get (codes "hooks") m) hooks entries
                    is_hooks is_entries)
                ∙ new)
          ∙ ap (λ n. n ∷ []) (omega arith),
      remove_pushed m hooks entries entry
          ∙ ap ok (untidy m hooks entries entry tidy is_hooks is_entries),
    )

push_under-IsUndone :
    (m : Members) (entry : Value) {document' : Value} (found : Result Members)
    → value_eq entry entry ≡ true
    → identical_indices (object m) entry ≡ []
    → has_hooks (get (codes "hooks") m) ≡ true
    → object_or_new (get (codes "hooks") m) ≡ found
    → push_under entry m found ≡ ok document'
    → IsUndone (object m) entry document'
push_under-IsUndone m entry (err e) same new tidy is_hooks h = cc
push_under-IsUndone m entry (ok hooks) same new tidy is_hooks h =
    push_in-IsUndone m hooks entry (array_or_new (get event hooks)) same new tidy is_hooks refl h

-- An entry that is put into a document that has none like it stands there alone, and taking it out gives
-- the document back with all its members in their places, if it had neither an empty array under the
-- event nor an empty object `hooks`.
pub push_entry-IsUndone :
    (document entry : Value) {document' : Value}
    → value_eq entry entry ≡ true
    → identical_indices document entry ≡ []
    → is_tidy document ≡ true
    → push_entry document entry ≡ ok document'
    → IsUndone document entry document'
unfolding push_entry is_tidy
push_entry-IsUndone null entry same new tidy h = cc
push_entry-IsUndone (bool b) entry same new tidy h = cc
push_entry-IsUndone (number n) entry same new tidy h = cc
push_entry-IsUndone (string t) entry same new tidy h = cc
push_entry-IsUndone (array xs) entry same new tidy h = cc
push_entry-IsUndone (object m) entry same new tidy h =
    push_under-IsUndone m entry (object_or_new (get (codes "hooks") m)) same new tidy refl h
