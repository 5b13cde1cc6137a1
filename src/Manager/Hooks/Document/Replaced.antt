-- ===== src/Manager/Hooks/Document/Replaced.antt =====
-- What `replace_entry` of src/hooks.rs does to the entries, and to the indices of those equal to the new one.
use kaleidoscope_sdk.Prelude.{
  codes, ℕ, ◌≡◌, refl, sym, ap, ◌∙◌, true, false, Option, none, some, List, ◌∷◌, Bool-cases, inl,
  inr, ◌>>=◌, is_some,
}
use kaleidoscope_sdk.JsonSpan.Value.{
  Value, Items, Members, item, value_eq, null, bool, number, string, array, object, get,
}
use kaleidoscope_sdk.Manager.Error.{ok, err, ok-injective}
use kaleidoscope_sdk.Manager.Hooks.{event}
use kaleidoscope_sdk.Manager.Hooks.Document.{
  set_key, set_item, as_array, member_of, event_array, found_in, found_hooks, found_entries,
  with_entries, replace_in, indices_in, matching_indices, identical_indices, entry_at, present,
}
use kaleidoscope_sdk.Manager.Hooks.Document.Keys.{get-set_key}
use kaleidoscope_sdk.Manager.Hooks.Document.Doubled.{IsTwo, indices_where-IsTwo}

abbrev pub entries_of : Option (Members × Members × Items) → Option Items
entries_of none = none
entries_of (some (m, hooks, entries)) = some entries

found_entries-entries_of :
    (m hooks : Members) (found : Option Value)
    → (found >>= λ entries. as_array entries) ≡ entries_of (found_entries m hooks found)
found_entries-entries_of m hooks none = refl
found_entries-entries_of m hooks (some null) = refl
found_entries-entries_of m hooks (some (bool b)) = refl
found_entries-entries_of m hooks (some (number n)) = refl
found_entries-entries_of m hooks (some (string t)) = refl
found_entries-entries_of m hooks (some (array xs)) = refl
found_entries-entries_of m hooks (some (object n)) = refl

found_hooks-entries_of :
    (m : Members) (found : Option Value)
    → (found >>= λ hooks. member_of event hooks >>= λ entries. as_array entries)
      ≡ entries_of (found_hooks m found)
found_hooks-entries_of m none = refl
found_hooks-entries_of m (some null) = refl
found_hooks-entries_of m (some (bool b)) = refl
found_hooks-entries_of m (some (number n)) = refl
found_hooks-entries_of m (some (string t)) = refl
found_hooks-entries_of m (some (array xs)) = refl
found_hooks-entries_of m (some (object hooks)) = found_entries-entries_of m hooks (get event hooks)

pub found_in-entries_of : (document : Value) → event_array document ≡ entries_of (found_in document)
unfolding event_array
found_in-entries_of null = refl
found_in-entries_of (bool b) = refl
found_in-entries_of (number n) = refl
found_in-entries_of (string t) = refl
found_in-entries_of (array xs) = refl
found_in-entries_of (object m) = found_hooks-entries_of m (get (codes "hooks") m)

event_array-with_entries :
    (m hooks : Members) (xs : Items) → event_array (with_entries m hooks xs) ≡ some xs
unfolding event_array
event_array-with_entries m hooks xs =
    rw (get-set_key (codes "hooks") (object (set_key event (array xs) hooks)) m)
      (rw (get-set_key event (array xs) hooks) refl)

abbrev pub Replaces : Value → ℕ → Value → Value → Type 0
Replaces document i v document' =
    (xs : Items) × (event_array document ≡ some xs)
    × (event_array document' ≡ some (set_item xs i v))

pub replace_in-Replaces :
    (document : Value) (i : ℕ) (v : Value) {document' : Value}
    (found : Option (Members × Members × Items))
    → event_array document ≡ entries_of found
    → replace_in i v found ≡ ok document'
    → Replaces document i v document'
replace_in-Replaces document i v none stands h = cc
replace_in-Replaces document i v (some (m, hooks, xs)) stands h =
    elim (Bool-cases (is_some (item xs i))) [
      | inl here ↦ (
        xs,
        stands,
        ap event_array (sym (ok-injective (rw here at h)))
            ∙ event_array-with_entries m hooks (set_item xs i v),
      )
      | inr beyond ↦ absurd (err-ne-ok (rw beyond at h))
    ]
  where
    err-ne-ok : {e : _} {d : Value} → err e ≡ ok d → ⊥
    err-ne-ok e = cc

present-some : (found : Option Value) {w : Value} → present found ≡ ok w → found ≡ some w
present-some none h = cc
present-some (some v) h = ap some (ok-injective h)

pub Replaces-IsTwo :
    (document desired w document' : Value) (i : ℕ) {j : ℕ} {rest : List ℕ}
    → (same : value_eq desired desired ≡ true) → entry_at document i ≡ ok w
    → value_eq w desired ≡ false
    → identical_indices document desired ≡ j ∷ rest
    → Replaces document i desired document'
    → IsTwo (λ v. value_eq v desired) desired same (matching_indices document' (some desired))
unfolding entry_at identical_indices matching_indices
Replaces-IsTwo document desired w document' i same stands differs identical (xs, before, after) =
    rw after (
      indices_where-IsTwo (λ v. value_eq v desired) desired same xs i 0
        (present-some (item xs i)
          (ap (λ found. present (found >>= λ ys. item ys i)) (sym before) ∙ stands))
        differs (ap (indices_in (λ v. value_eq v desired)) (sym before) ∙ identical))
