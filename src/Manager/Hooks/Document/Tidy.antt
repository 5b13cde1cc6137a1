-- ===== src/Manager/Hooks/Document/Tidy.antt =====
-- Taking out what was put in: no empty array and no empty object `hooks` stays behind.
use kaleidoscope_sdk.Prelude.{
  suc, ◌≡◌, refl, sym, ap, ◌∙◌, Bool, true, false, Option, none, some, codes, lt→ltb, inl, inr, ◌⊎◌,
  arith,
}
use kaleidoscope_sdk.JsonSpan.Value.{
  Bytes, Value, null, bool, number, string, array, object, Items, nil, cons, Members, end, member,
  get, len,
}
use kaleidoscope_sdk.Manager.Error.{ok, ok-injective}
use kaleidoscope_sdk.Manager.Hooks.{event}
use kaleidoscope_sdk.Manager.Hooks.Document.{
  remove_in, set_key, push, remove_entry, found_in, with_entries, tidy_event, tidy_hooks,
  array_or_new, object_or_new,
}
use kaleidoscope_sdk.Manager.Hooks.Document.Keys.{
  get-set_key, set_key_twice, set_key-get, swap_remove-set_key, remove_item-push, len-push,
}

pub get_end : get event end ≡ none
unfolding get
get_end = refl

false-ne-true : false ≡ true → ⊥
false-ne-true h = cc

-- No empty object `hooks`, and no empty array under the event.
abbrev has_entries : Option Value → Bool
has_entries (some (array nil)) = false
has_entries _ = true

abbrev pub has_hooks : Option Value → Bool
has_hooks (some (object end)) = false
has_hooks (some (object (member k v hooks))) = has_entries (get event (member k v hooks))
has_hooks _ = true

unfoldable pub is_tidy : Value → Bool
is_tidy (object m) = has_hooks (get (codes "hooks") m)
is_tidy _ = true

module _ (m hooks : Members) (entries : Items) (entry : Value) where
  abbrev pub hooks' : Members
  hooks' = set_key event (array (push entries entry)) hooks

  abbrev pub m' : Members
  m' = set_key (codes "hooks") (object hooks') m

  pub found_pushed :
      found_in (with_entries m hooks (push entries entry)) ≡ some (m', hooks', push entries entry)
  found_pushed =
      rw (get-set_key (codes "hooks") (object hooks') m)
        (rw (get-set_key event (array (push entries entry)) hooks) refl)

  pub remove_pushed :
      remove_entry (with_entries m hooks (push entries entry)) (len entries)
      ≡ ok (tidy_hooks m' (tidy_event hooks' entries))
  unfolding remove_entry
  remove_pushed =
      ap (remove_in (len entries)) found_pushed
      ∙ rw (len-push entries entry, remove_item-push entries entry)
          (rw (lt→ltb (len entries) (suc (len entries)) (omega arith)) refl)

pub object_or_new-ok :
    (found : Option Value) (hooks : Members)
    → object_or_new found ≡ ok hooks
    → ((found ≡ none) × (hooks ≡ end)) ⊎ (found ≡ some (object hooks))
object_or_new-ok none hooks h = inl (refl, sym (ok-injective h))
object_or_new-ok (some (object m)) hooks h = inr (ap (λ n. some (object n)) (ok-injective h))
object_or_new-ok (some null) hooks h = cc
object_or_new-ok (some (bool b)) hooks h = cc
object_or_new-ok (some (number n)) hooks h = cc
object_or_new-ok (some (string t)) hooks h = cc
object_or_new-ok (some (array xs)) hooks h = cc

pub array_or_new-ok :
    (found : Option Value) (entries : Items)
    → array_or_new found ≡ ok entries
    → ((found ≡ none) × (entries ≡ nil)) ⊎ (found ≡ some (array entries))
array_or_new-ok none entries h = inl (refl, sym (ok-injective h))
array_or_new-ok (some (array xs)) entries h = inr (ap (λ ys. some (array ys)) (ok-injective h))
array_or_new-ok (some null) entries h = cc
array_or_new-ok (some (bool b)) entries h = cc
array_or_new-ok (some (number n)) entries h = cc
array_or_new-ok (some (string t)) entries h = cc
array_or_new-ok (some (object m)) entries h = cc

-- Where both were missing, both are taken away again.
untidy_new :
    (m : Members) (entry : Value)
    → get (codes "hooks") m ≡ none
    → tidy_hooks (m' m end nil entry) (tidy_event (hooks' m end nil entry) nil) ≡ object m
untidy_new m entry missing =
    ap (tidy_hooks (m' m end nil entry))
      (swap_remove-set_key event (array (push nil entry)) end get_end)
    ∙ ap object (swap_remove-set_key (codes "hooks") (object (hooks' m end nil entry)) m missing)

-- Where there are hooks, they are as before.
untidy_hooks :
    (m : Members) (k : Bytes) (v : Value) (rest : Members) (other : Value)
    → get (codes "hooks") m ≡ some (object (member k v rest))
    → tidy_hooks (set_key (codes "hooks") other m) (member k v rest) ≡ object m
untidy_hooks m k v rest other there = ap object (
    set_key_twice (codes "hooks") other (object (member k v rest)) m
    ∙ set_key-get (codes "hooks") (object (member k v rest)) m there)

untidy_entries :
    (hooks : Members) (entries : Items) (entry : Value)
    → has_entries (get event hooks) ≡ true
    → array_or_new (get event hooks) ≡ ok entries
    → tidy_event (set_key event (array (push entries entry)) hooks) entries ≡ hooks
untidy_entries hooks entries entry tidy is_entries =
    elim (array_or_new-ok (get event hooks) entries is_entries) [
      | inl (missing, empty) ↦
          rw empty (swap_remove-set_key event (array (push nil entry)) hooks missing)
      | inr there ↦ kept entries there
    ]
  where
    kept :
        (xs : Items)
        → get event hooks ≡ some (array xs)
        → tidy_event (set_key event (array (push xs entry)) hooks) xs ≡ hooks
    kept nil there = absurd (false-ne-true (sym (ap has_entries there) ∙ tidy))
    kept (cons v xs) there =
        set_key_twice event (array (push (cons v xs) entry)) (array (cons v xs)) hooks
        ∙ set_key-get event (array (cons v xs)) hooks there

pub untidy :
    (m hooks : Members) (entries : Items) (entry : Value)
    → has_hooks (get (codes "hooks") m) ≡ true
    → object_or_new (get (codes "hooks") m) ≡ ok hooks
    → array_or_new (get event hooks) ≡ ok entries
    → tidy_hooks (m' m hooks entries entry) (tidy_event (hooks' m hooks entries entry) entries)
      ≡ object m
untidy m hooks entries entry tidy is_hooks is_entries =
    elim (object_or_new-ok (get (codes "hooks") m) hooks is_hooks) [
      | inl (missing, empty) ↦ both hooks entries empty is_entries missing
      | inr there ↦ under hooks there is_entries
    ]
  where
    both :
        (h : Members) (xs : Items)
        → h ≡ end
        → array_or_new (get event h) ≡ ok xs
        → get (codes "hooks") m ≡ none
        → tidy_hooks (m' m h xs entry) (tidy_event (hooks' m h xs entry) xs) ≡ object m
    both end xs empty is_xs missing =
        rw (← ok-injective (ap array_or_new (sym get_end) ∙ is_xs)) (untidy_new m entry missing)
    both (member k v r) xs empty is_xs missing = cc

    under :
        (h : Members)
        → get (codes "hooks") m ≡ some (object h)
        → array_or_new (get event h) ≡ ok entries
        → tidy_hooks (m' m h entries entry) (tidy_event (hooks' m h entries entry) entries)
          ≡ object m
    under end there is_xs = absurd (false-ne-true (sym (ap has_hooks there) ∙ tidy))
    under (member k v r) there is_xs =
        ap (tidy_hooks (m' m (member k v r) entries entry))
          (untidy_entries (member k v r) entries entry (sym (ap has_hooks there) ∙ tidy) is_xs)
        ∙ untidy_hooks m k v r _ there
