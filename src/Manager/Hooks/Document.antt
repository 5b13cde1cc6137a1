-- ===== src/Manager/Hooks/Document.antt =====
-- src/hooks.rs, the document: finding entries under `hooks.SessionStart`, and putting them in and taking
-- them out.
pub mod Keys
pub mod Tidy
pub mod RoundTrip
pub mod Doubled
pub mod Replaced
use kaleidoscope_sdk.Prelude.{
  Text, codes, ℕ, zero, suc, ◌+◌, Bool, true, false, not, ◌&&◌, Option, none, some, List, [], ◌∷◌,
  if◌then◌else◌, bytes_eq, ltb, is_some, ◌>>=◌,
}
use kaleidoscope_sdk.JsonSpan.Value.{
  Bytes, Value, null, bool, number, string, array, object, Items, nil, cons, Members, end, member,
  get, item, len, remove_item, value_eq,
}
use kaleidoscope_sdk.Manager.Error.{Result, ok, err, invalid_host_config, invalid_owner_receipt}
use kaleidoscope_sdk.Manager.Hooks.{event}

-- `Value::get` with a key and with an index, `as_array` and `as_str`.
abbrev pub member_of : Bytes → Value → Option Value
member_of key (object m) = get key m
member_of key _ = none

abbrev first_of : Value → Option Value
first_of (array xs) = item xs 0
first_of _ = none

abbrev pub as_array : Value → Option Items
as_array (array xs) = some xs
as_array _ = none

abbrev as_str : Value → Option Bytes
as_str (string t) = some t
as_str _ = none

-- `event_array`
unfoldable pub event_array : Value → Option Items
event_array document = member_of (codes "hooks") document >>= λ hooks.
    member_of event hooks >>= λ entries. as_array entries

-- `enumerate().filter(..)`, from an index.
unfoldable pub indices_where : (Value → Bool) → Items → ℕ → List ℕ
indices_where test nil at = []
indices_where test (cons entry rest) at =
    let others = indices_where test rest (at + 1) in if test entry then at ∷ others else others

abbrev pub indices_in : (Value → Bool) → Option Items → List ℕ
indices_in test none = []
indices_in test (some entries) = indices_where test entries 0

-- `matching_indices`
unfoldable pub matching_indices : Value → Option Value → List ℕ
matching_indices document none = []
matching_indices document (some owned) =
    indices_in (λ entry. value_eq entry owned) (event_array document)

-- `identical_indices`
unfoldable pub identical_indices : Value → Value → List ℕ
identical_indices document desired =
    indices_in (λ entry. value_eq entry desired) (event_array document)

abbrev command_of : Value → Option Bytes
command_of hook = member_of (codes "command") hook >>= λ command. as_str command

abbrev is_command : Bytes → Option Bytes → Bool
is_command command none = false
is_command command (some found) = bytes_eq found command

unfoldable pub runs : Bytes → Items → Bool
runs command nil = false
runs command (cons hook hooks) =
    let rest = runs command hooks in if is_command command (command_of hook) then true else rest

abbrev entry_runs : Bytes → Option Items → Bool
entry_runs command none = false
entry_runs command (some hooks) = runs command hooks

abbrev resembles : Value → Bytes → Value → Bool
resembles owned command entry =
    not (value_eq entry owned)
    && entry_runs command (member_of (codes "hooks") entry >>= λ hooks. as_array hooks)

-- `resembling_indices`
unfoldable pub resembling_indices : Value → Value → List ℕ
unfolding runs
resembling_indices document owned =
    elim (member_of (codes "hooks") owned >>= λ hooks. first_of hooks >>= λ hook. command_of hook) [
      | none ↦ []
      | some command ↦ indices_in (resembles owned command) (event_array document)
    ]

abbrev pub present : Option Value → Result Value
present none = err invalid_owner_receipt
present (some entry) = ok entry

-- `entry_at`
unfoldable pub entry_at : Value → ℕ → Result Value
entry_at document index = present (event_array document >>= λ entries. item entries index)

-- `Map::insert`, which keeps the place of a key that is there.
unfoldable pub set_key : Bytes → Value → Members → Members
set_key key v end = member key v end
set_key key v (member k w m) = if bytes_eq k key then member k v m else member k w (set_key key v m)

unfoldable pub last_member : Members → Option (Bytes × Value)
last_member end = none
last_member (member k v m) = elim (last_member m) [ none ↦ some (k, v) | some found ↦ some found ]

unfoldable pub drop_last : Members → Members
drop_last end = end
drop_last (member k v end) = end
drop_last (member k v (member j w m)) = member k v (drop_last (member j w m))

abbrev pub moved_up : Option (Bytes × Value) → Members → Members
moved_up none rest = end
moved_up (some (k, v)) rest = member k v (drop_last rest)

-- `Map::remove` of `serde_json` with `preserve_order`: the last member takes the place.
unfoldable pub swap_remove : Bytes → Members → Members
unfolding last_member drop_last
swap_remove key end = end
swap_remove key (member k v m) =
    if bytes_eq k key then moved_up (last_member m) m else member k v (swap_remove key m)

-- `Vec::push`
unfoldable pub push : Items → Value → Items
push nil v = cons v nil
push (cons w xs) v = cons w (push xs v)

unfoldable pub set_item : Items → ℕ → Value → Items
set_item nil i v = nil
set_item (cons w xs) zero v = cons v xs
set_item (cons w xs) (suc i) v = cons w (set_item xs i v)

abbrev pub array_or_new : Option Value → Result Items
array_or_new none = ok nil
array_or_new (some (array xs)) = ok xs
array_or_new (some _) = err (invalid_host_config "hooks.SessionStart is not an array")

abbrev pub object_or_new : Option Value → Result Members
object_or_new none = ok end
object_or_new (some (object m)) = ok m
object_or_new (some _) = err (invalid_host_config "hooks is not an object")

abbrev pub with_entries : Members → Members → Items → Value
with_entries m hooks entries =
    object (set_key (codes "hooks") (object (set_key event (array entries) hooks)) m)

abbrev pub push_in : Value → Members → Members → Result Items → Result Value
push_in entry m hooks (err e) = err e
push_in entry m hooks (ok entries) = ok (with_entries m hooks (push entries entry))

abbrev pub push_under : Value → Members → Result Members → Result Value
push_under entry m (err e) = err e
push_under entry m (ok hooks) = push_in entry m hooks (array_or_new (get event hooks))

-- `push_entry`
unfoldable pub push_entry : Value → Value → Result Value
unfolding set_key push
push_entry (object m) entry = push_under entry m (object_or_new (get (codes "hooks") m))
push_entry _ entry = err (invalid_host_config "settings.json is not an object")

-- The entries under `hooks.SessionStart`, with the objects on the way.
abbrev pub found_entries : Members → Members → Option Value → Option (Members × Members × Items)
found_entries m hooks (some (array entries)) = some (m, hooks, entries)
found_entries m hooks _ = none

abbrev pub found_hooks : Members → Option Value → Option (Members × Members × Items)
found_hooks m (some (object hooks)) = found_entries m hooks (get event hooks)
found_hooks m _ = none

abbrev pub found_in : Value → Option (Members × Members × Items)
found_in (object m) = found_hooks m (get (codes "hooks") m)
found_in _ = none

abbrev pub replace_in : ℕ → Value → Option (Members × Members × Items) → Result Value
replace_in index entry none = err invalid_owner_receipt
replace_in index entry (some (m, hooks, entries)) =
    if is_some (item entries index)
    then ok (with_entries m hooks (set_item entries index entry))
    else err invalid_owner_receipt

-- `replace_entry`
unfoldable pub replace_entry : Value → ℕ → Value → Result Value
unfolding set_key set_item
replace_entry document index entry = replace_in index entry (found_in document)

-- The hooks without the event, if its entries are gone, and the document without hooks that are empty.
abbrev pub tidy_event : Members → Items → Members
tidy_event hooks nil = swap_remove event hooks
tidy_event hooks (cons v xs) = set_key event (array (cons v xs)) hooks

abbrev pub tidy_hooks : Members → Members → Value
tidy_hooks m end = object (swap_remove (codes "hooks") m)
tidy_hooks m (member k v hooks) = object (set_key (codes "hooks") (object (member k v hooks)) m)

abbrev pub remove_in : ℕ → Option (Members × Members × Items) → Result Value
remove_in index none = err invalid_owner_receipt
remove_in index (some (m, hooks, entries)) =
    if ltb index (len entries)
    then ok (tidy_hooks m (tidy_event hooks (remove_item entries index)))
    else err invalid_owner_receipt

-- `remove_entry`
unfoldable pub remove_entry : Value → ℕ → Result Value
unfolding set_key swap_remove
remove_entry document index = remove_in index (found_in document)

-- `is_empty_shell`
unfoldable pub is_empty_shell : Value → Bool
is_empty_shell (object end) = true
is_empty_shell _ = false
