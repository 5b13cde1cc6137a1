-- ===== src/Manager/Hooks.antt =====
-- src/hooks.rs: the entry that the manager keeps in the `settings.json` of a harness. A path and a
-- profile are their texts here; `timeout` is the number 10 as `serde_json` holds it.
pub mod Document
pub mod Action
pub mod Removal
pub mod Restore
mod Tests
use kaleidoscope_sdk.Prelude.{Text, codes, ℕ, ◌++◌}
use kaleidoscope_sdk.JsonSpan.Value.{Value, string, array, object, number, cons, nil, member, end}

pub data HookAction : Type 0 where
  add adopt update remove already_installed already_removed : HookAction

abbrev pub event : Text
event = codes "SessionStart"

abbrev pub matcher : Text
matcher = codes "startup|resume|clear|compact"

abbrev pub command_for : Text → Text → Text
command_for manager profile = manager ++ (codes " hook session-start --profile " ++ profile)

-- `owned_entry`
unfoldable pub owned_entry : ℕ → Text → Text → Value
owned_entry timeout manager profile = object (
    member (codes "matcher") (string matcher) (
      member (codes "hooks")
        (array (
          cons
            (object (
              member (codes "type") (string (codes "command")) (
                member (codes "command") (string (command_for manager profile))
                  (member (codes "timeout") (number timeout) end))))
            nil))
        end))
