-- ===== src/Manager/Host.antt =====
-- src/host.rs: `Host` and `Scope`, by name.
use kaleidoscope_sdk.Prelude.{if◌then◌else◌, bytes_eq, Text, codes, String, ◌||◌}
use kaleidoscope_sdk.Manager.Error.{Result, ok, err, usage}

pub data Host : Type 0 where
  codex claude_code cursor open_code : Host

unfoldable pub as_str : Host → String
as_str codex = "codex"
as_str claude_code = "claude-code"
as_str cursor = "cursor"
as_str open_code = "opencode"

-- `Host::from_str`
unfoldable pub from_str : Text → Result Host
from_str t =
    if bytes_eq t (codes "codex")
    then ok codex
    else if bytes_eq t (codes "claude") || bytes_eq t (codes "claude-code")
    then ok claude_code
    else if bytes_eq t (codes "cursor")
    then ok cursor
    else if bytes_eq t (codes "opencode")
    then ok open_code
    else err (usage "host must be codex, claude-code, cursor, or opencode")

pub data Scope : Type 0 where
  user project : Scope
