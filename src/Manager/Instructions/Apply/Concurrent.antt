-- ===== src/Manager/Instructions/Apply/Concurrent.antt =====
-- `apply` where another program has changed the target or the receipt since the plan read them.
use kaleidoscope_sdk.Manager.Files.Os
use kaleidoscope_sdk.Manager.Files.Os.{unlink}
