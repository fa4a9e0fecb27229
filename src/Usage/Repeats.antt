-- ===== src/Usage/Repeats.antt =====
-- A write of internal/web/usage.go that fails after some lines.
use m365_copilot2api_dsm.Prelude.{List}
