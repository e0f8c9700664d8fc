-- ===== src/Rules/Cleanup/Choice.antt =====
-- Which mode the cleanup takes down, for what the last run recorded.
use boxproxy.Prelude.{Bool}
use boxproxy.Config.{Config}
