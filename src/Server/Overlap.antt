-- ===== src/Server/Overlap.antt =====
-- cmd/server/server.go: `activeRuns` has one run for each pipeline name, so a run of a pipeline that
-- is dispatched again before it has ended is not tracked.
use lp.Base.Dict
use lp.Pipeline.Run.{Run}
use lp.Runners.Step.{Pipeline}
use lp.Runners.Pool.{Pool}
use lp.Server.State.{Server}
