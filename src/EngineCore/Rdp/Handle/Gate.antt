-- ===== src/EngineCore/Rdp/Handle/Gate.antt =====
-- engine-core/src/comms/rdp.rs: the bench test that a request asks for, and an engine that runs.
use rust_ems.Base.{ℕ, ◌≡◌, List, true}
use rust_ems.EngineCore.Rdp.{Externals, Device, RdpContext}
use rust_ems.EngineCore.Rdp.Settings.Keep.{kept, noted}
use rust_ems.EngineCore.Rdp.Actuate.Keep.{aside}
use rust_ems.EngineCore.Rdp.Handle.{Handled, handle}
use rust_ems.EngineCore.Rdp.Handle.Outcome.{
  IsOutcome, edits, sides, saves, reloads, handle-IsOutcome,
}

module _ {F : Type 0} (x : Externals F) where
  bench_kept :
      (ctx : RdpContext F) {d : Device F} (h : Handled F)
      → IsOutcome x ctx.engine_running ctx.flash d h
      → ctx.engine_running ≡ true
      → h.device.server.pending_bench ≡ d.server.pending_bench
  bench_kept ctx h (edits s (kept a b c e)) on = e
  bench_kept ctx h (edits s (noted m c e)) on = e
  bench_kept ctx h (sides s r (aside b c e)) on = e on
  bench_kept ctx h (saves s c e) on = e
  bench_kept ctx h (reloads s r c e) on = e

  -- While the engine runs, no request schedules, replaces or drops a bench test, whatever bytes it holds.
  pub handle_bench_gated :
      (ctx : RdpContext F) (req : List ℕ) (d : Device F) (out : List ℕ)
      → ctx.engine_running ≡ true
      → (handle x req ctx d out).device.server.pending_bench ≡ d.server.pending_bench
  handle_bench_gated ctx req d out =
      bench_kept ctx (handle x req ctx d out) (handle-IsOutcome x ctx req d out)
