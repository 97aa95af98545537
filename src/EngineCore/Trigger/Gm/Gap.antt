-- ===== src/EngineCore/Trigger/Gm/Gap.antt =====
-- What one edge does to the count of the GM decoder.
use rust_ems.Base.{
  ℕ, ◌≡◌, inl, inr, refl, ap, Bool, Bool-cases, true, not, ◌&&◌, Option, none, some, ltb, arith,
}
use rust_ems.F32.{F32}
use rust_ems.EngineCore.Trigger.{
  both, consider, TriggerSignal, is_crank, is_crank_synced, Cycle, TriggerError, count_tooth,
}
use rust_ems.EngineCore.Trigger.Counting.{IsCounted, at_sync_point-IsCounted, at_tooth-IsCounted}
use rust_ems.EngineCore.Trigger.Gm.{
  GmTriggerDecoder, is_stalled, shift, at_cam, is_gap, process, process_tooth, estimate_rpm, finish,
  gm_present_teeth,
}

module _ {F : Type 0} (f : F32 F) where
  finish_cycle :
      (gap : Bool) (d : GmTriggerDecoder F) (r : Cycle × Option TriggerError)
      → (finish f gap d r).0.cycle ≡ r.0
  unfolding estimate_rpm
  finish_cycle gap d (c, some e) = refl
  finish_cycle gap d (c, none) = elim (Bool-cases (ltb 0 d.duration_before && not gap)) [
    | inl e ↦ rw (e, estimate_rpm)
    | inr e ↦ rw (e, estimate_rpm)
  ]

  process_tooth-IsCounted : (d : GmTriggerDecoder F) → IsCounted 30 (process_tooth f d).0.cycle
  unfolding process_tooth
  process_tooth-IsCounted d =
      let gap = is_gap f d.duration d.duration_before d.duration_first in
      elim (Bool-cases gap) [
        | inl y ↦
            rw (finish_cycle gap d (count_tooth gap 30 d.cycle), y)
              (at_sync_point-IsCounted 30 d.cycle)
        | inr n ↦
            rw (finish_cycle gap d (count_tooth gap 30 d.cycle), n)
              (at_tooth-IsCounted 30 d.cycle (omega arith))
      ]

  at_cam-IsCounted : (d : GmTriggerDecoder F) → IsCounted 30 d.cycle → IsCounted 30 (at_cam d).cycle
  unfolding at_cam
  at_cam-IsCounted d c = elim (Bool-cases (is_crank_synced d.cycle.sync)) [
    | inr n ↦ rw (n, at_cam) c
    | inl y ↦ elim c [
      | inr few ↦ rw (y, at_cam) (inr few)
      | inl un ↦ absurd (ground (arith, un, y))
    ]
  ]

  -- When every edge counts (`SyncEdge::Both`), an event keeps the GM decoder without sync or at no more
  -- than its thirty teeth.
  pub process-IsCounted :
      (d : GmTriggerDecoder F) (signal : TriggerSignal) (now_us : ℕ)
      → d.cfg.sync_edge ≡ both
      → IsCounted gm_present_teeth d.cycle
      → IsCounted gm_present_teeth (process f d signal now_us).0.cycle
  unfolding process
  process-IsCounted d signal now_us all c =
      let counts : consider d.cfg.sync_edge signal ≡ true = ap (λ x. consider x signal) all in
      elim (Bool-cases (is_stalled d now_us)) [
        | inl late ↦ rw (late, process) (inl refl)
        | inr timely ↦ elim (Bool-cases (is_crank signal)) [
          | inr cam ↦ rw (timely, process, cam) (at_cam-IsCounted d c)
          | inl crank ↦
              rw (timely, process, crank, counts) (process_tooth-IsCounted (shift d now_us))
        ]
      ]
