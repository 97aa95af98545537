-- ===== src/EngineCore/Trigger/MissingTooth/Reach.antt =====
-- The decoders that calls can lead to.
use rust_ems.Base.{ℕ, ◌-◌, ◌≡◌, inl, inr, refl, ap, ◌∙◌, Bool, Bool-cases, true, Option, ltb, arith}
use rust_ems.F32.{F32}
use rust_ems.EngineCore.Trigger.{
  both, consider, TriggerSignal, is_crank, is_crank_synced, Cycle, TriggerError, count_tooth,
}
use rust_ems.EngineCore.Trigger.Counting.{IsCounted, at_sync_point-IsCounted, at_tooth-IsCounted}
use rust_ems.EngineCore.Trigger.MissingTooth.{
  MissingToothConfig, MissingToothDecoder, new, present_teeth, is_stalled, shift, reset, at_cam,
  is_gap, process, process_tooth, finish, check_stall, engine_stall_timeout_us,
}
use rust_ems.EngineCore.Trigger.MissingTooth.Process.{finish_cycle, present_teeth-lt}

module _ {F : Type 0} (f : F32 F) (cfg : MissingToothConfig F) where
  -- By calls of `process`, `check_stall` and `reset`.
  pub data Reachable : MissingToothDecoder F → Type 0 where
    made : Reachable (new cfg)
    processed :
        {d : MissingToothDecoder F} (signal : TriggerSignal) (now_us : ℕ)
        → Reachable d
        → Reachable (process f d signal now_us).0
    checked :
        {d : MissingToothDecoder F} (now_us : ℕ) → Reachable d → Reachable (check_stall d now_us).0
    restarted : {d : MissingToothDecoder F} → Reachable d → Reachable (reset d)

  -- A decoder of this configuration that has not counted too far.
  pub data IsInStep (d : MissingToothDecoder F) : Type 0 where
    sound : d.cfg ≡ cfg → IsCounted (present_teeth cfg) d.cycle → IsInStep d

  reset-IsInStep : (d : MissingToothDecoder F) → d.cfg ≡ cfg → IsInStep (reset d)
  reset-IsInStep d e = sound e (inl refl)

  at_cam-IsInStep : (d : MissingToothDecoder F) → IsInStep d → IsInStep (at_cam d)
  unfolding at_cam
  at_cam-IsInStep d (sound e c) = elim (Bool-cases (is_crank_synced d.cycle.sync)) [
    | inr n ↦ rw (n, at_cam) (sound e c)
    | inl y ↦ elim c [
      | inr few ↦ rw (y, at_cam) (sound e (inr few))
      | inl un ↦ absurd (ground (arith, un, y))
    ]
  ]

  finish-IsInStep :
      (gap : Bool) (d : MissingToothDecoder F) (r : Cycle × Option TriggerError)
      → d.cfg ≡ cfg
      → IsCounted (present_teeth cfg) r.0
      → IsInStep (finish f gap d r).0
  finish-IsInStep gap d r e c =
      let (cycle, same, _) = finish_cycle f gap d r in sound (same ∙ e) (rw cycle c)

  process_tooth-IsInStep :
      (d : MissingToothDecoder F) → d.cfg ≡ cfg → IsInStep (process_tooth f d).0
  unfolding process_tooth
  process_tooth-IsInStep d e =
      let gap = is_gap f d.cfg d.duration d.duration_before in
      let size : present_teeth d.cfg ≡ present_teeth cfg = ap present_teeth e in
      let small = present_teeth-lt f d.cfg in
      elim (Bool-cases gap) [
        | inl y ↦
            finish-IsInStep gap d (count_tooth gap (present_teeth d.cfg) d.cycle) e
              (rw (y, ← size) (at_sync_point-IsCounted (present_teeth d.cfg) d.cycle))
        | inr n ↦
            finish-IsInStep gap d (count_tooth gap (present_teeth d.cfg) d.cycle) e
              (rw (n, ← size) (at_tooth-IsCounted (present_teeth d.cfg) d.cycle small))
      ]

  process-IsInStep :
      (d : MissingToothDecoder F) (signal : TriggerSignal) (now_us : ℕ)
      → cfg.sync_edge ≡ both
      → IsInStep d
      → IsInStep (process f d signal now_us).0
  unfolding process
  process-IsInStep d signal now_us all (sound e c) =
      let counts : consider d.cfg.sync_edge signal ≡ true =
        ap (λ (x : MissingToothConfig F). consider x.sync_edge signal) e
        ∙ ap (λ x. consider x signal) all in
      elim (Bool-cases (is_stalled d now_us)) [
        | inl late ↦ rw (late, process) (reset-IsInStep d e)
        | inr timely ↦ elim (Bool-cases (is_crank signal)) [
          | inr cam ↦ rw (timely, process, cam) (at_cam-IsInStep d (sound e c))
          | inl crank ↦
              rw (timely, process, crank, counts) (process_tooth-IsInStep (shift d now_us) e)
        ]
      ]

  check_stall-IsInStep :
      (d : MissingToothDecoder F) (now_us : ℕ) → IsInStep d → IsInStep (check_stall d now_us).0
  unfolding check_stall
  check_stall-IsInStep d now_us (sound e c) = elim (Bool-cases d.first_event) [
    | inl y ↦ rw (check_stall, y) (sound e c)
    | inr n ↦ elim (Bool-cases (ltb engine_stall_timeout_us (now_us - d.prev_timestamp_us))) [
      | inl late ↦ rw (check_stall, n, late) (reset-IsInStep d e)
      | inr timely ↦ rw (check_stall, n, timely) (sound e c)
    ]
  ]

  -- When every edge counts (`SyncEdge::Both`), a decoder that calls lead to is without sync or has
  -- counted at most as many teeth as the wheel has.
  pub Reachable-IsInStep :
      {d : MissingToothDecoder F} → cfg.sync_edge ≡ both → Reachable d → IsInStep d
  Reachable-IsInStep all made = sound refl (inl refl)
  Reachable-IsInStep all (processed {d = d} signal now_us r) =
      process-IsInStep d signal now_us all (Reachable-IsInStep all r)
  Reachable-IsInStep all (checked {d = d} now_us r) =
      check_stall-IsInStep d now_us (Reachable-IsInStep all r)
  Reachable-IsInStep all (restarted {d = d} r) = elim (Reachable-IsInStep all r) [
    | sound e c ↦ reset-IsInStep d e
  ]
