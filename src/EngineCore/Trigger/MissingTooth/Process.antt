-- ===== src/EngineCore/Trigger/MissingTooth/Process.antt =====
-- Whole revolutions of the decoder, its count of teeth, and stalls.
use rust_ems.Base.{
  ℕ, suc, ◌+◌, ◌≤◌, ◌<◌, ◌≡◌, inl, inr, refl, ap, ◌∙◌, Bool, Bool-cases, true, false, not, ◌&&◌,
  Option, none, some, is_ok, ltb, ◌==◌, eq→==, ne→==, if◌then◌else◌, arith, le_or_lt,
}
use rust_ems.F32.{F32}
use rust_ems.EngineCore.Trigger.{
  TriggerSignal, unsynced, crank_synced, is_unsynced, is_crank, consider, Cycle, TriggerError,
  count_tooth, at_sync_point, at_tooth,
}
use rust_ems.EngineCore.Trigger.Counting.{at_tooth_lem, at_sync_point_early, at_sync_point_complete}
use rust_ems.EngineCore.Trigger.MissingTooth.{
  MissingToothConfig, MissingToothDecoder, present_teeth, is_stalled, interval, shift, is_gap,
  process, process_tooth, estimate_rpm, finish,
}

module _ {F : Type 0} (f : F32 F) where
  -- A crank edge in time that counts for the decoder, with or without a gap before it.
  pub record IsEdge (gap : Bool) (d : MissingToothDecoder F) (signal : TriggerSignal) (now_us : ℕ)
      : Type 0 where
    pub in_time : is_stalled d now_us ≡ false
    pub crank : is_crank signal ≡ true
    pub counts : consider d.cfg.sync_edge signal ≡ true
    pub has_gap : is_gap f d.cfg (interval d now_us) d.duration ≡ gap

  -- `k` edges without a gap lead from one decoder to another.
  pub data Teeth (d : MissingToothDecoder F) : ℕ → MissingToothDecoder F → Type 0 where
    start : Teeth d 0 d
    tooth :
        {k : ℕ} {d' : MissingToothDecoder F} (signal : TriggerSignal) (now_us : ℕ)
        → Teeth d k d'
        → IsEdge false d' signal now_us
        → Teeth d (suc k) (process f d' signal now_us).0

  process_edge :
      (gap : Bool) (d : MissingToothDecoder F) (signal : TriggerSignal) (now_us : ℕ)
      → IsEdge gap d signal now_us
      → process f d signal now_us
        ≡ finish f gap (shift d now_us) (count_tooth gap (present_teeth d.cfg) d.cycle)
  unfolding process process_tooth
  process_edge gap d signal now_us e = rw (e.in_time, e.crank, e.counts, process_tooth, e.has_gap)

  pub finish_cycle :
      (gap : Bool) (d : MissingToothDecoder F) (r : Cycle × Option TriggerError)
      → ((finish f gap d r).0.cycle ≡ r.0)
        × ((finish f gap d r).0.cfg ≡ d.cfg)
        × (is_ok (finish f gap d r).1 ≡ elim r.1 [ none ↦ true | some _ ↦ false ])
  unfolding estimate_rpm
  finish_cycle gap d (c, some e) = (refl, refl, refl)
  finish_cycle gap d (c, none) = elim (Bool-cases (ltb 0 d.duration_before && not gap)) [
    | inl e ↦ rw (e, estimate_rpm) (refl, refl, refl)
    | inr e ↦ rw (e, estimate_rpm) (refl, refl, refl)
  ]

  -- What `k` edges without a gap do to a synchronised decoder that has counted no tooth.
  record Counted (d : MissingToothDecoder F) (k : ℕ) (d' : MissingToothDecoder F) : Type 0 where
    same_cfg : d'.cfg ≡ d.cfg
    same_sync : d'.cycle.sync ≡ d.cycle.sync
    teeth : d'.cycle.tooth_count ≡ k

  pub present_teeth-lt : (cfg : MissingToothConfig F) → present_teeth cfg < 4294967296
  present_teeth-lt cfg = omega arith

  Teeth-Counted :
      (d : MissingToothDecoder F) {k : ℕ} {d' : MissingToothDecoder F}
      → is_unsynced d.cycle.sync ≡ false
      → d.cycle.tooth_count ≡ 0
      → k ≤ present_teeth d.cfg
      → Teeth d k d'
      → Counted d k d'
  Teeth-Counted d e z h start = record { same_cfg = refl; same_sync = refl; teeth = z }
  Teeth-Counted d e z h (tooth {k = k} {d' = d'} signal now_us before edge) =
      let c = Teeth-Counted d e z (omega arith) before in
      let size : present_teeth d'.cfg ≡ present_teeth d.cfg = ap present_teeth c.same_cfg in
      let on : is_unsynced d'.cycle.sync ≡ false = ap is_unsynced c.same_sync ∙ e in
      let step =
        at_tooth_lem (present_teeth d'.cfg) d'.cycle on (omega (arith, c.teeth, size))
          (present_teeth-lt d'.cfg) in
      let (cycle, cfg, _) =
        finish_cycle false (shift d' now_us) (at_tooth (present_teeth d'.cfg) d'.cycle) in
      let whole = process_edge false d' signal now_us edge in
      let cycle' : (process f d' signal now_us).0.cycle
          ≡ record d'.cycle { tooth_count = d'.cycle.tooth_count + 1 } =
        ap (λ r. r.0.cycle) whole ∙ cycle ∙ ap (λ r. r.0) step in
      record {
        same_cfg = ap (λ r. r.0.cfg) whole ∙ cfg ∙ c.same_cfg;
        same_sync = ap (λ (x : Cycle). x.sync) cycle' ∙ c.same_sync;
        teeth = ap (λ (x : Cycle). x.tooth_count) cycle' ∙ omega (arith, c.teeth);
      }

  -- From the moment of synchronisation, `k` edges without a gap, at most as many as the configuration
  -- counts present teeth, and then an edge with a gap: the decoder stays synchronised, and `process`
  -- succeeds, exactly when `k` is the number of present teeth; with fewer it loses sync.
  pub process_revolution :
      (d : MissingToothDecoder F) {k : ℕ} {d' : MissingToothDecoder F} (signal : TriggerSignal)
      (now_us : ℕ)
      → is_unsynced d.cycle.sync ≡ false
      → d.cycle.tooth_count ≡ 0
      → k ≤ present_teeth d.cfg
      → Teeth d k d'
      → IsEdge true d' signal now_us
      → ((process f d' signal now_us).0.cycle.sync
          ≡ (if k == present_teeth d.cfg then crank_synced else unsynced))
        × (is_ok (process f d' signal now_us).1 ≡ (k == present_teeth d.cfg))
  process_revolution d {k = k} {d' = d'} signal now_us e z h run edge =
      let c = Teeth-Counted d e z h run in
      let size : present_teeth d'.cfg ≡ present_teeth d.cfg = ap present_teeth c.same_cfg in
      let on : is_unsynced d'.cycle.sync ≡ false = ap is_unsynced c.same_sync ∙ e in
      let whole = process_edge true d' signal now_us edge in
      let (cycle, _, fine) =
        finish_cycle true (shift d' now_us) (at_sync_point (present_teeth d'.cfg) d'.cycle) in
      elim (le_or_lt (present_teeth d.cfg) k) [
        | inl all ↦
            let step =
              at_sync_point_complete (present_teeth d'.cfg) d'.cycle on
                (omega (arith, c.teeth, size)) in
            rw (eq→== k (present_teeth d.cfg) (omega arith)) (
              ap (λ r. r.0.cycle.sync) whole
                  ∙ ap (λ (x : Cycle). x.sync) cycle
                  ∙ ap (λ r. r.0.sync) step,
              ap (λ r. is_ok r.1) whole
                  ∙ fine
                  ∙ ap
                      (λ (r : Cycle × Option TriggerError). elim r.1 as (λ _. Bool) [
                        | none ↦ true
                        | some _ ↦ false
                      ])
                      step,
            )
        | inr fewer ↦
            let step =
              at_sync_point_early (present_teeth d'.cfg) d'.cycle on
                (omega (arith, c.teeth, size)) in
            rw (ne→== k (present_teeth d.cfg) (omega arith)) (
              ap (λ r. r.0.cycle.sync) whole
                  ∙ ap (λ (x : Cycle). x.sync) cycle
                  ∙ ap (λ r. r.0.sync) step,
              ap (λ r. is_ok r.1) whole
                  ∙ fine
                  ∙ ap
                      (λ (r : Cycle × Option TriggerError). elim r.1 as (λ _. Bool) [
                        | none ↦ true
                        | some _ ↦ false
                      ])
                      step,
            )
      ]
