-- ===== src/EngineCore/Trigger/Filter/Debounce.antt =====
-- How long a level must last to pass the noise filter.
use rust_ems.Base.{
  ℕ, suc, ◌+◌, ◌-◌, ◌≤◌, ◌<◌, ◌≡◌, inl, inr, refl, ap, ◌∙◌, List, [], ◌∷◌, length, All, Bool,
  Bool-cases, true, false, ◌&&◌, leb, le→leb, lt→leb, if◌then◌else◌, arith, le_or_lt,
}
use rust_ems.Base.Words.{u32_wrapping_add}
use rust_ems.EngineCore.Trigger.Filter.{TriggerNoiseFilter, differs, process_stable, process}

-- Samples of one level at the given times.
pub samples : TriggerNoiseFilter → Bool → List ℕ → TriggerNoiseFilter
samples s level [] = s
samples s level (now_us ∷ later) = samples (process s level now_us).0 level later

same_differs : (b : Bool) → differs b b ≡ false
same_differs true = refl
same_differs false = refl

-- One more sample of a level that is already the output.
process_settled :
    (s : TriggerNoiseFilter) (level : Bool) (t : ℕ)
    → s.last_raw_state ≡ level
    → s.filtered_state ≡ level
    → (process s level t).0 ≡ record s { stable_count = u32_wrapping_add s.stable_count 1 }
unfolding process process_stable
process_settled s level t e o =
    let same : differs level s.last_raw_state ≡ false = ap (differs level) e ∙ same_differs level in
    let out : differs level s.filtered_state ≡ false = ap (differs level) o ∙ same_differs level in
    elim (Bool-cases (leb s.stability_threshold (u32_wrapping_add s.stable_count 1))) [
      | inl l ↦ rw (process, same, process_stable, l, out)
      | inr g ↦ rw (process, same, process_stable, g)
    ]

samples_settled :
    (s : TriggerNoiseFilter) (level : Bool) (ts : List ℕ)
    → s.last_raw_state ≡ level
    → s.filtered_state ≡ level
    → (samples s level ts).filtered_state ≡ level
unfolding samples
samples_settled s level [] e o = o
samples_settled s level (t ∷ ts) e o =
    ap (λ x. (samples x level ts).filtered_state) (process_settled s level t e o)
    ∙ samples_settled (record s { stable_count = u32_wrapping_add s.stable_count 1 }) level ts e o

-- The sample that makes the run of a new level long enough, and one before it.
process_accepted :
    (s : TriggerNoiseFilter) (level : Bool) (t : ℕ)
    → s.last_raw_state ≡ level
    → differs level s.filtered_state ≡ true
    → s.stability_threshold ≤ u32_wrapping_add s.stable_count 1
    → s.last_valid_edge_us + s.min_pulse_width_us ≤ t
    → ((process s level t).0.last_raw_state ≡ level)
      × ((process s level t).0.filtered_state ≡ level)
unfolding process process_stable
process_accepted s level t e o enough wide =
    let same : differs level s.last_raw_state ≡ false = ap (differs level) e ∙ same_differs level in
    rw
      (
        process,
        same,
        process_stable,
        le→leb s.stability_threshold (u32_wrapping_add s.stable_count 1) enough,
        o,
        le→leb s.min_pulse_width_us (t - s.last_valid_edge_us) (omega arith),
      )
      (e, refl)

process_short :
    (s : TriggerNoiseFilter) (level : Bool) (t : ℕ)
    → s.last_raw_state ≡ level
    → u32_wrapping_add s.stable_count 1 < s.stability_threshold
    → (process s level t).0 ≡ record s { stable_count = u32_wrapping_add s.stable_count 1 }
unfolding process process_stable
process_short s level t e few =
    let same : differs level s.last_raw_state ≡ false = ap (differs level) e ∙ same_differs level in
    rw (
      process,
      same,
      process_stable,
      lt→leb s.stability_threshold (u32_wrapping_add s.stable_count 1) few,
    )

-- A run of a new level that goes on.
samples_going_on :
    (s : TriggerNoiseFilter) (level : Bool) (ts : List ℕ)
    → s.last_raw_state ≡ level
    → differs level s.filtered_state ≡ true
    → s.stable_count < s.stability_threshold
    → s.stability_threshold < 4294967296
    → All (λ t. s.last_valid_edge_us + s.min_pulse_width_us ≤ t) ts
    → (samples s level ts).filtered_state
      ≡ (if leb s.stability_threshold (s.stable_count + length ts) then level else s.filtered_state)
unfolding samples
samples_going_on s level [] e o few small wide =
    rw (lt→leb s.stability_threshold (s.stable_count + 0) (omega arith))
samples_going_on s level (t ∷ ts) e o few small wide =
    let next : u32_wrapping_add s.stable_count 1 ≡ s.stable_count + 1 = omega arith in
    elim (le_or_lt s.stability_threshold (s.stable_count + 1)) [
      | inl enough ↦
          let (raw, out) = process_accepted s level t e o (omega arith) wide.0 in
          rw (le→leb s.stability_threshold (s.stable_count + suc (length ts)) (omega arith))
            (samples_settled (process s level t).0 level ts raw out)
      | inr short ↦
          let rest =
            samples_going_on (record s { stable_count = u32_wrapping_add s.stable_count 1 }) level
              ts e o (omega arith) small wide.1 in
          let count : u32_wrapping_add s.stable_count 1 + length ts
              ≡ s.stable_count + suc (length ts) =
            omega arith in
          ap (λ x. (samples x level ts).filtered_state) (process_short s level t e (omega arith))
          ∙ rest
          ∙ ap (λ n. if leb s.stability_threshold n then level else s.filtered_state) count
    ]

process_changed :
    (s : TriggerNoiseFilter) (level : Bool) (t : ℕ)
    → differs level s.last_raw_state ≡ true
    → (process s level t).0 ≡ record s { stable_count = 0; last_raw_state = level }
unfolding process
process_changed s level t e = rw (process, e)

-- When the input changes to the level that is not the output, and `n` more samples of that level
-- follow the first, all of them at least the minimal pulse width after the last change: the output
-- takes that level exactly when `n` is at least 1 and reaches the threshold. A shorter glitch leaves it as
-- it was.
pub samples_debounced :
    (s : TriggerNoiseFilter) (level : Bool) (t : ℕ) (ts : List ℕ)
    → differs level s.last_raw_state ≡ true
    → differs level s.filtered_state ≡ true
    → s.stability_threshold < 4294967296
    → All (λ now_us. s.last_valid_edge_us + s.min_pulse_width_us ≤ now_us) ts
    → (samples s level (t ∷ ts)).filtered_state ≡ (
        if leb 1 (length ts) && leb s.stability_threshold (length ts)
        then level
        else s.filtered_state)
unfolding samples
samples_debounced s level t [] new_level o small wide =
    ap (λ (x : TriggerNoiseFilter). x.filtered_state) (process_changed s level t new_level)
samples_debounced s level t (t' ∷ ts) new_level o small wide =
    let s' : TriggerNoiseFilter = record s { stable_count = 0; last_raw_state = level } in
    ap (λ x. (samples x level (t' ∷ ts)).filtered_state) (process_changed s level t new_level)
    ∙ elim (le_or_lt s.stability_threshold 0) [
      | inl none_asked ↦
          let (raw, out) = process_accepted s' level t' refl o (omega arith) wide.0 in
          rw
            (
              le→leb 1 (suc (length ts)) (omega arith),
              le→leb s.stability_threshold (suc (length ts)) (omega arith),
            )
            (samples_settled (process s' level t').0 level ts raw out)
      | inr some_asked ↦ rw (le→leb 1 (suc (length ts)) (omega arith)) (
          samples_going_on s' level (t' ∷ ts) refl o some_asked small wide
          ∙ ap (λ n. if leb s.stability_threshold n then level else s.filtered_state) (omega arith))
    ]
