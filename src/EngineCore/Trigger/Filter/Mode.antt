-- ===== src/EngineCore/Trigger/Filter/Mode.antt =====
-- When the injection mode becomes sequential.
use rust_ems.Base.{
  ℕ, zero, suc, ◌+◌, ◌/◌, ◌<◌, ◌≡◌, inl, inr, refl, ap, ◌∙◌, List, [], ◌∷◌, length, All, true,
  false, leb, le→leb, lt→leb, if◌then◌else◌, arith, le_or_lt,
}
use rust_ems.Base.Words.{u32_saturating_add}
use rust_ems.EngineCore.Trigger.{TriggerState, is_full_sync}
use rust_ems.EngineCore.Trigger.Filter.{
  InjectionMode, simultaneous, grouped, sequential, SequentialModeSelector, reset_selector, update,
}

-- The mode that `n` states of full sync in a row earn.
pub earned : ℕ → ℕ → InjectionMode
earned required zero = simultaneous
earned required (suc n) =
    if leb required (suc n)
    then sequential
    else if leb (required / 2) (suc n)
    then grouped
    else simultaneous

earned_short : (required n : ℕ) → n < required → n < required / 2 → earned required n ≡ simultaneous
unfolding earned
earned_short required zero few fewer = refl
earned_short required (suc n) few fewer =
    rw (lt→leb required (suc n) few, lt→leb (required / 2) (suc n) fewer)

earned_next :
    (required n : ℕ)
    → earned required (n + 1) ≡ (
        if leb required (n + 1)
        then sequential
        else if leb (required / 2) (n + 1)
        then grouped
        else simultaneous)
unfolding earned
earned_next required n = let one_more : n + 1 ≡ suc n = omega arith in rw (one_more, earned)

module _ {F : Type 0} where
  pub updates : SequentialModeSelector → List (TriggerState F) → SequentialModeSelector
  updates s [] = s
  updates s (state ∷ later) = updates (update s state) later

  update_counted :
      (s : SequentialModeSelector) (state : TriggerState F)
      → is_full_sync state.sync ≡ true
      → s.sync_cycle_count < 4294967295
      → s.mode ≡ earned s.required_cycles s.sync_cycle_count
      → (update s state ≡ record s {
        sync_cycle_count = s.sync_cycle_count + 1;
        mode = earned s.required_cycles (s.sync_cycle_count + 1);
      })
  unfolding update
  update_counted s state full small e =
      let next : u32_saturating_add s.sync_cycle_count 1 ≡ s.sync_cycle_count + 1 = omega arith in
      elim (le_or_lt s.required_cycles (s.sync_cycle_count + 1)) [
        | inl enough ↦ rw (
          update,
          full,
          next,
          earned_next s.required_cycles s.sync_cycle_count,
          le→leb s.required_cycles (s.sync_cycle_count + 1) enough,
        )
        | inr fewer ↦ elim (le_or_lt (s.required_cycles / 2) (s.sync_cycle_count + 1)) [
          | inl half ↦ rw (
            update,
            full,
            next,
            earned_next s.required_cycles s.sync_cycle_count,
            lt→leb s.required_cycles (s.sync_cycle_count + 1) fewer,
            le→leb (s.required_cycles / 2) (s.sync_cycle_count + 1) half,
          )
          | inr less ↦
              let before : s.mode ≡ simultaneous =
                e ∙ earned_short s.required_cycles s.sync_cycle_count (omega arith) (omega arith) in
              rw (
                update,
                full,
                next,
                earned_next s.required_cycles s.sync_cycle_count,
                lt→leb s.required_cycles (s.sync_cycle_count + 1) fewer,
                lt→leb (s.required_cycles / 2) (s.sync_cycle_count + 1) less,
                before,
              )
        ]
      ]

  updates_counted :
      (s : SequentialModeSelector) (states : List (TriggerState F))
      → All (λ (state : TriggerState F). is_full_sync state.sync ≡ true) states
      → s.sync_cycle_count + length states < 4294967296
      → s.mode ≡ earned s.required_cycles s.sync_cycle_count
      → (updates s states).mode ≡ earned s.required_cycles (s.sync_cycle_count + length states)
  unfolding updates
  updates_counted s [] all small e = e ∙ ap (earned s.required_cycles) (omega arith)
  updates_counted s (state ∷ later) all small e =
      let step = update_counted s state all.0 (omega arith) e in
      let count : s.sync_cycle_count + 1 + length later ≡ s.sync_cycle_count + suc (length later) =
        omega arith in
      ap (λ x. (updates x later).mode) step
      ∙ updates_counted
          (record s {
            sync_cycle_count = s.sync_cycle_count + 1;
            mode = earned s.required_cycles (s.sync_cycle_count + 1);
          })
          later all.1 (omega arith) refl
      ∙ ap (earned s.required_cycles) count

  -- From any state without full sync on: the selector returns to the simultaneous mode, and after `n`
  -- states of full sync in a row, at least one, the mode is sequential when `n` reaches the required
  -- number, grouped when it reaches half of that, rounded down, and simultaneous before. The states are
  -- fewer than 2 ^ 32.
  pub updates-earned :
      (s : SequentialModeSelector) (lost : TriggerState F) (states : List (TriggerState F))
      → is_full_sync lost.sync ≡ false
      → All (λ (state : TriggerState F). is_full_sync state.sync ≡ true) states
      → length states < 4294967296
      → (updates s (lost ∷ states)).mode ≡ earned s.required_cycles (length states)
  unfolding updates update earned
  updates-earned s lost states off all small =
      let reset : update s lost ≡ reset_selector s = rw (update, off) in
      ap (λ x. (updates x states).mode) reset
      ∙ updates_counted (reset_selector s) states all (omega arith) refl
      ∙ ap (earned s.required_cycles) (omega arith)
