-- ===== src/EngineCore/Shutdown/Sequence.antt =====
-- The order of the shutdown's states, and how long the fuel pump runs.
use rust_ems.Base.{
  le_or_lt, ℕ, ◌+◌, ◌-◌, ◌%◌, ◌≤◌, ◌<◌, ◌≡◌, ◌⊎◌, inl, inr, refl, sym, ap, ◌∙◌, List, [], ◌∷◌, Bool,
  Bool-cases, true, false, ◌&&◌, ltb, lt→ltb, le→ltb, eq→==, ne→==, ◌==◌, if◌then◌else◌, arith,
}
use rust_ems.EngineCore.Shutdown.{
  ShutdownReason, low_battery, timeout, ShutdownState, running, fuel_pump_on, coasting, stopped,
  ShutdownController, SensorData, is_running, shutdown, below, has_stopped, update, update_state,
  update_running, update_fuel_pump, update_coasting,
}

-- The place of a state in the sequence.
pub rank : ShutdownState → ℕ
rank running = 0
rank fuel_pump_on = 1
rank coasting = 2
rank stopped = 3

same_test : (t d s : ℕ) → d < t → ltb s (t - d) ≡ ltb (d + s) t
same_test t d s h = ground arith

module _ {F : Type 0} (lt : F → F → Bool) where
  -- One step forward at most, and the pump on only in its state.
  pub record IsForward (c : ShutdownController F) (result : ShutdownController F × Bool)
      : Type 0 where
    pub not_back : rank c.state ≤ rank result.0.state
    pub one_step : rank result.0.state ≤ rank c.state + 1
    pub pump : (result.1 ≡ false) ⊎ (result.0.state ≡ fuel_pump_on)

  if_low :
      (b : Bool) (x y : ShutdownController F)
      → rank x.state ≤ 1
      → rank y.state ≤ 1
      → rank (if b then x else y).state ≤ 1
  if_low true x y p q = p
  if_low false x y p q = q

  shutdown_low :
      (c : ShutdownController F) (reason : ShutdownReason)
      → rank c.state ≤ 1
      → rank (shutdown c reason).state ≤ 1
  unfolding shutdown rank
  shutdown_low c reason h = if_low (is_running c.state) _ c (omega arith) h

  update_state-IsForward :
      (s : ShutdownState) (c : ShutdownController F) (sensors : SensorData F) (dt_ms : ℕ)
      → c.state ≡ s
      → IsForward c (update_state lt s c sensors dt_ms)
  unfolding update_state update_running update_fuel_pump update_coasting rank
  update_state-IsForward running c sensors dt_ms e =
      let zero_rank : rank c.state ≡ 0 = ap rank e in
      let low =
        if_low (below lt sensors.battery_volts c.cfg.battery_shutdown_v) (shutdown c low_battery) c
          (shutdown_low c low_battery (omega (arith, zero_rank))) (omega (arith, zero_rank)) in
      record {
        not_back = omega (arith, zero_rank);
        one_step = omega (
          arith,
          zero_rank,
          if_low
              (ltb c.cfg.start_timeout_ms c.uptime_ms && below lt sensors.rpm c.cfg.min_running_rpm)
              (shutdown
                (if below lt sensors.battery_volts c.cfg.battery_shutdown_v
                  then shutdown c low_battery
                  else c)
                timeout)
              (if below lt sensors.battery_volts c.cfg.battery_shutdown_v
                then shutdown c low_battery
                else c)
              (shutdown_low _ timeout low) low,
        );
        pump = inl refl;
      }
  update_state-IsForward fuel_pump_on c sensors dt_ms e =
      let one : rank c.state ≡ 1 = ap rank e in
      elim (Bool-cases (c.fuel_pump_timer_ms - dt_ms == 0)) [
        | inl t ↦
            rw (t, update_fuel_pump)
              (record {
                not_back = omega (arith, one);
                one_step = omega (arith, one);
                pump = inl refl;
              })
        | inr f ↦
            rw (f, update_fuel_pump)
              (record { not_back = omega arith; one_step = omega arith; pump = inr e })
      ]
  update_state-IsForward coasting c sensors dt_ms e =
      let two : rank c.state ≡ 2 = ap rank e in
      elim (Bool-cases (has_stopped lt sensors.rpm c.cfg.min_running_rpm)) [
        | inl t ↦
            rw (t, update_coasting)
              (record {
                not_back = omega (arith, two);
                one_step = omega (arith, two);
                pump = inl refl;
              })
        | inr f ↦
            rw (f, update_coasting)
              (record { not_back = omega arith; one_step = omega arith; pump = inl refl })
      ]
  update_state-IsForward stopped c sensors dt_ms e = record {
    not_back = omega arith;
    one_step = omega arith;
    pump = inl refl;
  }

  -- Whatever the sensors read, an `update` stays in its state or goes to the next one of the sequence,
  -- never back and never past one; and it asks for the fuel pump only in the state `FuelPumpOn`.
  pub update-IsForward :
      (c : ShutdownController F) (sensors : SensorData F) (dt_ms : ℕ)
      → IsForward c (update lt c sensors dt_ms)
  unfolding update
  update-IsForward c sensors dt_ms =
      let r =
        update_state-IsForward c.state (record c { uptime_ms = (c.uptime_ms + dt_ms) % 4294967296 })
          sensors dt_ms refl in
      record { not_back = r.not_back; one_step = r.one_step; pump = r.pump }

  -- What the last of several calls of `update` answers, each with its own readings; `last` stands for no
  -- call.
  pub pump_after : ShutdownController F → List (SensorData F × ℕ) → Bool → Bool
  pump_after c [] last = last
  pump_after c ((sensors, dt_ms) ∷ later) last =
      pump_after (update lt c sensors dt_ms).0 later (update lt c sensors dt_ms).1

  -- The time that passes over several calls.
  pub elapsed : List (SensorData F × ℕ) → ℕ
  elapsed [] = 0
  elapsed ((_, dt_ms) ∷ later) = dt_ms + elapsed later

  -- Once past the pump's state, the pump stays off.
  pump_off :
      (c : ShutdownController F) (calls : List (SensorData F × ℕ))
      → 2 ≤ rank c.state
      → pump_after c calls false ≡ false
  unfolding pump_after rank
  pump_off c [] h = refl
  pump_off c ((sensors, dt_ms) ∷ later) h =
      let step = update-IsForward c sensors dt_ms in
      let past : 2 ≤ rank (update lt c sensors dt_ms).0.state = omega (arith, step.not_back) in
      let off : (update lt c sensors dt_ms).1 ≡ false = elim step.pump [
        | inl e ↦ e
        | inr e ↦ absurd (omega (arith, ap rank e))
      ] in
      rw off (pump_off (update lt c sensors dt_ms).0 later past)

  update_expired :
      (sensors : SensorData F) (c : ShutdownController F) (dt_ms : ℕ)
      → c.state ≡ fuel_pump_on
      → c.fuel_pump_timer_ms ≤ dt_ms
      → ((update lt c sensors dt_ms).1 ≡ false) × ((update lt c sensors dt_ms).0.state ≡ coasting)
  unfolding update update_state update_fuel_pump
  update_expired sensors c dt_ms e h =
      rw (e, eq→== (c.fuel_pump_timer_ms - dt_ms) 0 (omega arith), update_fuel_pump) (refl, refl)

  update_pumping :
      (sensors : SensorData F) (c : ShutdownController F) (dt_ms : ℕ)
      → c.state ≡ fuel_pump_on
      → dt_ms < c.fuel_pump_timer_ms
      → ((update lt c sensors dt_ms).1 ≡ true)
        × ((update lt c sensors dt_ms).0.state ≡ fuel_pump_on)
        × ((update lt c sensors dt_ms).0.fuel_pump_timer_ms ≡ c.fuel_pump_timer_ms - dt_ms)
  unfolding update update_state update_fuel_pump
  update_pumping sensors c dt_ms e h =
      rw (e, ne→== (c.fuel_pump_timer_ms - dt_ms) 0 (omega arith), update_fuel_pump)
        (refl, refl, refl)

  -- In the state `FuelPumpOn`, whatever the sensors read at each call, the last of one or more calls of
  -- `update` asks for the pump exactly when their times add up to less than was left on the pump's timer.
  pub pump_after-run :
      (sensors : SensorData F) (c : ShutdownController F) (dt_ms : ℕ)
      (later : List (SensorData F × ℕ)) (last : Bool)
      → c.state ≡ fuel_pump_on
      → pump_after c ((sensors, dt_ms) ∷ later) last
        ≡ ltb (dt_ms + elapsed later) c.fuel_pump_timer_ms
  unfolding pump_after elapsed rank
  pump_after-run sensors c dt_ms [] last e = elim (le_or_lt c.fuel_pump_timer_ms dt_ms) [
    | inl h ↦
        (update_expired sensors c dt_ms e h).0
        ∙ sym (le→ltb (dt_ms + 0) c.fuel_pump_timer_ms (omega arith))
    | inr h ↦
        (update_pumping sensors c dt_ms e h).0
        ∙ sym (lt→ltb (dt_ms + 0) c.fuel_pump_timer_ms (omega arith))
  ]
  pump_after-run sensors c dt_ms ((sensors', d) ∷ ds) last e =
      let c' = (update lt c sensors dt_ms).0 in
      let rest = pump_after-run sensors' c' d ds (update lt c sensors dt_ms).1 in
      elim (le_or_lt c.fuel_pump_timer_ms dt_ms) [
        | inl h ↦
            let (off, state) = update_expired sensors c dt_ms e h in
            let past : 2 ≤ rank c'.state = omega (arith, ap rank state) in
            ap (pump_after c' ((sensors', d) ∷ ds)) off
            ∙ pump_off c' ((sensors', d) ∷ ds) past
            ∙ sym (le→ltb (dt_ms + (d + elapsed ds)) c.fuel_pump_timer_ms (omega arith))
        | inr h ↦
            let (_, state, left) = update_pumping sensors c dt_ms e h in
            rest state
            ∙ ap (ltb (d + elapsed ds)) left
            ∙ same_test c.fuel_pump_timer_ms dt_ms (d + elapsed ds) h
      ]
