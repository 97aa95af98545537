-- ===== src/EngineCore/Tcu/Shift.antt =====
-- How long a shift takes.
use rust_ems.Base.{
  ℕ, ◌+◌, ◌-◌, ◌≤◌, ◌<◌, ◌≡◌, inl, inr, refl, ap, ◌∙◌, List, [], ◌∷◌, true, false, ◌||◌, leb,
  le→leb, lt→leb, ◌==◌, if◌then◌else◌, sum, map, arith, le_or_lt,
}
use rust_ems.F32.{F32}
use rust_ems.EngineCore.Shutdown.{SensorData}
use rust_ems.EngineCore.Tcu.{
  Gear, gear_index, is_neutral, is_park, is_automatic, normal, shifting, is_normal,
  is_shifting_state, Tcu, engage, request_gear, tick, rpm_or_zero, select, update,
}

module _ {F : Type 0} (f : F32 F) where
  -- A row of updates, and its time.
  unfoldable pub updates : Tcu F → List (SensorData F × ℕ) → Tcu F
  updates t [] = t
  updates t ((sensors, dt_ms) ∷ later) = updates (update f t sensors dt_ms).0 later

  pub elapsed : List (SensorData F × ℕ) → ℕ
  elapsed readings = sum (map (λ (r : SensorData F × ℕ). r.1) readings)

  select_manual : (t : Tcu F) (rpm : F) → is_automatic t.mode ≡ false → select f t rpm ≡ t
  unfolding select
  select_manual t rpm m = rw (m, select)

  update_settled :
      (t : Tcu F) (sensors : SensorData F) (dt_ms : ℕ)
      → is_automatic t.mode ≡ false
      → is_shifting_state t.state ≡ false
      → (update f t sensors dt_ms).0 ≡ t
  unfolding update tick
  update_settled t sensors dt_ms m e =
      let still : tick t dt_ms ≡ t = rw (e, tick) in
      ap (λ x. select f x (rpm_or_zero f sensors)) still ∙ select_manual t (rpm_or_zero f sensors) m

  updates_settled :
      (t : Tcu F) (readings : List (SensorData F × ℕ))
      → is_automatic t.mode ≡ false
      → is_shifting_state t.state ≡ false
      → updates t readings ≡ t
  unfolding updates
  updates_settled t [] m e = refl
  updates_settled t ((sensors, dt_ms) ∷ later) m e =
      ap (λ x. updates x later) (update_settled t sensors dt_ms m e) ∙ updates_settled t later m e

  -- A call of `update` in which the shift ends, and one in which it goes on.
  update_over :
      (t : Tcu F) (sensors : SensorData F) (dt_ms : ℕ)
      → is_automatic t.mode ≡ false
      → is_shifting_state t.state ≡ true
      → t.shift_timer_ms ≤ dt_ms
      → (update f t sensors dt_ms).0
        ≡ record t { shift_timer_ms = 0; current_gear = t.target_gear; state = normal }
  unfolding update tick
  update_over t sensors dt_ms m e over =
      let none_left : t.shift_timer_ms - dt_ms ≡ 0 = omega arith in
      let done : tick t dt_ms
          ≡ record t { shift_timer_ms = 0; current_gear = t.target_gear; state = normal } =
        rw (e, none_left, tick) in
      ap (λ x. select f x (rpm_or_zero f sensors)) done
      ∙ select_manual
          (record t { shift_timer_ms = 0; current_gear = t.target_gear; state = normal })
          (rpm_or_zero f sensors) m

  update_going_on :
      (t : Tcu F) (sensors : SensorData F) (dt_ms : ℕ)
      → is_automatic t.mode ≡ false
      → is_shifting_state t.state ≡ true
      → dt_ms < t.shift_timer_ms
      → (update f t sensors dt_ms).0 ≡ record t { shift_timer_ms = t.shift_timer_ms - dt_ms }
  unfolding update tick
  update_going_on t sensors dt_ms m e more =
      let some_left : (t.shift_timer_ms - dt_ms == 0) ≡ false = ground (arith, more) in
      let going : tick t dt_ms ≡ record t { shift_timer_ms = t.shift_timer_ms - dt_ms } =
        rw (e, some_left, tick) in
      ap (λ x. select f x (rpm_or_zero f sensors)) going
      ∙ select_manual (record t { shift_timer_ms = t.shift_timer_ms - dt_ms })
          (rpm_or_zero f sensors) m

  updates_over :
      (t : Tcu F) (sensors : SensorData F) (dt_ms : ℕ) (later : List (SensorData F × ℕ))
      → is_automatic t.mode ≡ false
      → is_shifting_state t.state ≡ true
      → t.shift_timer_ms ≤ dt_ms
      → (updates t ((sensors, dt_ms) ∷ later)).current_gear
        ≡ (if leb t.shift_timer_ms (dt_ms + elapsed later) then t.target_gear else t.current_gear)
  unfolding updates
  updates_over t sensors dt_ms later m e over =
      let done = record t { shift_timer_ms = 0; current_gear = t.target_gear; state = normal } in
      rw (le→leb t.shift_timer_ms (dt_ms + elapsed later) (omega arith)) (
        ap (λ x. (updates x later).current_gear) (update_over t sensors dt_ms m e over)
        ∙ ap (λ (x : Tcu F). x.current_gear) (updates_settled done later m refl))

  updates_shifting :
      (t : Tcu F) (sensors : SensorData F) (dt_ms : ℕ) (later : List (SensorData F × ℕ))
      → is_automatic t.mode ≡ false
      → is_shifting_state t.state ≡ true
      → (updates t ((sensors, dt_ms) ∷ later)).current_gear
        ≡ (if leb t.shift_timer_ms (dt_ms + elapsed later) then t.target_gear else t.current_gear)
  unfolding updates elapsed
  updates_shifting t sensors dt_ms [] m e = elim (le_or_lt t.shift_timer_ms dt_ms) [
    | inl over ↦ updates_over t sensors dt_ms [] m e over
    | inr more ↦
        rw (lt→leb t.shift_timer_ms (dt_ms + 0) (omega arith))
          (ap (λ (x : Tcu F). x.current_gear) (update_going_on t sensors dt_ms m e more))
  ]
  updates_shifting t sensors dt_ms ((sensors', dt_ms') ∷ later) m e =
      elim (le_or_lt t.shift_timer_ms dt_ms) [
        | inl over ↦ updates_over t sensors dt_ms ((sensors', dt_ms') ∷ later) m e over
        | inr more ↦
            let t' = record t { shift_timer_ms = t.shift_timer_ms - dt_ms } in
            let same : leb (t.shift_timer_ms - dt_ms) (dt_ms' + elapsed later)
                ≡ leb t.shift_timer_ms (dt_ms + (dt_ms' + elapsed later)) =
              ground (arith, more) in
            ap (λ x. (updates x ((sensors', dt_ms') ∷ later)).current_gear)
              (update_going_on t sensors dt_ms m e more)
            ∙ updates_shifting t' sensors' dt_ms' later m e
            ∙ ap (λ b. if b then t.target_gear else t.current_gear) same
      ]

  -- A request of another gear, in the normal state, out of the automatic mode and in a gear other than
  -- park and neutral; then one or more updates, whatever the sensors read. The transmission is in the
  -- new gear exactly when the updates' times add up to the duration of a shift, and till then in the old.
  pub request_gear-updates :
      (t : Tcu F) (gear : Gear) (sensors : SensorData F) (dt_ms : ℕ)
      (later : List (SensorData F × ℕ))
      → is_automatic t.mode ≡ false
      → is_normal t.state ≡ true
      → (gear_index gear == gear_index t.current_gear) ≡ false
      → (is_neutral t.current_gear || is_park t.current_gear) ≡ false
      → (updates (request_gear t gear) ((sensors, dt_ms) ∷ later)).current_gear
        ≡ (if leb t.cfg.shift_duration_ms (dt_ms + elapsed later) then gear else t.current_gear)
  unfolding request_gear engage
  request_gear-updates t gear sensors dt_ms later m e other moving =
      let t' = record t {
        target_gear = gear;
        state = shifting;
        shift_timer_ms = t.cfg.shift_duration_ms;
      } in
      let begun : request_gear t gear ≡ t' = rw (e, other, moving, request_gear, engage) in
      ap (λ x. (updates x ((sensors, dt_ms) ∷ later)).current_gear) begun
      ∙ updates_shifting t' sensors dt_ms later m refl
