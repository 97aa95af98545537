-- ===== src/EngineCore/Tcu/Gears.antt =====
-- The transmissions that calls can lead to.
use rust_ems.Base.{
  ℕ, ◌-◌, ◌≡◌, inl, inr, refl, sym, ap, ◌∙◌, Bool-cases, true, false, ◌&&◌, ◌||◌, Option, none,
  some, ◌==◌, if◌then◌else◌, arith,
}
use rust_ems.F32.{F32}
use rust_ems.EngineCore.Shutdown.{SensorData}
use rust_ems.EngineCore.Tcu.{
  Gear, park, reverse, neutral, drive, first, second, third, fourth, fifth, sixth, gear_index,
  is_neutral, is_park, is_forward, ShiftMode, is_automatic, normal, shifting, is_normal,
  is_shifting_state, TcuConfig, Tcu, with_config, set_mode, set_config, engage, request_gear,
  next_gear, prev_gear, request, upshift, downshift, tick, rpm_or_zero, select, update,
}

gear_at : ℕ → Gear
gear_at n =
    if n == 0
    then park
    else if n == 1
    then reverse
    else if n == 2
    then neutral
    else if n == 3
    then drive
    else if n == 4
    then first
    else if n == 5
    then second
    else if n == 6
    then third
    else if n == 7
    then fourth
    else if n == 8
    then fifth
    else sixth

gear_at-gear_index : (g : Gear) → gear_at (gear_index g) ≡ g
unfolding gear_at
gear_at-gear_index park = refl
gear_at-gear_index reverse = refl
gear_at-gear_index neutral = refl
gear_at-gear_index drive = refl
gear_at-gear_index first = refl
gear_at-gear_index second = refl
gear_at-gear_index third = refl
gear_at-gear_index fourth = refl
gear_at-gear_index fifth = refl
gear_at-gear_index sixth = refl

same_gear : (a b : Gear) → (gear_index a == gear_index b) ≡ true → a ≡ b
same_gear a b e =
    let same : gear_index a ≡ gear_index b = ground (arith, e) in
    sym (gear_at-gear_index a) ∙ ap gear_at same ∙ gear_at-gear_index b

module _ {F : Type 0} where
  -- The state is normal, in the gear asked for, or a shift away from a gear that drives.
  pub data IsCoherent (t : Tcu F) : Type 0 where
    settled : t.state ≡ normal → t.current_gear ≡ t.target_gear → IsCoherent t
    between :
        t.state ≡ shifting
        → (is_neutral t.current_gear || is_park t.current_gear) ≡ false
        → IsCoherent t

  request_gear-IsCoherent :
      (t : Tcu F) (gear : Gear) → IsCoherent t → IsCoherent (request_gear t gear)
  unfolding request_gear engage
  request_gear-IsCoherent t gear (between e moving) =
      rw (ap is_normal e, request_gear) (between e moving)
  request_gear-IsCoherent t gear (settled e same) =
      elim (Bool-cases (gear_index gear == gear_index t.current_gear)) [
        | inl already ↦
            rw (ap is_normal e, already, request_gear)
              (settled e (sym (same_gear gear t.current_gear already)))
        | inr other ↦ elim (Bool-cases (is_neutral t.current_gear || is_park t.current_gear)) [
          | inl free ↦ rw (ap is_normal e, other, free, request_gear, engage) (settled e refl)
          | inr moving ↦
              rw (ap is_normal e, other, moving, request_gear, engage) (between refl moving)
        ]
      ]

  request-IsCoherent : (t : Tcu F) (gear : Option Gear) → IsCoherent t → IsCoherent (request t gear)
  request-IsCoherent t none c = c
  request-IsCoherent t (some gear) c = request_gear-IsCoherent t gear c

  tick-IsCoherent : (t : Tcu F) (dt_ms : ℕ) → IsCoherent t → IsCoherent (tick t dt_ms)
  unfolding tick
  tick-IsCoherent t dt_ms (settled e same) = rw (ap is_shifting_state e, tick) (settled e same)
  tick-IsCoherent t dt_ms (between e moving) = elim (Bool-cases (t.shift_timer_ms - dt_ms == 0)) [
    | inl over ↦ rw (ap is_shifting_state e, over, tick) (settled refl refl)
    | inr more ↦ rw (ap is_shifting_state e, more, tick) (between e moving)
  ]

module _ {F : Type 0} (f : F32 F) where
  select-IsCoherent : (t : Tcu F) (rpm : F) → IsCoherent t → IsCoherent (select f t rpm)
  unfolding select
  select-IsCoherent t rpm c =
      elim (Bool-cases (
        is_automatic t.mode
        && is_normal t.state
        && is_forward t.current_gear
        && f.lt (f.decimal 0 1) rpm)) [
          | inr off ↦ rw (off, select) c
          | inl on ↦ elim (Bool-cases (f.lt t.cfg.upshift_rpm rpm)) [
            | inl fast ↦ rw (on, fast, select) (request-IsCoherent t (next_gear t.current_gear) c)
            | inr not_fast ↦ elim (Bool-cases (f.lt rpm t.cfg.downshift_rpm)) [
              | inl slow ↦
                  rw (on, not_fast, slow, select)
                    (request-IsCoherent t (prev_gear t.current_gear) c)
              | inr cruising ↦ rw (on, not_fast, cruising, select) c
            ]
          ]
        ]

  -- By calls of the transmission's methods, under any configurations and modes.
  pub data Reachable : Tcu F → Type 0 where
    made : (cfg : TcuConfig F) → Reachable (with_config cfg)
    moded : {t : Tcu F} (mode : ShiftMode) → Reachable t → Reachable (set_mode t mode)
    configured : {t : Tcu F} (cfg : TcuConfig F) → Reachable t → Reachable (set_config t cfg)
    requested : {t : Tcu F} (gear : Gear) → Reachable t → Reachable (request_gear t gear)
    shifted_up : {t : Tcu F} → Reachable t → Reachable (upshift t)
    shifted_down : {t : Tcu F} → Reachable t → Reachable (downshift t)
    updated :
        {t : Tcu F} (sensors : SensorData F) (dt_ms : ℕ)
        → Reachable t
        → Reachable (update f t sensors dt_ms).0

  -- Whatever calls are made, the transmission is in its normal state and in the gear last taken as the
  -- target, or shifts away from a gear other than park and neutral; it never enters the states of
  -- protection and fault.
  pub Reachable-IsCoherent : {t : Tcu F} → Reachable t → IsCoherent t
  unfolding update
  Reachable-IsCoherent (made cfg) = settled refl refl
  Reachable-IsCoherent (moded mode r) = elim (Reachable-IsCoherent r) [
    | settled e same ↦ settled e same
    | between e moving ↦ between e moving
  ]
  Reachable-IsCoherent (configured cfg r) = elim (Reachable-IsCoherent r) [
    | settled e same ↦ settled e same
    | between e moving ↦ between e moving
  ]
  Reachable-IsCoherent (requested {t = t} gear r) =
      request_gear-IsCoherent t gear (Reachable-IsCoherent r)
  Reachable-IsCoherent (shifted_up {t = t} r) =
      request-IsCoherent t (next_gear t.current_gear) (Reachable-IsCoherent r)
  Reachable-IsCoherent (shifted_down {t = t} r) =
      request-IsCoherent t (prev_gear t.current_gear) (Reachable-IsCoherent r)
  Reachable-IsCoherent (updated {t = t} sensors dt_ms r) =
      select-IsCoherent (tick t dt_ms) (rpm_or_zero f sensors)
        (tick-IsCoherent t dt_ms (Reachable-IsCoherent r))
