-- ===== src/EngineCore/StartStop/Starter.antt =====
-- When the starter is engaged, and for how long.
use rust_ems.Base.{
  ℕ, ◌+◌, ◌-◌, ◌<◌, ◌≡◌, inl, inr, refl, sym, ap, ◌∙◌, List, [], ◌∷◌, Option-cases, Bool,
  Bool-cases, true, false, not, ◌&&◌, ◌||◌, Option, none, some, ltb, ◌==◌, if◌then◌else◌, sum, map,
  arith,
}
use rust_ems.Base.Words.{u32_wrapping_sub}
use rust_ems.F32.{F32}
use rust_ems.EngineCore.Shutdown.{SensorData}
use rust_ems.EngineCore.StartStop.{
  StartState, stopped, cranking, running, start_failed, stopping, StartFailureReason, StartConfig,
  StartStopController, is_stopped_state, is_cranking_state, is_running_state, is_failed_state,
  with_config, start, stop, is_cranking, set_config, reset, update_stopped, rpm_or_zero,
  update_cranking, update_turning, update_state, update,
}

-- A failure has a reason exactly in the failed state, and a retry delay runs in no other.
abbrev pub has_reason : Option StartFailureReason → Bool
has_reason none = false
has_reason (some _) = true

abbrev pub matches : Bool → Option StartFailureReason → ℕ → Bool
matches failed reason retry_timer_ms =
    if failed then has_reason reason else not (has_reason reason) && (retry_timer_ms == 0)

abbrev pub is_explained : StartState → Option StartFailureReason → ℕ → Bool
is_explained state reason retry_timer_ms = matches (is_failed_state state) reason retry_timer_ms

module _ {F : Type 0} (f : F32 F) where
  -- What an update does: the starter is engaged exactly while cranking, which goes on only in time.
  pub data IsUpdate (c : StartStopController F) (dt_ms : ℕ)
      : StartStopController F × Bool → Type 0 where
    still_cranking :
        is_cranking c ≡ true
        → dt_ms < c.crank_timer_ms
        → IsUpdate c dt_ms (record c { crank_timer_ms = c.crank_timer_ms - dt_ms }, true)
    not_cranking :
        {c' : StartStopController F}
        → is_cranking c' ≡ false
        → is_explained c'.state c'.failure_reason c'.retry_timer_ms ≡ true
        → IsUpdate c dt_ms (c', false)

  update_cranking-IsUpdate :
      (c : StartStopController F) (rpm : F) (dt_ms : ℕ)
      → c.state ≡ cranking
      → is_explained c.state c.failure_reason c.retry_timer_ms ≡ true
      → IsUpdate c dt_ms (update_cranking f c rpm dt_ms)
  unfolding update_cranking
  update_cranking-IsUpdate c rpm dt_ms e x =
      let calm : is_explained cranking c.failure_reason c.retry_timer_ms ≡ true =
        ap (λ s. is_explained s c.failure_reason c.retry_timer_ms) (sym e) ∙ x in
      let left = c.crank_timer_ms - dt_ms in
      elim (Bool-cases (f.le c.cfg.start_rpm_threshold rpm)) [
        | inl fast ↦ rw (fast, update_cranking) (not_cranking refl calm)
        | inr slow ↦ elim (Bool-cases (left == 0)) [
          | inl late ↦ rw (slow, late, update_cranking) (not_cranking refl refl)
          | inr early ↦
              elim (Bool-cases (
                f.lt rpm (f.decimal 500 1)
                && ltb left (u32_wrapping_sub c.cfg.crank_timeout_ms 1000))) [
                  | inl dead ↦ rw (slow, early, dead, update_cranking) (not_cranking refl refl)
                  | inr alive ↦
                      rw (slow, early, alive, update_cranking)
                        (still_cranking (ap is_cranking_state e) (ground (arith, early)))
                ]
        ]
      ]

  update_stopped-IsUpdate :
      (c : StartStopController F) (dt_ms : ℕ)
      → c.state ≡ stopped
      → is_explained c.state c.failure_reason c.retry_timer_ms ≡ true
      → IsUpdate c dt_ms (update_stopped c dt_ms)
  unfolding update_stopped
  update_stopped-IsUpdate c dt_ms e x = elim (Option-cases c.failure_reason) [
    | inl calm ↦ rw (calm, update_stopped) (not_cranking (ap is_cranking_state e) x)
    | inr (reason, bad) ↦
        let wrong : is_explained stopped (some reason) c.retry_timer_ms ≡ true =
          ap (λ s. is_explained s (some reason) c.retry_timer_ms) (sym e)
          ∙ ap (λ r. is_explained c.state r c.retry_timer_ms) (sym bad)
          ∙ x in
        absurd (ground (arith, wrong))
  ]

  update_turning-IsUpdate :
      (c : StartStopController F) (rpm : F) (dt_ms : ℕ)
      → is_cranking_state c.state ≡ false
      → is_failed_state c.state ≡ false
      → is_explained c.state c.failure_reason c.retry_timer_ms ≡ true
      → IsUpdate c dt_ms (update_turning f c rpm)
  unfolding update_turning
  update_turning-IsUpdate c rpm dt_ms off whole x =
      let calm : is_explained stopped c.failure_reason c.retry_timer_ms ≡ true =
        ap (λ b. matches b c.failure_reason c.retry_timer_ms) (sym whole) ∙ x in
      elim (Bool-cases (f.lt rpm c.cfg.stop_rpm_threshold)) [
        | inl slow ↦ rw (slow, update_turning) (not_cranking refl calm)
        | inr fast ↦ rw (fast, update_turning) (not_cranking off x)
      ]

  update_state-IsUpdate :
      (s : StartState) (c : StartStopController F) (rpm : F) (dt_ms : ℕ)
      → c.state ≡ s
      → is_explained c.state c.failure_reason c.retry_timer_ms ≡ true
      → IsUpdate c dt_ms (update_state f s c rpm dt_ms)
  update_state-IsUpdate stopped c rpm dt_ms e x = update_stopped-IsUpdate c dt_ms e x
  update_state-IsUpdate cranking c rpm dt_ms e x = update_cranking-IsUpdate c rpm dt_ms e x
  update_state-IsUpdate running c rpm dt_ms e x =
      update_turning-IsUpdate c rpm dt_ms (ap is_cranking_state e) (ap is_failed_state e) x
  update_state-IsUpdate start_failed c rpm dt_ms e x =
      let bad : is_explained start_failed c.failure_reason c.retry_timer_ms ≡ true =
        ap (λ s. is_explained s c.failure_reason c.retry_timer_ms) (sym e) ∙ x in
      not_cranking (ap is_cranking_state e)
        (ap (λ s. is_explained s c.failure_reason (c.retry_timer_ms - dt_ms)) e ∙ bad)
  update_state-IsUpdate stopping c rpm dt_ms e x =
      update_turning-IsUpdate c rpm dt_ms (ap is_cranking_state e) (ap is_failed_state e) x

  pub update-IsUpdate :
      (c : StartStopController F) (sensors : SensorData F) (dt_ms : ℕ)
      → is_explained c.state c.failure_reason c.retry_timer_ms ≡ true
      → IsUpdate c dt_ms (update f c sensors dt_ms)
  unfolding update
  update-IsUpdate c sensors dt_ms x =
      update_state-IsUpdate c.state c (rpm_or_zero f sensors) dt_ms refl x

  IsUpdate-explained :
      {c : StartStopController F} {dt_ms : ℕ} {r : StartStopController F × Bool}
      → IsUpdate c dt_ms r
      → is_explained c.state c.failure_reason c.retry_timer_ms ≡ true
      → is_explained r.0.state r.0.failure_reason r.0.retry_timer_ms ≡ true
  IsUpdate-explained (still_cranking on early) x = x
  IsUpdate-explained (not_cranking off x) y = x

  IsUpdate-engaged :
      {c : StartStopController F} {dt_ms : ℕ} {r : StartStopController F × Bool}
      → IsUpdate c dt_ms r
      → r.1 ≡ is_cranking r.0
  IsUpdate-engaged (still_cranking on early) = sym on
  IsUpdate-engaged (not_cranking off x) = sym off

  IsUpdate-in_time :
      {c : StartStopController F} {dt_ms : ℕ} {r : StartStopController F × Bool}
      → IsUpdate c dt_ms r
      → is_cranking r.0 ≡ true
      → (is_cranking c ≡ true)
        × (dt_ms < c.crank_timer_ms)
        × (r.0.crank_timer_ms ≡ c.crank_timer_ms - dt_ms)
  IsUpdate-in_time (still_cranking on early) y = (on, early, refl)
  IsUpdate-in_time (not_cranking off x) y = absurd (ground (arith, off, y))

  -- By calls of the controller's methods, under any configurations.
  pub data Reachable : StartStopController F → Type 0 where
    made : (cfg : StartConfig F) → Reachable (with_config cfg)
    started : {c : StartStopController F} → Reachable c → Reachable (start c)
    halted : {c : StartStopController F} → Reachable c → Reachable (stop c)
    updated :
        {c : StartStopController F} (sensors : SensorData F) (dt_ms : ℕ)
        → Reachable c
        → Reachable (update f c sensors dt_ms).0
    restarted : {c : StartStopController F} → Reachable c → Reachable (reset c)
    configured :
        {c : StartStopController F} (cfg : StartConfig F)
        → Reachable c
        → Reachable (set_config c cfg)

  -- Whatever calls are made, the controller has a failure reason exactly when the start has failed, and
  -- a retry delay runs in no other state.
  pub Reachable-is_explained :
      {c : StartStopController F}
      → Reachable c
      → is_explained c.state c.failure_reason c.retry_timer_ms ≡ true
  unfolding start stop
  Reachable-is_explained (made cfg) = refl
  Reachable-is_explained (started {c = c} r) =
      elim (Bool-cases (is_stopped_state c.state || is_failed_state c.state)) [
        | inl idle ↦ rw (idle, start) refl
        | inr busy ↦ rw (busy, start) (Reachable-is_explained r)
      ]
  Reachable-is_explained (halted {c = c} r) = elim (Bool-cases (is_running_state c.state)) [
    | inr busy ↦ rw (busy, stop) (Reachable-is_explained r)
    | inl idle ↦
        let whole : is_failed_state c.state ≡ false = ground (arith, idle) in
        rw (idle, stop)
          (ap (λ b. matches b c.failure_reason c.retry_timer_ms) (sym whole)
            ∙ Reachable-is_explained r)
  ]
  Reachable-is_explained (updated {c = c} sensors dt_ms r) =
      IsUpdate-explained (update-IsUpdate c sensors dt_ms (Reachable-is_explained r))
        (Reachable-is_explained r)
  Reachable-is_explained (restarted r) = refl
  Reachable-is_explained (configured cfg r) = Reachable-is_explained r

  -- A row of updates, and its time.
  unfoldable pub updates : StartStopController F → List (SensorData F × ℕ) → StartStopController F
  updates c [] = c
  updates c ((sensors, dt_ms) ∷ later) = updates (update f c sensors dt_ms).0 later

  pub elapsed : List (SensorData F × ℕ) → ℕ
  elapsed readings = sum (map (λ (r : SensorData F × ℕ). r.1) readings)

  updates_in_time :
      (c : StartStopController F) (readings : List (SensorData F × ℕ)) (sensors : SensorData F)
      (dt_ms : ℕ)
      → is_explained c.state c.failure_reason c.retry_timer_ms ≡ true
      → (update f (updates c readings) sensors dt_ms).1 ≡ true
      → (is_cranking c ≡ true) × (elapsed readings + dt_ms < c.crank_timer_ms)
  unfolding updates elapsed
  updates_in_time c [] sensors dt_ms x on =
      let u = update-IsUpdate c sensors dt_ms x in
      let (was, early, _) = IsUpdate-in_time u (sym (IsUpdate-engaged u) ∙ on) in (was, omega arith)
  updates_in_time c ((sensors', dt_ms') ∷ later) sensors dt_ms x on =
      let u = update-IsUpdate c sensors' dt_ms' x in
      let (on', rest) =
        updates_in_time (update f c sensors' dt_ms').0 later sensors dt_ms (IsUpdate-explained u x)
          on in
      let (was, early, left) = IsUpdate-in_time u on' in (was, omega arith)

  -- After `start` of a stopped engine or after a failure, whatever the sensors read: when an update
  -- engages the starter, the time of all updates since the start is below the timeout for cranking.
  pub starter_in_time :
      {c : StartStopController F} (readings : List (SensorData F × ℕ)) (sensors : SensorData F)
      (dt_ms : ℕ)
      → Reachable c
      → (is_stopped_state c.state || is_failed_state c.state) ≡ true
      → (update f (updates (start c) readings) sensors dt_ms).1 ≡ true
      → elapsed readings + dt_ms < c.cfg.crank_timeout_ms
  unfolding start
  starter_in_time {c = c} readings sensors dt_ms r idle on =
      let begun : start c ≡ record c {
        state = cranking;
        crank_timer_ms = c.cfg.crank_timeout_ms;
        failure_reason = none;
        retry_timer_ms = 0;
      } =
        rw (idle, start) in
      let (_, early) =
        updates_in_time (start c) readings sensors dt_ms (Reachable-is_explained (started r)) on in
      omega (arith, early, ap (λ (x : StartStopController F). x.crank_timer_ms) begun)
