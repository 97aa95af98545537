-- ===== src/EngineCore/Tcu.antt =====
-- engine-core/src/tcu.rs: the control of an automatic transmission. Times are u32; the model of the
-- sensors is the shutdown's.
pub mod Gears
pub mod Shift
mod Tests
use rust_ems.Base.{
  ℕ, ◌-◌, Bool, true, false, not, ◌&&◌, ◌||◌, Option, none, some, ◌==◌, if◌then◌else◌,
}
use rust_ems.F32.{F32}
use rust_ems.EngineCore.Shutdown.{SensorData}

pub data Gear : Type 0 where
  park reverse neutral drive first second third fourth fifth sixth : Gear

-- `==` of gears compares their places in the list.
abbrev pub gear_index : Gear → ℕ
gear_index park = 0
gear_index reverse = 1
gear_index neutral = 2
gear_index drive = 3
gear_index first = 4
gear_index second = 5
gear_index third = 6
gear_index fourth = 7
gear_index fifth = 8
gear_index sixth = 9

abbrev pub is_forward : Gear → Bool
is_forward drive = true
is_forward first = true
is_forward second = true
is_forward third = true
is_forward fourth = true
is_forward fifth = true
is_forward sixth = true
is_forward _ = false

abbrev pub is_reverse : Gear → Bool
is_reverse reverse = true
is_reverse _ = false

abbrev pub is_neutral : Gear → Bool
is_neutral neutral = true
is_neutral _ = false

abbrev pub is_park : Gear → Bool
is_park park = true
is_park _ = false

pub data ShiftMode : Type 0 where
  automatic manual sport economy : ShiftMode

pub data ShiftDirection : Type 0 where
  up down : ShiftDirection

pub data TcuState : Type 0 where
  normal shifting protection fault : TcuState

abbrev pub is_automatic : ShiftMode → Bool
is_automatic automatic = true
is_automatic _ = false

abbrev pub is_normal : TcuState → Bool
is_normal normal = true
is_normal _ = false

abbrev pub is_shifting_state : TcuState → Bool
is_shifting_state shifting = true
is_shifting_state _ = false

pub record TcuConfig (F : Type 0) : Type 0 where
  pub upshift_rpm : F
  pub downshift_rpm : F
  pub min_upshift_speed : F
  pub max_first_gear_speed : F
  pub lockup_speed : F
  pub shift_duration_ms : ℕ

pub record Tcu (F : Type 0) : Type 0 where
  pub cfg : TcuConfig F
  pub current_gear : Gear
  pub target_gear : Gear
  pub mode : ShiftMode
  pub state : TcuState
  pub shift_timer_ms : ℕ

-- The gears that `upshift` and `downshift` ask for, if any.
abbrev pub next_gear : Gear → Option Gear
next_gear first = some second
next_gear second = some third
next_gear third = some fourth
next_gear fourth = some fifth
next_gear fifth = some sixth
next_gear sixth = some sixth
next_gear _ = none

abbrev pub prev_gear : Gear → Option Gear
prev_gear second = some first
prev_gear third = some second
prev_gear fourth = some third
prev_gear fifth = some fourth
prev_gear sixth = some fifth
prev_gear first = some first
prev_gear _ = none

module _ {F : Type 0} where
  abbrev pub with_config : TcuConfig F → Tcu F
  with_config cfg = record {
    cfg = cfg;
    current_gear = neutral;
    target_gear = neutral;
    mode = manual;
    state = normal;
    shift_timer_ms = 0;
  }

  abbrev pub set_mode : Tcu F → ShiftMode → Tcu F
  set_mode t mode = record t { mode = mode }

  abbrev pub set_config : Tcu F → TcuConfig F → Tcu F
  set_config t cfg = record t { cfg = cfg }

  abbrev pub is_shifting : Tcu F → Bool
  is_shifting t = is_shifting_state t.state

  -- A disengaged transmission takes the gear at once.
  pub engage : Tcu F → Gear → Tcu F
  engage t gear =
      if is_neutral t.current_gear || is_park t.current_gear
      then record t { current_gear = gear }
      else record t { state = shifting; shift_timer_ms = t.cfg.shift_duration_ms }

  pub request_gear : Tcu F → Gear → Tcu F
  unfolding engage
  request_gear t gear =
      let t' = record t { target_gear = gear } in
      if is_normal t.state
      then (if not (gear_index gear == gear_index t.current_gear) then engage t' gear else t')
      else t

  abbrev pub request : Tcu F → Option Gear → Tcu F
  request t none = t
  request t (some gear) = request_gear t gear

  abbrev pub upshift : Tcu F → Tcu F
  upshift t = request t (next_gear t.current_gear)

  abbrev pub downshift : Tcu F → Tcu F
  downshift t = request t (prev_gear t.current_gear)

  -- A shift in progress.
  pub tick : Tcu F → ℕ → Tcu F
  tick t dt_ms =
      let left = t.shift_timer_ms - dt_ms in
      let t' = record t { shift_timer_ms = left } in
      if is_shifting_state t.state
      then (if left == 0 then record t' { current_gear = t.target_gear; state = normal } else t')
      else t

module _ {F : Type 0} (f : F32 F) where
  abbrev pub ratio : Gear → F
  ratio park = f.decimal 0 1
  ratio neutral = f.decimal 0 1
  ratio reverse = f.neg (f.decimal 35 1)
  ratio drive = f.decimal 10 1
  ratio first = f.decimal 35 1
  ratio second = f.decimal 20 1
  ratio third = f.decimal 13 1
  ratio fourth = f.decimal 10 1
  ratio fifth = f.decimal 8 1
  ratio sixth = f.decimal 7 1

  abbrev pub default_config : TcuConfig F
  default_config = record {
    upshift_rpm = f.decimal 60000 1;
    downshift_rpm = f.decimal 25000 1;
    min_upshift_speed = f.decimal 200 1;
    max_first_gear_speed = f.decimal 400 1;
    lockup_speed = f.decimal 600 1;
    shift_duration_ms = 200;
  }

  abbrev pub new : Tcu F
  new = with_config default_config

  abbrev pub rpm_or_zero : SensorData F → F
  rpm_or_zero sensors = elim sensors.rpm [ none ↦ f.decimal 0 1 | some rpm ↦ rpm ]

  -- The automatic choice of a gear.
  pub select : Tcu F → F → Tcu F
  select t rpm =
      if is_automatic t.mode
        && is_normal t.state
        && is_forward t.current_gear
        && f.lt (f.decimal 0 1) rpm
      then if f.lt t.cfg.upshift_rpm rpm
        then upshift t
        else if f.lt rpm t.cfg.downshift_rpm
        then downshift t
        else t
      else t

  pub update : Tcu F → SensorData F → ℕ → Tcu F × F
  unfolding select tick
  update t sensors dt_ms =
      let t' = select (tick t dt_ms) (rpm_or_zero sensors) in (t', ratio t'.current_gear)
