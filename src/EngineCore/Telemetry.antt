-- ===== src/EngineCore/Telemetry.antt =====
-- engine-core/src/comms/telemetry.rs and output.rs: the channels and their catalog.
pub mod Streams
pub mod Frames
use Prim.Native.String.{String}
use rust_ems.Base.{ℕ, List, [], ◌∷◌, Bool, true, false, Option, none, some, ◌==◌, if◌then◌else◌}
use rust_ems.F32.{F32}

pub data WireType : Type 0 where
  u16 i16 bit : WireType

abbrev pub wire_len : WireType → ℕ
wire_len u16 = 2
wire_len i16 = 2
wire_len bit = 0

-- `wire as u8`
abbrev pub wire_to_u8 : WireType → ℕ
wire_to_u8 u16 = 0
wire_to_u8 i16 = 1
wire_to_u8 bit = 2

pub record ChannelMeta (F : Type 0) : Type 0 where
  pub id : ℕ
  pub key : String
  pub label : String
  pub unit : String
  pub scale : F
  pub wire : WireType
  pub group : ℕ

pub record OutputChannels (F : Type 0) : Type 0 where
  pub rpm : F
  pub clt_c : F
  pub iat_c : F
  pub map_kpa : F
  pub tps_pct : F
  pub battery_v : F
  pub lambda : F
  pub inj_pulse_ms : F
  pub advance_deg : F
  pub spark_cut : Bool
  pub sequential : Bool
  pub dfco_active : Bool
  pub knock_retard_deg : F
  pub ltft_correction : F
  pub cl_correction : F
  pub oil_pressure_kpa : F
  pub fuel_level_pct : F
  pub fuel_pump_on : Bool
  pub fan_on : Bool
  pub limp_active : Bool
  pub iac_duty_pct : F
  pub boost_duty_pct : F

module _ {F : Type 0} (f : F32 F) where
  pub zeroed : OutputChannels F
  zeroed = record {
    rpm = f.decimal 0 1;
    clt_c = f.decimal 0 1;
    iat_c = f.decimal 0 1;
    map_kpa = f.decimal 0 1;
    tps_pct = f.decimal 0 1;
    battery_v = f.decimal 0 1;
    lambda = f.decimal 0 1;
    inj_pulse_ms = f.decimal 0 1;
    advance_deg = f.decimal 0 1;
    spark_cut = false;
    sequential = false;
    dfco_active = false;
    knock_retard_deg = f.decimal 0 1;
    ltft_correction = f.decimal 10 1;
    cl_correction = f.decimal 10 1;
    oil_pressure_kpa = f.decimal 0 1;
    fuel_level_pct = f.decimal 0 1;
    fuel_pump_on = false;
    fan_on = false;
    limp_active = false;
    iac_duty_pct = f.decimal 0 1;
    boost_duty_pct = f.decimal 0 1;
  }

  abbrev pub channel : ℕ → String → String → String → F → WireType → ℕ → ChannelMeta F
  channel id key label unit scale wire group = record {
    id = id;
    key = key;
    label = label;
    unit = unit;
    scale = scale;
    wire = wire;
    group = group;
  }

  abbrev pub telemetry_catalog : List (ChannelMeta F)
  telemetry_catalog =
      (channel 1 "rpm" "Engine speed" "RPM" (f.decimal 10 1) u16 0)
      ∷ ((channel 2 "clt_c" "Coolant temp" "°C" (f.decimal 1 1) i16 1)
          ∷ ((channel 3 "iat_c" "Intake air temp" "°C" (f.decimal 1 1) i16 1)
              ∷ ((channel 4 "map_kpa" "Manifold pressure" "kPa" (f.decimal 1 1) u16 0)
                  ∷ ((channel 5 "tps_pct" "Throttle position" "%" (f.decimal 1 1) u16 0)
                      ∷ ((channel 6 "battery_v" "Battery voltage" "V" (f.decimal 1 2) u16 2)
                          ∷ ((channel 7 "lambda" "Lambda" "λ" (f.decimal 1 3) u16 0)
                              ∷ ((channel 8 "inj_pulse_ms" "Injector pulse" "ms" (f.decimal 1 2) u16
                                    0)
                                  ∷ ((channel 9 "advance_deg" "Ignition advance" "deg"
                                        (f.decimal 1 1) i16 0)
                                      ∷ ((channel 10 "oil_pressure" "Oil pressure" "kPa"
                                            (f.decimal 1 1) u16 2)
                                          ∷ ((channel 11 "fuel_level" "Fuel level" "%"
                                                (f.decimal 1 1) u16 2)
                                              ∷ ((channel 12 "knock_retard" "Knock retard" "deg"
                                                    (f.decimal 1 1) i16 0)
                                                  ∷ ((channel 13 "cl_correction" "Closed-loop trim"
                                                        "x" (f.decimal 1 3) u16 0)
                                                      ∷ ((channel 14 "ltft" "Long-term fuel trim"
                                                            "x" (f.decimal 1 3) u16 0)
                                                          ∷ ((channel 15 "iac_duty"
                                                            "Idle valve duty" "%" (f.decimal 1 1)
                                                            u16 3)
                                                            ∷ ((channel 16 "boost_duty"
                                                            "Wastegate duty" "%" (f.decimal 1 1) u16
                                                            3)
                                                            ∷ ((channel 32 "spark_cut" "Spark cut"
                                                            "" (f.decimal 10 1) bit 4)
                                                            ∷ ((channel 33 "sequential"
                                                            "Sequential mode" "" (f.decimal 10 1)
                                                            bit 4)
                                                            ∷ ((channel 34 "dfco" "DFCO active" ""
                                                            (f.decimal 10 1) bit 4)
                                                            ∷ ((channel 35 "fuel_pump"
                                                            "Fuel pump relay" "" (f.decimal 10 1)
                                                            bit 4)
                                                            ∷ ((channel 36 "fan" "Cooling fan relay"
                                                            "" (f.decimal 10 1) bit 4)
                                                            ∷ ((channel 37 "limp" "Limp mode" ""
                                                            (f.decimal 10 1) bit 4)
                                                            ∷ [])))))))))))))))))))))

  abbrev pub find_channel : List (ChannelMeta F) → ℕ → Option (ChannelMeta F)
  find_channel [] id = none
  find_channel (c ∷ later) id =
      let rest = find_channel later id in if c.id == id then some c else rest

  unfoldable pub channel_meta : ℕ → Option (ChannelMeta F)
  channel_meta id = find_channel telemetry_catalog id

  abbrev pub bool_f : Bool → F
  bool_f b = if b then f.decimal 10 1 else f.decimal 0 1

  pub channel_value : OutputChannels F → ℕ → Option F
  channel_value oc id =
      if id == 1
      then some oc.rpm
      else if id == 2
      then some oc.clt_c
      else if id == 3
      then some oc.iat_c
      else if id == 4
      then some oc.map_kpa
      else if id == 5
      then some oc.tps_pct
      else if id == 6
      then some oc.battery_v
      else if id == 7
      then some oc.lambda
      else if id == 8
      then some oc.inj_pulse_ms
      else if id == 9
      then some oc.advance_deg
      else if id == 10
      then some oc.oil_pressure_kpa
      else if id == 11
      then some oc.fuel_level_pct
      else if id == 12
      then some oc.knock_retard_deg
      else if id == 13
      then some oc.cl_correction
      else if id == 14
      then some oc.ltft_correction
      else if id == 15
      then some oc.iac_duty_pct
      else if id == 16
      then some oc.boost_duty_pct
      else if id == 32
      then some (bool_f oc.spark_cut)
      else if id == 33
      then some (bool_f oc.sequential)
      else if id == 34
      then some (bool_f oc.dfco_active)
      else if id == 35
      then some (bool_f oc.fuel_pump_on)
      else if id == 36
      then some (bool_f oc.fan_on)
      else if id == 37
      then some (bool_f oc.limp_active)
      else none
