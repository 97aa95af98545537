-- ===== src/EngineCore/Params.antt =====
-- engine-core/src/params.rs: the scalar parameters, their numbers, and their reading and writing. Fields
-- that are u32 convert with `as`.
pub mod Cells
pub mod Keep
pub mod Catalog
pub mod Table
pub mod Access
pub mod Hash
use Prim.Native.String.{String}
use rust_ems.Base.{ℕ, ◌+◌, Bool, true, false, Option, none, some, ◌==◌, if◌then◌else◌, max}
use rust_ems.F32.{F32}
use rust_ems.EngineCore.Config.{EngineConfig}

pub data ParamType : Type 0 where
  f32_type : ParamType

pub data ParamId : Type 0 where
  displacement_cc_per_cyl trigger_total_teeth trigger_missing_teeth : ParamId
  cranking_rpm cranking_timing_deg cranking_dwell_ms : ParamId
  stoich_ratio_primary injector_flow_cc_per_min ignition_table_base : ParamId
  lambda_table_base ve_table_base dwell_rpm_bin_base : ParamId
  dwell_ms_table_base dwell_voltage_bin_base dwell_voltage_corr : ParamId
  iat_fuel_temp_bin_base iat_fuel_corr_base clt_fuel_temp_bin_base : ParamId
  clt_fuel_corr_base clt_corr_temp_bin_base clt_timing_corr_base : ParamId
  iat_corr_temp_bin_base iat_timing_corr_base : ParamId

abbrev pub param_id_to_u16 : ParamId → ℕ
param_id_to_u16 displacement_cc_per_cyl = 0x0100
param_id_to_u16 trigger_total_teeth = 0x0110
param_id_to_u16 trigger_missing_teeth = 0x0111
param_id_to_u16 cranking_rpm = 0x0120
param_id_to_u16 cranking_timing_deg = 0x0121
param_id_to_u16 cranking_dwell_ms = 0x0122
param_id_to_u16 stoich_ratio_primary = 0x0130
param_id_to_u16 injector_flow_cc_per_min = 0x0131
param_id_to_u16 ignition_table_base = 0x0200
param_id_to_u16 lambda_table_base = 0x0300
param_id_to_u16 ve_table_base = 0x0400
param_id_to_u16 dwell_rpm_bin_base = 0x0500
param_id_to_u16 dwell_ms_table_base = 0x0508
param_id_to_u16 dwell_voltage_bin_base = 0x0510
param_id_to_u16 dwell_voltage_corr = 0x0518
param_id_to_u16 iat_fuel_temp_bin_base = 0x0600
param_id_to_u16 iat_fuel_corr_base = 0x0608
param_id_to_u16 clt_fuel_temp_bin_base = 0x0610
param_id_to_u16 clt_fuel_corr_base = 0x0618
param_id_to_u16 clt_corr_temp_bin_base = 0x0620
param_id_to_u16 clt_timing_corr_base = 0x0628
param_id_to_u16 iat_corr_temp_bin_base = 0x0630
param_id_to_u16 iat_timing_corr_base = 0x0638

pub param_id_from_u16 : ℕ → Option ParamId
param_id_from_u16 v =
    if v == 0x0100
    then some displacement_cc_per_cyl
    else if v == 0x0110
    then some trigger_total_teeth
    else if v == 0x0111
    then some trigger_missing_teeth
    else if v == 0x0120
    then some cranking_rpm
    else if v == 0x0121
    then some cranking_timing_deg
    else if v == 0x0122
    then some cranking_dwell_ms
    else if v == 0x0130
    then some stoich_ratio_primary
    else if v == 0x0131
    then some injector_flow_cc_per_min
    else if v == 0x0200
    then some ignition_table_base
    else if v == 0x0300
    then some lambda_table_base
    else if v == 0x0400
    then some ve_table_base
    else if v == 0x0500
    then some dwell_rpm_bin_base
    else if v == 0x0508
    then some dwell_ms_table_base
    else if v == 0x0510
    then some dwell_voltage_bin_base
    else if v == 0x0518
    then some dwell_voltage_corr
    else if v == 0x0600
    then some iat_fuel_temp_bin_base
    else if v == 0x0608
    then some iat_fuel_corr_base
    else if v == 0x0610
    then some clt_fuel_temp_bin_base
    else if v == 0x0618
    then some clt_fuel_corr_base
    else if v == 0x0620
    then some clt_corr_temp_bin_base
    else if v == 0x0628
    then some clt_timing_corr_base
    else if v == 0x0630
    then some iat_corr_temp_bin_base
    else if v == 0x0638
    then some iat_timing_corr_base
    else none

pub record ParamDescriptor (F : Type 0) : Type 0 where
  pub id : ℕ
  pub name : String
  pub unit : String
  pub min : F
  pub max : F
  pub param_type : ParamType

module _ {F : Type 0} (f : F32 F) where
  abbrev pub descriptor : ParamId → String → String → F → F → Option (ParamDescriptor F)
  descriptor id name unit min max = some (record {
    id = param_id_to_u16 id;
    name = name;
    unit = unit;
    min = min;
    max = max;
    param_type = f32_type;
  })

  pub param_descriptor : ParamId → Option (ParamDescriptor F)
  param_descriptor displacement_cc_per_cyl =
      descriptor displacement_cc_per_cyl "disp_cc_per_cyl" "cc" (f.decimal 10 1) (f.decimal 50000 1)
  param_descriptor trigger_total_teeth =
      descriptor trigger_total_teeth "trigger_teeth_total" "count" (f.decimal 40 1)
        (f.decimal 2560 1)
  param_descriptor trigger_missing_teeth =
      descriptor trigger_missing_teeth "trigger_teeth_missing" "count" (f.decimal 10 1)
        (f.decimal 40 1)
  param_descriptor cranking_rpm =
      descriptor cranking_rpm "cranking_rpm" "RPM" (f.decimal 500 1) (f.decimal 10000 1)
  param_descriptor cranking_timing_deg =
      descriptor cranking_timing_deg "cranking_timing_deg" "°BTDC" (f.neg (f.decimal 100 1))
        (f.decimal 300 1)
  param_descriptor cranking_dwell_ms =
      descriptor cranking_dwell_ms "cranking_dwell_ms" "ms" (f.decimal 10 1) (f.decimal 150 1)
  param_descriptor stoich_ratio_primary =
      descriptor stoich_ratio_primary "stoich_ratio" "AFR" (f.decimal 100 1) (f.decimal 200 1)
  param_descriptor injector_flow_cc_per_min =
      descriptor injector_flow_cc_per_min "inj_flow_cc_min" "cc/min" (f.decimal 500 1)
        (f.decimal 20000 1)
  param_descriptor _ = none

  pub get_param : EngineConfig F → ParamId → Option F
  get_param cfg displacement_cc_per_cyl = some cfg.displacement_cc_per_cyl
  get_param cfg trigger_total_teeth = some (f.of_int cfg.trigger_total_teeth)
  get_param cfg trigger_missing_teeth = some (f.of_int cfg.trigger_missing_teeth)
  get_param cfg cranking_rpm = some cfg.cranking_rpm
  get_param cfg cranking_timing_deg = some cfg.cranking_timing_deg
  get_param cfg cranking_dwell_ms = some cfg.cranking_dwell_ms
  get_param cfg stoich_ratio_primary = some cfg.stoich_ratio_primary
  get_param cfg injector_flow_cc_per_min = some cfg.injector_flow_cc_per_min
  get_param cfg _ = none

  pub set_param : EngineConfig F → ParamId → F → EngineConfig F × Bool
  set_param cfg displacement_cc_per_cyl value =
      (record cfg { displacement_cc_per_cyl = f.max value (f.decimal 10 1) }, true)
  set_param cfg trigger_total_teeth value =
      (record cfg { trigger_total_teeth = max (f.to_u32 value) 1 }, true)
  set_param cfg trigger_missing_teeth value =
      (record cfg { trigger_missing_teeth = max (f.to_u32 value) 1 }, true)
  set_param cfg cranking_rpm value =
      (record cfg { cranking_rpm = f.clamp (f.decimal 500 1) (f.decimal 10000 1) value }, true)
  set_param cfg cranking_timing_deg value = (
    record cfg { cranking_timing_deg = f.clamp (f.neg (f.decimal 100 1)) (f.decimal 300 1) value },
    true,
  )
  set_param cfg cranking_dwell_ms value =
      (record cfg { cranking_dwell_ms = f.clamp (f.decimal 10 1) (f.decimal 150 1) value }, true)
  set_param cfg stoich_ratio_primary value = (
    record cfg { stoich_ratio_primary = f.clamp (f.decimal 100 1) (f.decimal 200 1) value },
    true,
  )
  set_param cfg injector_flow_cc_per_min value = (
    record cfg { injector_flow_cc_per_min = f.clamp (f.decimal 500 1) (f.decimal 20000 1) value },
    true,
  )
  set_param cfg _ value = (cfg, false)
