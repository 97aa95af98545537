-- ===== src/EngineCore/Params/Cells.antt =====
-- engine-core/src/params.rs: single cells of the tables and elements of the arrays.
use rust_ems.Base.{
  ℕ, List, [], Bool, true, false, ◌&&◌, Option, none, ltb, if◌then◌else◌, get_elem?, get_or, set,
}
use rust_ems.F32.{F32}
use rust_ems.EngineCore.Config.{EngineConfig, rpm_bins, load_bins, dwell_bins, volt_bins, temp_bins}
use rust_ems.EngineCore.Params.{
  ParamId, ignition_table_base, lambda_table_base, ve_table_base, dwell_rpm_bin_base,
  dwell_ms_table_base, dwell_voltage_bin_base, dwell_voltage_corr, iat_fuel_temp_bin_base,
  iat_fuel_corr_base, clt_fuel_temp_bin_base, clt_fuel_corr_base, clt_corr_temp_bin_base,
  clt_timing_corr_base, iat_corr_temp_bin_base, iat_timing_corr_base,
}

module _ {F : Type 0} where
  -- `table[row][col]`, behind the check of both; a row that is not there is never read.
  abbrev pub cell : List (List F) → ℕ → ℕ → Option F
  cell table row col =
      if ltb row load_bins && ltb col rpm_bins then get_elem? (get_or table row []) col else none

  pub get_table_cell : EngineConfig F → ParamId → ℕ → ℕ → Option F
  get_table_cell cfg ignition_table_base row col = cell cfg.ignition_table row col
  get_table_cell cfg lambda_table_base row col = cell cfg.lambda_table row col
  get_table_cell cfg ve_table_base row col = cell cfg.ve_table row col
  get_table_cell cfg _ row col = none

  -- `table[row][col] = value`, behind the same check.
  abbrev pub set_cell : List (List F) → ℕ → ℕ → F → List (List F)
  set_cell table row col value = set table row (set (get_or table row []) col value)

  pub get_array_element : EngineConfig F → ParamId → ℕ → Option F
  get_array_element cfg dwell_rpm_bin_base idx = get_elem? cfg.dwell_rpm_bins idx
  get_array_element cfg dwell_ms_table_base idx = get_elem? cfg.dwell_ms_table idx
  get_array_element cfg dwell_voltage_bin_base idx = get_elem? cfg.dwell_voltage_bins idx
  get_array_element cfg dwell_voltage_corr idx = get_elem? cfg.dwell_voltage_corr idx
  get_array_element cfg iat_fuel_temp_bin_base idx = get_elem? cfg.iat_fuel_temp_bins idx
  get_array_element cfg iat_fuel_corr_base idx = get_elem? cfg.iat_fuel_corr idx
  get_array_element cfg clt_fuel_temp_bin_base idx = get_elem? cfg.clt_fuel_temp_bins idx
  get_array_element cfg clt_fuel_corr_base idx = get_elem? cfg.clt_fuel_corr idx
  get_array_element cfg clt_corr_temp_bin_base idx = get_elem? cfg.clt_corr_temp_bins idx
  get_array_element cfg clt_timing_corr_base idx = get_elem? cfg.clt_timing_corr idx
  get_array_element cfg iat_corr_temp_bin_base idx = get_elem? cfg.iat_corr_temp_bins idx
  get_array_element cfg iat_timing_corr_base idx = get_elem? cfg.iat_timing_corr idx
  get_array_element cfg _ idx = none

module _ {F : Type 0} (f : F32 F) where
  pub set_table_cell : EngineConfig F → ParamId → ℕ → ℕ → F → EngineConfig F × Bool
  set_table_cell cfg ignition_table_base row col value =
      if ltb row load_bins && ltb col rpm_bins
      then (record cfg { ignition_table = set_cell cfg.ignition_table row col value }, true)
      else (cfg, false)
  set_table_cell cfg lambda_table_base row col value =
      if ltb row load_bins && ltb col rpm_bins
      then (
        record cfg {
          lambda_table =
              set_cell cfg.lambda_table row col (f.clamp (f.decimal 5 1) (f.decimal 20 1) value);
        },
        true,
      )
      else (cfg, false)
  set_table_cell cfg ve_table_base row col value =
      if ltb row load_bins && ltb col rpm_bins
      then (
        record cfg {
          ve_table = set_cell cfg.ve_table row col (f.clamp (f.decimal 1 1) (f.decimal 15 1) value);
        },
        true,
      )
      else (cfg, false)
  set_table_cell cfg _ row col value = (cfg, false)

  pub set_array_element : EngineConfig F → ParamId → ℕ → F → EngineConfig F × Bool
  set_array_element cfg dwell_rpm_bin_base idx value =
      if ltb idx dwell_bins
      then (record cfg { dwell_rpm_bins = set cfg.dwell_rpm_bins idx value }, true)
      else (cfg, false)
  set_array_element cfg dwell_ms_table_base idx value =
      if ltb idx dwell_bins
      then (
        record cfg {
          dwell_ms_table =
              set cfg.dwell_ms_table idx (f.clamp (f.decimal 5 1) (f.decimal 150 1) value);
        },
        true,
      )
      else (cfg, false)
  set_array_element cfg dwell_voltage_bin_base idx value =
      if ltb idx volt_bins
      then (record cfg { dwell_voltage_bins = set cfg.dwell_voltage_bins idx value }, true)
      else (cfg, false)
  set_array_element cfg dwell_voltage_corr idx value =
      if ltb idx volt_bins
      then (
        record cfg {
          dwell_voltage_corr =
              set cfg.dwell_voltage_corr idx (f.clamp (f.decimal 1 1) (f.decimal 50 1) value);
        },
        true,
      )
      else (cfg, false)
  set_array_element cfg iat_fuel_temp_bin_base idx value =
      if ltb idx temp_bins
      then (record cfg { iat_fuel_temp_bins = set cfg.iat_fuel_temp_bins idx value }, true)
      else (cfg, false)
  set_array_element cfg iat_fuel_corr_base idx value =
      if ltb idx temp_bins
      then (
        record cfg {
          iat_fuel_corr =
              set cfg.iat_fuel_corr idx (f.clamp (f.decimal 5 1) (f.decimal 20 1) value);
        },
        true,
      )
      else (cfg, false)
  set_array_element cfg clt_fuel_temp_bin_base idx value =
      if ltb idx temp_bins
      then (record cfg { clt_fuel_temp_bins = set cfg.clt_fuel_temp_bins idx value }, true)
      else (cfg, false)
  set_array_element cfg clt_fuel_corr_base idx value =
      if ltb idx temp_bins
      then (
        record cfg {
          clt_fuel_corr =
              set cfg.clt_fuel_corr idx (f.clamp (f.decimal 5 1) (f.decimal 20 1) value);
        },
        true,
      )
      else (cfg, false)
  set_array_element cfg clt_corr_temp_bin_base idx value =
      if ltb idx temp_bins
      then (record cfg { clt_corr_temp_bins = set cfg.clt_corr_temp_bins idx value }, true)
      else (cfg, false)
  set_array_element cfg clt_timing_corr_base idx value =
      if ltb idx temp_bins
      then (
        record cfg {
          clt_timing_corr =
              set cfg.clt_timing_corr idx
                (f.clamp (f.neg (f.decimal 200 1)) (f.decimal 200 1) value);
        },
        true,
      )
      else (cfg, false)
  set_array_element cfg iat_corr_temp_bin_base idx value =
      if ltb idx temp_bins
      then (record cfg { iat_corr_temp_bins = set cfg.iat_corr_temp_bins idx value }, true)
      else (cfg, false)
  set_array_element cfg iat_timing_corr_base idx value =
      if ltb idx temp_bins
      then (
        record cfg {
          iat_timing_corr =
              set cfg.iat_timing_corr idx
                (f.clamp (f.neg (f.decimal 200 1)) (f.decimal 200 1) value);
        },
        true,
      )
      else (cfg, false)
  set_array_element cfg _ idx value = (cfg, false)
