-- ===== src/EngineCore/Params/Access.antt =====
-- engine-core/src/params.rs: whole tables, and writes of cells and axes.
pub mod Rows
pub mod Laws
pub mod Keep
mod Tests
use rust_ems.Base.{
  ℕ, ◌+◌, ◌≤◌, List, [], ◌∷◌, ◌++◌, Bool, true, false, not, ◌&&◌, Option, none, some, ltb, leb,
  if◌then◌else◌, length, get_or, set, drop,
}
use rust_ems.F32.{F32}
use rust_ems.Heapless.{HeaplessVec}
use rust_ems.EngineCore.Config.{
  EngineConfig, rpm_bins, load_bins, dwell_bins, volt_bins, temp_bins, push_each,
}
use rust_ems.EngineCore.Params.Table.{
  TableId, ignition, lambda, ve, injector_deadtime, dwell_ms, dwell_voltage_corr, iat_fuel_corr,
  clt_fuel_corr, clt_timing_corr, iat_timing_corr, table_meta,
}

pub record TableData (F : Type 0) : Type 0 where
  pub x_axis : List F
  pub y_axis : List F
  pub cells : List F

pub data TableWriteError : Type 0 where
  bad_index out_of_range : TableWriteError

pub data TableAxis : Type 0 where
  x y : TableAxis

module _ {F : Type 0} (V : HeaplessVec F) where
  abbrev pub push_axis : List F → List F → List F
  push_axis dst src = push_each V 16 dst src

  pub push_cells_2d : List F → List (List F) → List F
  push_cells_2d dst [] = dst
  push_cells_2d dst (row ∷ table) = push_cells_2d (push_each V 256 dst row) table

  pub table_get : EngineConfig F → TableId → TableData F
  unfolding push_cells_2d
  table_get cfg ignition = record {
    x_axis = push_axis [] cfg.ignition_rpm_bins;
    y_axis = push_axis [] cfg.ignition_load_bins;
    cells = push_cells_2d [] cfg.ignition_table;
  }
  table_get cfg lambda = record {
    x_axis = push_axis [] cfg.lambda_rpm_bins;
    y_axis = push_axis [] cfg.lambda_load_bins;
    cells = push_cells_2d [] cfg.lambda_table;
  }
  table_get cfg ve = record {
    x_axis = push_axis [] cfg.ve_rpm_bins;
    y_axis = push_axis [] cfg.ve_load_bins;
    cells = push_cells_2d [] cfg.ve_table;
  }
  table_get cfg injector_deadtime = record {
    x_axis = push_axis [] cfg.injector_deadtime_voltage_bins;
    y_axis = push_axis [] cfg.injector_deadtime_pressure_bins;
    cells = push_cells_2d [] cfg.injector_deadtime_table;
  }
  table_get cfg dwell_ms = record {
    x_axis = push_axis [] cfg.dwell_rpm_bins;
    y_axis = [];
    cells = push_each V 256 [] cfg.dwell_ms_table;
  }
  table_get cfg dwell_voltage_corr = record {
    x_axis = push_axis [] cfg.dwell_voltage_bins;
    y_axis = [];
    cells = push_each V 256 [] cfg.dwell_voltage_corr;
  }
  table_get cfg iat_fuel_corr = record {
    x_axis = push_axis [] cfg.iat_fuel_temp_bins;
    y_axis = [];
    cells = push_each V 256 [] cfg.iat_fuel_corr;
  }
  table_get cfg clt_fuel_corr = record {
    x_axis = push_axis [] cfg.clt_fuel_temp_bins;
    y_axis = [];
    cells = push_each V 256 [] cfg.clt_fuel_corr;
  }
  table_get cfg clt_timing_corr = record {
    x_axis = push_axis [] cfg.clt_corr_temp_bins;
    y_axis = [];
    cells = push_each V 256 [] cfg.clt_timing_corr;
  }
  table_get cfg iat_timing_corr = record {
    x_axis = push_axis [] cfg.iat_corr_temp_bins;
    y_axis = [];
    cells = push_each V 256 [] cfg.iat_timing_corr;
  }

module _ {F : Type 0} where
  -- The const parameters `C` and `R` come first.
  pub bounded_set_2d : ℕ → ℕ → List (List F) → ℕ → ℕ → F → List (List F) × Bool
  bounded_set_2d c r table row col value =
      if ltb row r && ltb col c
      then (set table row (set (get_or table row []) col value), true)
      else (table, false)

  pub bounded_set_1d : ℕ → List F → ℕ → F → List F × Bool
  bounded_set_1d n arr idx value = if ltb idx n then (set arr idx value, true) else (arr, false)

  -- `copy_into`
  pub copy_into : List F → List F → List F × Option TableWriteError
  copy_into dst src =
      if ltb (length dst) (length src)
      then (dst, some bad_index)
      else (src ++ drop (length src) dst, none)

  -- The write behind the checks of `table_write_cell`.
  pub write_table : EngineConfig F → TableId → ℕ → ℕ → F → EngineConfig F × Bool
  unfolding bounded_set_2d bounded_set_1d
  write_table cfg ignition ix iy value =
      let (t, done) = bounded_set_2d rpm_bins load_bins cfg.ignition_table iy ix value in
      (record cfg { ignition_table = t }, done)
  write_table cfg lambda ix iy value =
      let (t, done) = bounded_set_2d rpm_bins load_bins cfg.lambda_table iy ix value in
      (record cfg { lambda_table = t }, done)
  write_table cfg ve ix iy value =
      let (t, done) = bounded_set_2d rpm_bins load_bins cfg.ve_table iy ix value in
      (record cfg { ve_table = t }, done)
  write_table cfg injector_deadtime ix iy value =
      let (t, done) = bounded_set_2d volt_bins volt_bins cfg.injector_deadtime_table iy ix value in
      (record cfg { injector_deadtime_table = t }, done)
  write_table cfg dwell_ms ix iy value =
      let (t, done) = bounded_set_1d dwell_bins cfg.dwell_ms_table ix value in
      (record cfg { dwell_ms_table = t }, done)
  write_table cfg dwell_voltage_corr ix iy value =
      let (t, done) = bounded_set_1d volt_bins cfg.dwell_voltage_corr ix value in
      (record cfg { dwell_voltage_corr = t }, done)
  write_table cfg iat_fuel_corr ix iy value =
      let (t, done) = bounded_set_1d temp_bins cfg.iat_fuel_corr ix value in
      (record cfg { iat_fuel_corr = t }, done)
  write_table cfg clt_fuel_corr ix iy value =
      let (t, done) = bounded_set_1d temp_bins cfg.clt_fuel_corr ix value in
      (record cfg { clt_fuel_corr = t }, done)
  write_table cfg clt_timing_corr ix iy value =
      let (t, done) = bounded_set_1d temp_bins cfg.clt_timing_corr ix value in
      (record cfg { clt_timing_corr = t }, done)
  write_table cfg iat_timing_corr ix iy value =
      let (t, done) = bounded_set_1d temp_bins cfg.iat_timing_corr ix value in
      (record cfg { iat_timing_corr = t }, done)

  pub table_write_axis :
      EngineConfig F → TableId → TableAxis → List F → EngineConfig F × Option TableWriteError
  unfolding copy_into
  table_write_axis cfg ignition x values =
      let (t, e) = copy_into cfg.ignition_rpm_bins values in
      (record cfg { ignition_rpm_bins = t }, e)
  table_write_axis cfg ignition y values =
      let (t, e) = copy_into cfg.ignition_load_bins values in
      (record cfg { ignition_load_bins = t }, e)
  table_write_axis cfg lambda x values =
      let (t, e) = copy_into cfg.lambda_rpm_bins values in (record cfg { lambda_rpm_bins = t }, e)
  table_write_axis cfg lambda y values =
      let (t, e) = copy_into cfg.lambda_load_bins values in (record cfg { lambda_load_bins = t }, e)
  table_write_axis cfg ve x values =
      let (t, e) = copy_into cfg.ve_rpm_bins values in (record cfg { ve_rpm_bins = t }, e)
  table_write_axis cfg ve y values =
      let (t, e) = copy_into cfg.ve_load_bins values in (record cfg { ve_load_bins = t }, e)
  table_write_axis cfg injector_deadtime x values =
      let (t, e) = copy_into cfg.injector_deadtime_voltage_bins values in
      (record cfg { injector_deadtime_voltage_bins = t }, e)
  table_write_axis cfg injector_deadtime y values =
      let (t, e) = copy_into cfg.injector_deadtime_pressure_bins values in
      (record cfg { injector_deadtime_pressure_bins = t }, e)
  table_write_axis cfg dwell_ms x values =
      let (t, e) = copy_into cfg.dwell_rpm_bins values in (record cfg { dwell_rpm_bins = t }, e)
  table_write_axis cfg dwell_voltage_corr x values =
      let (t, e) = copy_into cfg.dwell_voltage_bins values in
      (record cfg { dwell_voltage_bins = t }, e)
  table_write_axis cfg iat_fuel_corr x values =
      let (t, e) = copy_into cfg.iat_fuel_temp_bins values in
      (record cfg { iat_fuel_temp_bins = t }, e)
  table_write_axis cfg clt_fuel_corr x values =
      let (t, e) = copy_into cfg.clt_fuel_temp_bins values in
      (record cfg { clt_fuel_temp_bins = t }, e)
  table_write_axis cfg clt_timing_corr x values =
      let (t, e) = copy_into cfg.clt_corr_temp_bins values in
      (record cfg { clt_corr_temp_bins = t }, e)
  table_write_axis cfg iat_timing_corr x values =
      let (t, e) = copy_into cfg.iat_corr_temp_bins values in
      (record cfg { iat_corr_temp_bins = t }, e)
  table_write_axis cfg _ _ values = (cfg, some bad_index)

module _ {F : Type 0} (f : F32 F) where
  -- `(low..=high).contains(&value)`
  abbrev pub contains : F → F → F → Bool
  contains low high value = f.le low value && f.le value high

  pub table_write_cell :
      EngineConfig F → TableId → ℕ → ℕ → F → EngineConfig F × Option TableWriteError
  table_write_cell cfg id ix iy value = elim (table_meta f id) [
    | none ↦ (cfg, some bad_index)
    | some meta ↦
        if not (contains meta.cell_min meta.cell_max value)
        then (cfg, some out_of_range)
        else (let (cfg', done) = write_table cfg id ix iy value in
            (cfg', if done then none else some bad_index))
  ]
