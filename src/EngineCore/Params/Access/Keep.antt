-- ===== src/EngineCore/Params/Access/Keep.antt =====
-- A write to a table that is refused leaves the configuration alone.
use rust_ems.Base.{
  ℕ, ◌≡◌, refl, ap, List, Option-cases, Bool, Bool-cases, true, false, ◌&&◌, inl, inr, Option, none,
  some, ltb, length, arith,
}
use rust_ems.F32.{F32}
use rust_ems.EngineCore.Config.{EngineConfig, rpm_bins, load_bins, dwell_bins, volt_bins, temp_bins}
use rust_ems.EngineCore.Params.Table.{
  TableId, ignition, lambda, ve, injector_deadtime, dwell_ms, dwell_voltage_corr, iat_fuel_corr,
  clt_fuel_corr, clt_timing_corr, iat_timing_corr, table_meta,
}
use rust_ems.EngineCore.Params.Access.{
  TableWriteError, TableAxis, x, y, bounded_set_2d, bounded_set_1d, copy_into, write_table,
  contains, table_write_cell, table_write_axis,
}

abbrev pub failed : Option TableWriteError → Bool
failed none = false
failed (some _) = true

module _ {F : Type 0} where
  bounded_set_2d_keeps :
      (c r : ℕ) (table : List (List F)) (row col : ℕ) (v : F)
      → (bounded_set_2d c r table row col v).1 ≡ false
      → (bounded_set_2d c r table row col v).0 ≡ table
  unfolding bounded_set_2d
  bounded_set_2d_keeps c r table row col v e = elim (Bool-cases (ltb row r && ltb col c)) [
    | inl inside ↦ let clash : true ≡ false = rw inside at e in absurd (ground (arith, clash))
    | inr out ↦ rw (out, bounded_set_2d)
  ]

  bounded_set_1d_keeps :
      (n : ℕ) (arr : List F) (idx : ℕ) (v : F)
      → (bounded_set_1d n arr idx v).1 ≡ false
      → (bounded_set_1d n arr idx v).0 ≡ arr
  unfolding bounded_set_1d
  bounded_set_1d_keeps n arr idx v e = elim (Bool-cases (ltb idx n)) [
    | inl inside ↦ let clash : true ≡ false = rw inside at e in absurd (ground (arith, clash))
    | inr out ↦ rw (out, bounded_set_1d)
  ]

  copy_into_keeps :
      (dst src : List F) → failed (copy_into dst src).1 ≡ true → (copy_into dst src).0 ≡ dst
  unfolding copy_into
  copy_into_keeps dst src e = elim (Bool-cases (ltb (length dst) (length src))) [
    | inl long ↦ rw (long, copy_into)
    | inr short ↦ let clash : false ≡ true = rw short at e in absurd (ground (arith, clash))
  ]

  write_table_keeps :
      (cfg : EngineConfig F) (id : TableId) (ix iy : ℕ) (v : F)
      → (write_table cfg id ix iy v).1 ≡ false
      → (write_table cfg id ix iy v).0 ≡ cfg
  unfolding write_table
  write_table_keeps cfg ignition ix iy v e =
      ap (λ t. record cfg { ignition_table = t })
        (bounded_set_2d_keeps rpm_bins load_bins cfg.ignition_table iy ix v e)
  write_table_keeps cfg lambda ix iy v e =
      ap (λ t. record cfg { lambda_table = t })
        (bounded_set_2d_keeps rpm_bins load_bins cfg.lambda_table iy ix v e)
  write_table_keeps cfg ve ix iy v e =
      ap (λ t. record cfg { ve_table = t })
        (bounded_set_2d_keeps rpm_bins load_bins cfg.ve_table iy ix v e)
  write_table_keeps cfg injector_deadtime ix iy v e =
      ap (λ t. record cfg { injector_deadtime_table = t })
        (bounded_set_2d_keeps volt_bins volt_bins cfg.injector_deadtime_table iy ix v e)
  write_table_keeps cfg dwell_ms ix iy v e =
      ap (λ t. record cfg { dwell_ms_table = t })
        (bounded_set_1d_keeps dwell_bins cfg.dwell_ms_table ix v e)
  write_table_keeps cfg dwell_voltage_corr ix iy v e =
      ap (λ t. record cfg { dwell_voltage_corr = t })
        (bounded_set_1d_keeps volt_bins cfg.dwell_voltage_corr ix v e)
  write_table_keeps cfg iat_fuel_corr ix iy v e =
      ap (λ t. record cfg { iat_fuel_corr = t })
        (bounded_set_1d_keeps temp_bins cfg.iat_fuel_corr ix v e)
  write_table_keeps cfg clt_fuel_corr ix iy v e =
      ap (λ t. record cfg { clt_fuel_corr = t })
        (bounded_set_1d_keeps temp_bins cfg.clt_fuel_corr ix v e)
  write_table_keeps cfg clt_timing_corr ix iy v e =
      ap (λ t. record cfg { clt_timing_corr = t })
        (bounded_set_1d_keeps temp_bins cfg.clt_timing_corr ix v e)
  write_table_keeps cfg iat_timing_corr ix iy v e =
      ap (λ t. record cfg { iat_timing_corr = t })
        (bounded_set_1d_keeps temp_bins cfg.iat_timing_corr ix v e)

  pub table_write_axis_keeps :
      (cfg : EngineConfig F) (id : TableId) (axis : TableAxis) (values : List F)
      → failed (table_write_axis cfg id axis values).1 ≡ true
      → (table_write_axis cfg id axis values).0 ≡ cfg
  unfolding table_write_axis
  table_write_axis_keeps cfg ignition x values e =
      ap (λ t. record cfg { ignition_rpm_bins = t })
        (copy_into_keeps cfg.ignition_rpm_bins values e)
  table_write_axis_keeps cfg ignition y values e =
      ap (λ t. record cfg { ignition_load_bins = t })
        (copy_into_keeps cfg.ignition_load_bins values e)
  table_write_axis_keeps cfg lambda x values e =
      ap (λ t. record cfg { lambda_rpm_bins = t }) (copy_into_keeps cfg.lambda_rpm_bins values e)
  table_write_axis_keeps cfg lambda y values e =
      ap (λ t. record cfg { lambda_load_bins = t }) (copy_into_keeps cfg.lambda_load_bins values e)
  table_write_axis_keeps cfg ve x values e =
      ap (λ t. record cfg { ve_rpm_bins = t }) (copy_into_keeps cfg.ve_rpm_bins values e)
  table_write_axis_keeps cfg ve y values e =
      ap (λ t. record cfg { ve_load_bins = t }) (copy_into_keeps cfg.ve_load_bins values e)
  table_write_axis_keeps cfg injector_deadtime x values e =
      ap (λ t. record cfg { injector_deadtime_voltage_bins = t })
        (copy_into_keeps cfg.injector_deadtime_voltage_bins values e)
  table_write_axis_keeps cfg injector_deadtime y values e =
      ap (λ t. record cfg { injector_deadtime_pressure_bins = t })
        (copy_into_keeps cfg.injector_deadtime_pressure_bins values e)
  table_write_axis_keeps cfg dwell_ms x values e =
      ap (λ t. record cfg { dwell_rpm_bins = t }) (copy_into_keeps cfg.dwell_rpm_bins values e)
  table_write_axis_keeps cfg dwell_voltage_corr x values e =
      ap (λ t. record cfg { dwell_voltage_bins = t })
        (copy_into_keeps cfg.dwell_voltage_bins values e)
  table_write_axis_keeps cfg iat_fuel_corr x values e =
      ap (λ t. record cfg { iat_fuel_temp_bins = t })
        (copy_into_keeps cfg.iat_fuel_temp_bins values e)
  table_write_axis_keeps cfg clt_fuel_corr x values e =
      ap (λ t. record cfg { clt_fuel_temp_bins = t })
        (copy_into_keeps cfg.clt_fuel_temp_bins values e)
  table_write_axis_keeps cfg clt_timing_corr x values e =
      ap (λ t. record cfg { clt_corr_temp_bins = t })
        (copy_into_keeps cfg.clt_corr_temp_bins values e)
  table_write_axis_keeps cfg iat_timing_corr x values e =
      ap (λ t. record cfg { iat_corr_temp_bins = t })
        (copy_into_keeps cfg.iat_corr_temp_bins values e)
  table_write_axis_keeps cfg dwell_ms y values e = refl
  table_write_axis_keeps cfg dwell_voltage_corr y values e = refl
  table_write_axis_keeps cfg iat_fuel_corr y values e = refl
  table_write_axis_keeps cfg clt_fuel_corr y values e = refl
  table_write_axis_keeps cfg clt_timing_corr y values e = refl
  table_write_axis_keeps cfg iat_timing_corr y values e = refl

module _ {F : Type 0} (f : F32 F) where
  pub table_write_cell_keeps :
      (cfg : EngineConfig F) (id : TableId) (ix iy : ℕ) (v : F)
      → failed (table_write_cell f cfg id ix iy v).1 ≡ true
      → (table_write_cell f cfg id ix iy v).0 ≡ cfg
  unfolding table_write_cell
  table_write_cell_keeps cfg id ix iy v e = elim (Option-cases (table_meta f id)) [
    | inl missing ↦ rw (missing, table_write_cell)
    | inr (m, found) ↦ elim (Bool-cases (contains f m.cell_min m.cell_max v)) [
      | inr off ↦ rw (found, off, table_write_cell)
      | inl fine ↦ elim (Bool-cases (write_table cfg id ix iy v).1) [
        | inr out ↦ rw (found, fine, table_write_cell) (write_table_keeps cfg id ix iy v out)
        | inl done ↦
            let clash : false ≡ true = rw (found, fine, done, table_write_cell) at e in
            absurd (ground (arith, clash))
      ]
    ]
  ]
