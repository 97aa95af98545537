-- ===== src/EngineCore/Params/Access/Laws.antt =====
-- What a write of a cell does to the table that the device sends.
use rust_ems.Base.{
  ℕ, ◌+◌, ◌*◌, ◌≤◌, ◌≡◌, refl, sym, ap, ◌∙◌, List, [], Bool, Bool-cases, ◌&&◌, inl, inr, none, some,
  ltb, ltb→lt, ◌==◌, if◌then◌else◌, length, length-set, get_or, set, All, arith,
}
use rust_ems.F32.{F32}
use rust_ems.Heapless.{HeaplessVec}
use rust_ems.EngineCore.Config.{
  EngineConfig, rpm_bins, load_bins, dwell_bins, volt_bins, temp_bins, push_each, push_each_fits,
}
use rust_ems.EngineCore.Params.Table.{
  TableId, TableMeta, ignition, lambda, ve, injector_deadtime, dwell_ms, dwell_voltage_corr,
  iat_fuel_corr, clt_fuel_corr, clt_timing_corr, iat_timing_corr, table_meta, ignition_meta,
  lambda_meta, ve_meta, injector_deadtime_meta, dwell_ms_meta, dwell_voltage_corr_meta,
  iat_fuel_corr_meta, clt_fuel_corr_meta, clt_timing_corr_meta, iat_timing_corr_meta,
}
use rust_ems.EngineCore.Params.Access.Rows.{
  and_parts, flatten, length-flatten, flatten-set, push_cells_2d_fits,
}
use rust_ems.EngineCore.Params.Access.{
  bad_index, out_of_range, push_cells_2d, table_get, bounded_set_2d, bounded_set_1d, write_table,
  contains, table_write_cell,
}

-- A table's array in the configuration has the size that its type says.
abbrev pub IsTable : {F : Type 0} → ℕ → ℕ → List (List F) → Type 0
IsTable c r table = (length table ≡ r) × All (λ row. length row ≡ c) table

abbrev pub IsShaped : {F : Type 0} → EngineConfig F → TableId → Type 0
IsShaped cfg ignition = IsTable rpm_bins load_bins cfg.ignition_table
IsShaped cfg lambda = IsTable rpm_bins load_bins cfg.lambda_table
IsShaped cfg ve = IsTable rpm_bins load_bins cfg.ve_table
IsShaped cfg injector_deadtime = IsTable volt_bins volt_bins cfg.injector_deadtime_table
IsShaped cfg dwell_ms = length cfg.dwell_ms_table ≡ dwell_bins
IsShaped cfg dwell_voltage_corr = length cfg.dwell_voltage_corr ≡ volt_bins
IsShaped cfg iat_fuel_corr = length cfg.iat_fuel_corr ≡ temp_bins
IsShaped cfg clt_fuel_corr = length cfg.clt_fuel_corr ≡ temp_bins
IsShaped cfg clt_timing_corr = length cfg.clt_timing_corr ≡ temp_bins
IsShaped cfg iat_timing_corr = length cfg.iat_timing_corr ≡ temp_bins

module _ {F : Type 0} where
  -- What the catalog says of a position: it lies in the table, and where the wire has its cell.
  pub is_inside : TableMeta F → ℕ → ℕ → Bool
  is_inside m ix iy = if m.dims == 2 then ltb iy m.y_size && ltb ix m.x_size else ltb ix m.x_size

  pub place : TableMeta F → ℕ → ℕ → ℕ
  place m ix iy = if m.dims == 2 then iy * m.x_size + ix else ix

  cells_2d :
      (V : HeaplessVec F) (c r : ℕ) (table : List (List F)) (row col : ℕ) (v : F)
      → IsTable c r table
      → r * c ≤ 256
      → push_cells_2d V [] (bounded_set_2d c r table row col v).0 ≡ (
          if (bounded_set_2d c r table row col v).1
          then set (push_cells_2d V [] table) (row * c + col) v
          else push_cells_2d V [] table)
  unfolding bounded_set_2d
  cells_2d V c r table row col v shape small = elim (Bool-cases (ltb row r && ltb col c)) [
    | inr out ↦ rw (out, bounded_set_2d)
    | inl inside ↦
        let (h, g) = and_parts (ltb row r) (ltb col c) inside in
        let table' = set table row (set (get_or table row []) col v) in
        let same =
          flatten-set c table row col v shape.1 (omega (arith, ltb→lt row r h, shape.0))
            (ltb→lt col c g) in
        let size = length-flatten c table shape.1 in
        let room : length table * c ≤ 256 = omega (arith, small, ap (λ k. k * c) shape.0) in
        let size' : length (flatten table') ≡ length (flatten table) =
          ap length same ∙ length-set (flatten table) (row * c + col) v in
        rw (inside, bounded_set_2d)
          (push_cells_2d_fits V [] table' (omega (arith, size, size', room))
            ∙ same
            ∙ ap (λ cs. set cs (row * c + col) v)
                (sym (push_cells_2d_fits V [] table (omega (arith, size, room)))))
  ]

  cells_1d :
      (V : HeaplessVec F) (n : ℕ) (arr : List F) (idx : ℕ) (v : F)
      → length arr ≡ n
      → n ≤ 256
      → push_each V 256 [] (bounded_set_1d n arr idx v).0 ≡ (
          if (bounded_set_1d n arr idx v).1
          then set (push_each V 256 [] arr) idx v
          else push_each V 256 [] arr)
  unfolding bounded_set_1d
  cells_1d V n arr idx v shape small = elim (Bool-cases (ltb idx n)) [
    | inr out ↦ rw (out, bounded_set_1d)
    | inl inside ↦
        rw (inside, bounded_set_1d)
          (push_each_fits V 256 [] (set arr idx v)
              (omega (arith, shape, small, length-set arr idx v))
            ∙ ap (λ cs. set cs idx v)
                (sym (push_each_fits V 256 [] arr (omega (arith, shape, small)))))
  ]

  bounded_set_2d_done :
      (c r : ℕ) (table : List (List F)) (row col : ℕ) (v : F)
      → (bounded_set_2d c r table row col v).1 ≡ ltb row r && ltb col c
  unfolding bounded_set_2d
  bounded_set_2d_done c r table row col v = elim (Bool-cases (ltb row r && ltb col c)) [
    | inl inside ↦ rw (inside, bounded_set_2d)
    | inr out ↦ rw (out, bounded_set_2d)
  ]

  bounded_set_1d_done :
      (n : ℕ) (arr : List F) (idx : ℕ) (v : F) → (bounded_set_1d n arr idx v).1 ≡ ltb idx n
  unfolding bounded_set_1d
  bounded_set_1d_done n arr idx v = elim (Bool-cases (ltb idx n)) [
    | inl inside ↦ rw (inside, bounded_set_1d)
    | inr out ↦ rw (out, bounded_set_1d)
  ]

module _ {F : Type 0} (f : F32 F) where
  -- The catalog's entry of a table.
  abbrev pub meta_of : TableId → TableMeta F
  meta_of ignition = ignition_meta f
  meta_of lambda = lambda_meta f
  meta_of ve = ve_meta f
  meta_of injector_deadtime = injector_deadtime_meta f
  meta_of dwell_ms = dwell_ms_meta f
  meta_of dwell_voltage_corr = dwell_voltage_corr_meta f
  meta_of iat_fuel_corr = iat_fuel_corr_meta f
  meta_of clt_fuel_corr = clt_fuel_corr_meta f
  meta_of clt_timing_corr = clt_timing_corr_meta f
  meta_of iat_timing_corr = iat_timing_corr_meta f

  table_meta-meta_of : (id : TableId) → table_meta f id ≡ some (meta_of id)
  unfolding table_meta
  table_meta-meta_of ignition = refl
  table_meta-meta_of lambda = refl
  table_meta-meta_of ve = refl
  table_meta-meta_of injector_deadtime = refl
  table_meta-meta_of dwell_ms = refl
  table_meta-meta_of dwell_voltage_corr = refl
  table_meta-meta_of iat_fuel_corr = refl
  table_meta-meta_of clt_fuel_corr = refl
  table_meta-meta_of clt_timing_corr = refl
  table_meta-meta_of iat_timing_corr = refl

  write_table_done :
      (cfg : EngineConfig F) (id : TableId) (ix iy : ℕ) (v : F)
      → (write_table cfg id ix iy v).1 ≡ is_inside (meta_of id) ix iy
  unfolding write_table is_inside
  write_table_done cfg ignition ix iy v =
      bounded_set_2d_done rpm_bins load_bins cfg.ignition_table iy ix v
  write_table_done cfg lambda ix iy v =
      bounded_set_2d_done rpm_bins load_bins cfg.lambda_table iy ix v
  write_table_done cfg ve ix iy v = bounded_set_2d_done rpm_bins load_bins cfg.ve_table iy ix v
  write_table_done cfg injector_deadtime ix iy v =
      bounded_set_2d_done volt_bins volt_bins cfg.injector_deadtime_table iy ix v
  write_table_done cfg dwell_ms ix iy v = bounded_set_1d_done dwell_bins cfg.dwell_ms_table ix v
  write_table_done cfg dwell_voltage_corr ix iy v =
      bounded_set_1d_done volt_bins cfg.dwell_voltage_corr ix v
  write_table_done cfg iat_fuel_corr ix iy v = bounded_set_1d_done temp_bins cfg.iat_fuel_corr ix v
  write_table_done cfg clt_fuel_corr ix iy v = bounded_set_1d_done temp_bins cfg.clt_fuel_corr ix v
  write_table_done cfg clt_timing_corr ix iy v =
      bounded_set_1d_done temp_bins cfg.clt_timing_corr ix v
  write_table_done cfg iat_timing_corr ix iy v =
      bounded_set_1d_done temp_bins cfg.iat_timing_corr ix v

  write_table_cells :
      (V : HeaplessVec F) (cfg : EngineConfig F) (id : TableId) (ix iy : ℕ) (v : F)
      → IsShaped cfg id
      → table_get V (write_table cfg id ix iy v).0 id ≡ record (table_get V cfg id) {
        cells =
            if (write_table cfg id ix iy v).1
            then set (table_get V cfg id).cells (place (meta_of id) ix iy) v
            else (table_get V cfg id).cells;
      }
  unfolding write_table table_get place
  write_table_cells V cfg ignition ix iy v shape =
      ap (λ cs. record (table_get V cfg ignition) { cells = cs })
        (cells_2d V rpm_bins load_bins cfg.ignition_table iy ix v shape (omega arith))
  write_table_cells V cfg lambda ix iy v shape =
      ap (λ cs. record (table_get V cfg lambda) { cells = cs })
        (cells_2d V rpm_bins load_bins cfg.lambda_table iy ix v shape (omega arith))
  write_table_cells V cfg ve ix iy v shape =
      ap (λ cs. record (table_get V cfg ve) { cells = cs })
        (cells_2d V rpm_bins load_bins cfg.ve_table iy ix v shape (omega arith))
  write_table_cells V cfg injector_deadtime ix iy v shape =
      ap (λ cs. record (table_get V cfg injector_deadtime) { cells = cs })
        (cells_2d V volt_bins volt_bins cfg.injector_deadtime_table iy ix v shape (omega arith))
  write_table_cells V cfg dwell_ms ix iy v shape =
      ap (λ cs. record (table_get V cfg dwell_ms) { cells = cs })
        (cells_1d V dwell_bins cfg.dwell_ms_table ix v shape (omega arith))
  write_table_cells V cfg dwell_voltage_corr ix iy v shape =
      ap (λ cs. record (table_get V cfg dwell_voltage_corr) { cells = cs })
        (cells_1d V volt_bins cfg.dwell_voltage_corr ix v shape (omega arith))
  write_table_cells V cfg iat_fuel_corr ix iy v shape =
      ap (λ cs. record (table_get V cfg iat_fuel_corr) { cells = cs })
        (cells_1d V temp_bins cfg.iat_fuel_corr ix v shape (omega arith))
  write_table_cells V cfg clt_fuel_corr ix iy v shape =
      ap (λ cs. record (table_get V cfg clt_fuel_corr) { cells = cs })
        (cells_1d V temp_bins cfg.clt_fuel_corr ix v shape (omega arith))
  write_table_cells V cfg clt_timing_corr ix iy v shape =
      ap (λ cs. record (table_get V cfg clt_timing_corr) { cells = cs })
        (cells_1d V temp_bins cfg.clt_timing_corr ix v shape (omega arith))
  write_table_cells V cfg iat_timing_corr ix iy v shape =
      ap (λ cs. record (table_get V cfg iat_timing_corr) { cells = cs })
        (cells_1d V temp_bins cfg.iat_timing_corr ix v shape (omega arith))

  -- In a configuration whose arrays have their sizes: `table_write_cell` succeeds exactly when the value
  -- lies in the range and the position in the dimensions of the catalog; then the cells that `table_get`
  -- sends have changed at the position alone, row by row, and the axes have not. Otherwise it answers
  -- which of the two was wrong, the value first, and the table is as it was.
  pub table_get-table_write_cell :
      (V : HeaplessVec F) (cfg : EngineConfig F) (id : TableId) (ix iy : ℕ) (v : F)
      → IsShaped cfg id
      → ((table_write_cell f cfg id ix iy v).1 ≡ (
          if contains f (meta_of id).cell_min (meta_of id).cell_max v
          then if is_inside (meta_of id) ix iy then none else some bad_index
          else some out_of_range))
        × (table_get V (table_write_cell f cfg id ix iy v).0 id ≡ record (table_get V cfg id) {
          cells =
              if contains f (meta_of id).cell_min (meta_of id).cell_max v
                && is_inside (meta_of id) ix iy
              then set (table_get V cfg id).cells (place (meta_of id) ix iy) v
              else (table_get V cfg id).cells;
        })
  unfolding table_write_cell
  table_get-table_write_cell V cfg id ix iy v shape =
      let m = meta_of id in
      elim (Bool-cases (contains f m.cell_min m.cell_max v)) [
        | inr off ↦ rw (table_meta-meta_of id, off, table_write_cell) (refl, refl)
        | inl fine ↦
            rw (table_meta-meta_of id, fine, table_write_cell, ← write_table_done cfg id ix iy v)
              (refl, write_table_cells V cfg id ix iy v shape)
      ]
