-- ===== src/EngineCore/Params/Table.antt =====
-- engine-core/src/params.rs: the tables and curves, their numbers and their catalog.
use Prim.Native.String.{String}
use rust_ems.Base.{ℕ, List, [], ◌∷◌, Option, none, some, ◌==◌, if◌then◌else◌}
use rust_ems.F32.{F32}
use rust_ems.EngineCore.Config.{rpm_bins, load_bins, dwell_bins, volt_bins, temp_bins}

pub data TableId : Type 0 where
  ignition lambda ve injector_deadtime dwell_ms : TableId
  dwell_voltage_corr iat_fuel_corr clt_fuel_corr clt_timing_corr iat_timing_corr : TableId

abbrev pub table_id_to_u16 : TableId → ℕ
table_id_to_u16 ignition = 1
table_id_to_u16 lambda = 2
table_id_to_u16 ve = 3
table_id_to_u16 injector_deadtime = 4
table_id_to_u16 dwell_ms = 10
table_id_to_u16 dwell_voltage_corr = 11
table_id_to_u16 iat_fuel_corr = 12
table_id_to_u16 clt_fuel_corr = 13
table_id_to_u16 clt_timing_corr = 14
table_id_to_u16 iat_timing_corr = 15

pub table_id_from_u16 : ℕ → Option TableId
table_id_from_u16 v =
    if v == 1
    then some ignition
    else if v == 2
    then some lambda
    else if v == 3
    then some ve
    else if v == 4
    then some injector_deadtime
    else if v == 10
    then some dwell_ms
    else if v == 11
    then some dwell_voltage_corr
    else if v == 12
    then some iat_fuel_corr
    else if v == 13
    then some clt_fuel_corr
    else if v == 14
    then some clt_timing_corr
    else if v == 15
    then some iat_timing_corr
    else none

pub record TableMeta (F : Type 0) : Type 0 where
  pub id : TableId
  pub key : String
  pub label : String
  pub category : ℕ
  pub dims : ℕ
  pub x_size : ℕ
  pub y_size : ℕ
  pub x_axis_key : String
  pub y_axis_key : String
  pub x_unit : String
  pub y_unit : String
  pub cell_unit : String
  pub cell_min : F
  pub cell_max : F
  pub cell_digits : ℕ

module _ {F : Type 0} (f : F32 F) where
  abbrev pub ignition_meta : TableMeta F
  ignition_meta = record {
    id = ignition;
    key = "ignition.advance_table";
    label = "Ignition advance";
    category = 2;
    dims = 2;
    x_size = rpm_bins;
    y_size = load_bins;
    x_axis_key = "rpm";
    y_axis_key = "load";
    x_unit = "RPM";
    y_unit = "%";
    cell_unit = "°BTDC";
    cell_min = f.neg (f.decimal 100 1);
    cell_max = f.decimal 600 1;
    cell_digits = 1;
  }

  abbrev pub lambda_meta : TableMeta F
  lambda_meta = record {
    id = lambda;
    key = "fuel.lambda_table";
    label = "Target lambda";
    category = 3;
    dims = 2;
    x_size = rpm_bins;
    y_size = load_bins;
    x_axis_key = "rpm";
    y_axis_key = "load";
    x_unit = "RPM";
    y_unit = "%";
    cell_unit = "λ";
    cell_min = f.decimal 5 1;
    cell_max = f.decimal 20 1;
    cell_digits = 3;
  }

  abbrev pub ve_meta : TableMeta F
  ve_meta = record {
    id = ve;
    key = "fuel.ve_table";
    label = "Volumetric efficiency";
    category = 3;
    dims = 2;
    x_size = rpm_bins;
    y_size = load_bins;
    x_axis_key = "rpm";
    y_axis_key = "map";
    x_unit = "RPM";
    y_unit = "kPa";
    cell_unit = "ratio";
    cell_min = f.decimal 1 1;
    cell_max = f.decimal 15 1;
    cell_digits = 2;
  }

  abbrev pub injector_deadtime_meta : TableMeta F
  injector_deadtime_meta = record {
    id = injector_deadtime;
    key = "fuel.deadtime_table";
    label = "Injector deadtime";
    category = 3;
    dims = 2;
    x_size = volt_bins;
    y_size = volt_bins;
    x_axis_key = "vbatt";
    y_axis_key = "fuel_press";
    x_unit = "V";
    y_unit = "kPa";
    cell_unit = "ms";
    cell_min = f.decimal 0 1;
    cell_max = f.decimal 50 1;
    cell_digits = 2;
  }

  abbrev pub dwell_ms_meta : TableMeta F
  dwell_ms_meta = record {
    id = dwell_ms;
    key = "ignition.dwell_curve";
    label = "Dwell duration";
    category = 2;
    dims = 1;
    x_size = dwell_bins;
    y_size = 0;
    x_axis_key = "rpm";
    y_axis_key = "";
    x_unit = "RPM";
    y_unit = "";
    cell_unit = "ms";
    cell_min = f.decimal 5 1;
    cell_max = f.decimal 150 1;
    cell_digits = 1;
  }

  abbrev pub dwell_voltage_corr_meta : TableMeta F
  dwell_voltage_corr_meta = record {
    id = dwell_voltage_corr;
    key = "ignition.dwell_volt_corr";
    label = "Dwell voltage correction";
    category = 2;
    dims = 1;
    x_size = volt_bins;
    y_size = 0;
    x_axis_key = "vbatt";
    y_axis_key = "";
    x_unit = "V";
    y_unit = "";
    cell_unit = "ratio";
    cell_min = f.decimal 1 1;
    cell_max = f.decimal 50 1;
    cell_digits = 2;
  }

  abbrev pub iat_fuel_corr_meta : TableMeta F
  iat_fuel_corr_meta = record {
    id = iat_fuel_corr;
    key = "enrich.iat_fuel_corr";
    label = "IAT fuel correction";
    category = 4;
    dims = 1;
    x_size = temp_bins;
    y_size = 0;
    x_axis_key = "iat";
    y_axis_key = "";
    x_unit = "°C";
    y_unit = "";
    cell_unit = "ratio";
    cell_min = f.decimal 5 1;
    cell_max = f.decimal 20 1;
    cell_digits = 2;
  }

  abbrev pub clt_fuel_corr_meta : TableMeta F
  clt_fuel_corr_meta = record {
    id = clt_fuel_corr;
    key = "enrich.clt_fuel_corr";
    label = "CLT fuel enrichment";
    category = 4;
    dims = 1;
    x_size = temp_bins;
    y_size = 0;
    x_axis_key = "clt";
    y_axis_key = "";
    x_unit = "°C";
    y_unit = "";
    cell_unit = "ratio";
    cell_min = f.decimal 5 1;
    cell_max = f.decimal 20 1;
    cell_digits = 2;
  }

  abbrev pub clt_timing_corr_meta : TableMeta F
  clt_timing_corr_meta = record {
    id = clt_timing_corr;
    key = "enrich.clt_timing_corr";
    label = "CLT timing correction";
    category = 4;
    dims = 1;
    x_size = temp_bins;
    y_size = 0;
    x_axis_key = "clt";
    y_axis_key = "";
    x_unit = "°C";
    y_unit = "";
    cell_unit = "deg";
    cell_min = f.neg (f.decimal 200 1);
    cell_max = f.decimal 200 1;
    cell_digits = 1;
  }

  abbrev pub iat_timing_corr_meta : TableMeta F
  iat_timing_corr_meta = record {
    id = iat_timing_corr;
    key = "enrich.iat_timing_corr";
    label = "IAT timing correction";
    category = 4;
    dims = 1;
    x_size = temp_bins;
    y_size = 0;
    x_axis_key = "iat";
    y_axis_key = "";
    x_unit = "°C";
    y_unit = "";
    cell_unit = "deg";
    cell_min = f.neg (f.decimal 200 1);
    cell_max = f.decimal 200 1;
    cell_digits = 1;
  }

  abbrev pub table_catalog : List (TableMeta F)
  table_catalog =
      ignition_meta
      ∷ (lambda_meta
          ∷ (ve_meta
              ∷ (injector_deadtime_meta
                  ∷ (dwell_ms_meta
                      ∷ (dwell_voltage_corr_meta
                          ∷ (iat_fuel_corr_meta
                              ∷ (clt_fuel_corr_meta
                                  ∷ (clt_timing_corr_meta ∷ (iat_timing_corr_meta ∷ [])))))))))

  abbrev pub find_table : List (TableMeta F) → TableId → Option (TableMeta F)
  find_table [] id = none
  find_table (m ∷ later) id =
      let rest = find_table later id in
      if table_id_to_u16 m.id == table_id_to_u16 id then some m else rest

  unfoldable pub table_meta : TableId → Option (TableMeta F)
  table_meta id = find_table table_catalog id
