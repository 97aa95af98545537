-- ===== src/EngineCore/Params/Catalog.antt =====
-- engine-core/src/params.rs: the catalog of the scalar parameters.
use Prim.Native.String.{String}
use rust_ems.Base.{ℕ, List, [], ◌∷◌, Option, none, some, ◌==◌, if◌then◌else◌}
use rust_ems.F32.{F32}
use rust_ems.EngineCore.Params.{
  ParamId, param_id_to_u16, displacement_cc_per_cyl, trigger_total_teeth, trigger_missing_teeth,
  cranking_rpm, cranking_timing_deg, cranking_dwell_ms, stoich_ratio_primary,
  injector_flow_cc_per_min,
}

abbrev pub categories : List String
categories =
    "Engine"
    ∷ ("Trigger"
        ∷ ("Ignition"
            ∷ ("Fuel"
                ∷ ("Enrichment"
                    ∷ ("Idle" ∷ ("Boost" ∷ ("Vvt" ∷ ("Sensors" ∷ ("Protection" ∷ [])))))))))

abbrev pub pflag_read_only : ℕ
pflag_read_only = 1

abbrev pub pflag_needs_reboot : ℕ
pflag_needs_reboot = 2

abbrev pub pflag_engine_stopped_only : ℕ
pflag_engine_stopped_only = 4

pub record ParamMeta (F : Type 0) : Type 0 where
  pub id : ParamId
  pub key : String
  pub label : String
  pub category : ℕ
  pub unit : String
  pub min : F
  pub max : F
  pub default : F
  pub digits : ℕ
  pub flags : ℕ

module _ {F : Type 0} (f : F32 F) where
  abbrev pub displacement_cc_per_cyl_meta : ParamMeta F
  displacement_cc_per_cyl_meta = record {
    id = displacement_cc_per_cyl;
    key = "engine.disp_cc_per_cyl";
    label = "Displacement / cylinder";
    category = 0;
    unit = "cc";
    min = f.decimal 10 1;
    max = f.decimal 50000 1;
    default = f.decimal 3750 1;
    digits = 0;
    flags = pflag_engine_stopped_only;
  }

  abbrev pub trigger_total_teeth_meta : ParamMeta F
  trigger_total_teeth_meta = record {
    id = trigger_total_teeth;
    key = "trigger.total_teeth";
    label = "Trigger total teeth";
    category = 1;
    unit = "count";
    min = f.decimal 40 1;
    max = f.decimal 2560 1;
    default = f.decimal 360 1;
    digits = 0;
    flags = pflag_engine_stopped_only;
  }

  abbrev pub trigger_missing_teeth_meta : ParamMeta F
  trigger_missing_teeth_meta = record {
    id = trigger_missing_teeth;
    key = "trigger.missing_teeth";
    label = "Trigger missing teeth";
    category = 1;
    unit = "count";
    min = f.decimal 10 1;
    max = f.decimal 40 1;
    default = f.decimal 10 1;
    digits = 0;
    flags = pflag_engine_stopped_only;
  }

  abbrev pub cranking_rpm_meta : ParamMeta F
  cranking_rpm_meta = record {
    id = cranking_rpm;
    key = "ignition.cranking_rpm";
    label = "Cranking RPM threshold";
    category = 2;
    unit = "RPM";
    min = f.decimal 500 1;
    max = f.decimal 10000 1;
    default = f.decimal 4000 1;
    digits = 0;
    flags = 0;
  }

  abbrev pub cranking_timing_deg_meta : ParamMeta F
  cranking_timing_deg_meta = record {
    id = cranking_timing_deg;
    key = "ignition.cranking_timing";
    label = "Cranking advance";
    category = 2;
    unit = "°BTDC";
    min = f.neg (f.decimal 100 1);
    max = f.decimal 300 1;
    default = f.decimal 50 1;
    digits = 1;
    flags = 0;
  }

  abbrev pub cranking_dwell_ms_meta : ParamMeta F
  cranking_dwell_ms_meta = record {
    id = cranking_dwell_ms;
    key = "ignition.cranking_dwell";
    label = "Cranking dwell";
    category = 2;
    unit = "ms";
    min = f.decimal 10 1;
    max = f.decimal 150 1;
    default = f.decimal 60 1;
    digits = 1;
    flags = 0;
  }

  abbrev pub stoich_ratio_primary_meta : ParamMeta F
  stoich_ratio_primary_meta = record {
    id = stoich_ratio_primary;
    key = "fuel.stoich_ratio";
    label = "Stoichiometric AFR";
    category = 3;
    unit = "AFR";
    min = f.decimal 100 1;
    max = f.decimal 200 1;
    default = f.decimal 147 1;
    digits = 1;
    flags = 0;
  }

  abbrev pub injector_flow_cc_per_min_meta : ParamMeta F
  injector_flow_cc_per_min_meta = record {
    id = injector_flow_cc_per_min;
    key = "fuel.injector_flow";
    label = "Injector flow rate";
    category = 3;
    unit = "cc/min";
    min = f.decimal 500 1;
    max = f.decimal 20000 1;
    default = f.decimal 2400 1;
    digits = 0;
    flags = 0;
  }

  abbrev pub param_catalog : List (ParamMeta F)
  param_catalog =
      displacement_cc_per_cyl_meta
      ∷ (trigger_total_teeth_meta
          ∷ (trigger_missing_teeth_meta
              ∷ (cranking_rpm_meta
                  ∷ (cranking_timing_deg_meta
                      ∷ (cranking_dwell_ms_meta
                          ∷ (stoich_ratio_primary_meta ∷ (injector_flow_cc_per_min_meta ∷ [])))))))

  -- `iter().find(|m| m.id == id)`
  abbrev pub find_meta : List (ParamMeta F) → ParamId → Option (ParamMeta F)
  find_meta [] id = none
  find_meta (m ∷ later) id =
      let rest = find_meta later id in
      if param_id_to_u16 m.id == param_id_to_u16 id then some m else rest

  unfoldable pub param_meta : ParamId → Option (ParamMeta F)
  param_meta id = find_meta param_catalog id
