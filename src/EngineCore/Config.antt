-- ===== src/EngineCore/Config.antt =====
-- engine-core/src/config.rs: the configuration and its defaults. An array is a list of its elements, a
-- table a list of its rows; a u8 or u32 is a number.
use rust_ems.Base.{
  ℕ, List, [], ◌∷◌, length, none, some, take, replicate, ◌++◌, ◌+◌, ◌≤◌, ◌≡◌, sym, ◌∙◌, append-nil,
  append_assoc, length-append, arith,
}
use rust_ems.F32.{F32}
use rust_ems.Heapless.{HeaplessVec}

abbrev pub rpm_bins : ℕ
rpm_bins = 16

abbrev pub load_bins : ℕ
load_bins = 16

abbrev pub dwell_bins : ℕ
dwell_bins = 8

abbrev pub volt_bins : ℕ
volt_bins = 8

abbrev pub temp_bins : ℕ
temp_bins = 8

abbrev pub max_cylinders : ℕ
max_cylinders = 12

pub record EngineConfig (F : Type 0) : Type 0 where
  pub displacement_cc_per_cyl : F
  pub firing_order : List ℕ
  pub trigger_total_teeth : ℕ
  pub trigger_missing_teeth : ℕ
  pub ignition_rpm_bins : List F
  pub ignition_load_bins : List F
  pub ignition_table : List (List F)
  pub cranking_rpm : F
  pub cranking_timing_deg : F
  pub cranking_dwell_ms : F
  pub dwell_rpm_bins : List F
  pub dwell_ms_table : List F
  pub dwell_voltage_bins : List F
  pub dwell_voltage_corr : List F
  pub stoich_ratio_primary : F
  pub injector_flow_cc_per_min : F
  pub lambda_rpm_bins : List F
  pub lambda_load_bins : List F
  pub lambda_table : List (List F)
  pub injector_deadtime_pressure_bins : List F
  pub injector_deadtime_voltage_bins : List F
  pub injector_deadtime_table : List (List F)
  pub ve_rpm_bins : List F
  pub ve_load_bins : List F
  pub ve_table : List (List F)
  pub iat_fuel_temp_bins : List F
  pub iat_fuel_corr : List F
  pub clt_fuel_temp_bins : List F
  pub clt_fuel_corr : List F
  pub clt_corr_temp_bins : List F
  pub clt_timing_corr : List F
  pub iat_corr_temp_bins : List F
  pub iat_timing_corr : List F

-- `for &x in xs { let _ = dst.push(x); }`
pub push_each : {A : Type 0} → HeaplessVec A → ℕ → List A → List A → List A
push_each V capacity dst [] = dst
push_each V capacity dst (x ∷ xs) =
    push_each V capacity (elim (V.push capacity dst x) [ none ↦ dst | some dst' ↦ dst' ]) xs

pub push_each_fits :
    {A : Type 0} (V : HeaplessVec A) (capacity : ℕ) (dst xs : List A)
    → length dst + length xs ≤ capacity
    → push_each V capacity dst xs ≡ dst ++ xs
unfolding push_each
push_each_fits V capacity dst [] h = sym (append-nil dst)
push_each_fits V capacity dst (x ∷ xs) h =
    let fits = V.push_fits capacity dst x (omega arith) in
    let more =
      push_each_fits V capacity (dst ++ (x ∷ [])) xs (omega (arith, length-append dst (x ∷ []))) in
    rw fits (more ∙ append_assoc dst (x ∷ []) xs)

module _ {F : Type 0} (f : F32 F) (V : HeaplessVec ℕ) where
  unfoldable pub default_4cyl : EngineConfig F
  unfolding push_each
  default_4cyl = record {
    displacement_cc_per_cyl = f.decimal 3750 1;
    firing_order = push_each V max_cylinders [] (0 ∷ (2 ∷ (3 ∷ (1 ∷ []))));
    trigger_total_teeth = 36;
    trigger_missing_teeth = 1;
    ignition_rpm_bins =
        (f.decimal 5000 1)
        ∷ ((f.decimal 10000 1)
            ∷ ((f.decimal 15000 1)
                ∷ ((f.decimal 20000 1)
                    ∷ ((f.decimal 25000 1)
                        ∷ ((f.decimal 30000 1)
                            ∷ ((f.decimal 35000 1)
                                ∷ ((f.decimal 40000 1)
                                    ∷ ((f.decimal 45000 1)
                                        ∷ ((f.decimal 50000 1)
                                            ∷ ((f.decimal 55000 1)
                                                ∷ ((f.decimal 60000 1)
                                                    ∷ ((f.decimal 65000 1)
                                                        ∷ ((f.decimal 70000 1)
                                                            ∷ ((f.decimal 75000 1)
                                                            ∷ ((f.decimal 80000 1)
                                                            ∷ [])))))))))))))));
    ignition_load_bins =
        (f.decimal 100 1)
        ∷ ((f.decimal 150 1)
            ∷ ((f.decimal 200 1)
                ∷ ((f.decimal 250 1)
                    ∷ ((f.decimal 300 1)
                        ∷ ((f.decimal 350 1)
                            ∷ ((f.decimal 400 1)
                                ∷ ((f.decimal 500 1)
                                    ∷ ((f.decimal 600 1)
                                        ∷ ((f.decimal 700 1)
                                            ∷ ((f.decimal 800 1)
                                                ∷ ((f.decimal 850 1)
                                                    ∷ ((f.decimal 900 1)
                                                        ∷ ((f.decimal 950 1)
                                                            ∷ ((f.decimal 1000 1)
                                                            ∷ ((f.decimal 1050 1)
                                                            ∷ [])))))))))))))));
    ignition_table = replicate load_bins (replicate rpm_bins (f.decimal 100 1));
    cranking_rpm = f.decimal 4000 1;
    cranking_timing_deg = f.decimal 50 1;
    cranking_dwell_ms = f.decimal 60 1;
    dwell_rpm_bins =
        (f.decimal 5000 1)
        ∷ ((f.decimal 10000 1)
            ∷ ((f.decimal 20000 1)
                ∷ ((f.decimal 30000 1)
                    ∷ ((f.decimal 40000 1)
                        ∷ ((f.decimal 50000 1)
                            ∷ ((f.decimal 60000 1) ∷ ((f.decimal 70000 1) ∷ [])))))));
    dwell_ms_table =
        (f.decimal 40 1)
        ∷ ((f.decimal 40 1)
            ∷ ((f.decimal 40 1)
                ∷ ((f.decimal 35 1)
                    ∷ ((f.decimal 30 1)
                        ∷ ((f.decimal 25 1) ∷ ((f.decimal 20 1) ∷ ((f.decimal 20 1) ∷ [])))))));
    dwell_voltage_bins =
        (f.decimal 80 1)
        ∷ ((f.decimal 90 1)
            ∷ ((f.decimal 100 1)
                ∷ ((f.decimal 110 1)
                    ∷ ((f.decimal 120 1)
                        ∷ ((f.decimal 130 1) ∷ ((f.decimal 140 1) ∷ ((f.decimal 150 1) ∷ [])))))));
    dwell_voltage_corr =
        (f.decimal 20 1)
        ∷ ((f.decimal 18 1)
            ∷ ((f.decimal 15 1)
                ∷ ((f.decimal 12 1)
                    ∷ ((f.decimal 10 1)
                        ∷ ((f.decimal 9 1) ∷ ((f.decimal 85 2) ∷ ((f.decimal 8 1) ∷ [])))))));
    stoich_ratio_primary = f.decimal 147 1;
    injector_flow_cc_per_min = f.decimal 2400 1;
    lambda_rpm_bins =
        (f.decimal 5000 1)
        ∷ ((f.decimal 10000 1)
            ∷ ((f.decimal 15000 1)
                ∷ ((f.decimal 20000 1)
                    ∷ ((f.decimal 25000 1)
                        ∷ ((f.decimal 30000 1)
                            ∷ ((f.decimal 35000 1)
                                ∷ ((f.decimal 40000 1)
                                    ∷ ((f.decimal 45000 1)
                                        ∷ ((f.decimal 50000 1)
                                            ∷ ((f.decimal 55000 1)
                                                ∷ ((f.decimal 60000 1)
                                                    ∷ ((f.decimal 65000 1)
                                                        ∷ ((f.decimal 70000 1)
                                                            ∷ ((f.decimal 75000 1)
                                                            ∷ ((f.decimal 80000 1)
                                                            ∷ [])))))))))))))));
    lambda_load_bins =
        (f.decimal 100 1)
        ∷ ((f.decimal 150 1)
            ∷ ((f.decimal 200 1)
                ∷ ((f.decimal 250 1)
                    ∷ ((f.decimal 300 1)
                        ∷ ((f.decimal 350 1)
                            ∷ ((f.decimal 400 1)
                                ∷ ((f.decimal 500 1)
                                    ∷ ((f.decimal 600 1)
                                        ∷ ((f.decimal 700 1)
                                            ∷ ((f.decimal 800 1)
                                                ∷ ((f.decimal 850 1)
                                                    ∷ ((f.decimal 900 1)
                                                        ∷ ((f.decimal 950 1)
                                                            ∷ ((f.decimal 1000 1)
                                                            ∷ ((f.decimal 1050 1)
                                                            ∷ [])))))))))))))));
    lambda_table = replicate load_bins (replicate rpm_bins (f.decimal 10 1));
    injector_deadtime_pressure_bins =
        (f.decimal 500 1)
        ∷ ((f.decimal 600 1)
            ∷ ((f.decimal 700 1)
                ∷ ((f.decimal 800 1)
                    ∷ ((f.decimal 900 1)
                        ∷ ((f.decimal 1000 1)
                            ∷ ((f.decimal 1100 1) ∷ ((f.decimal 1200 1) ∷ [])))))));
    injector_deadtime_voltage_bins =
        (f.decimal 80 1)
        ∷ ((f.decimal 90 1)
            ∷ ((f.decimal 100 1)
                ∷ ((f.decimal 110 1)
                    ∷ ((f.decimal 120 1)
                        ∷ ((f.decimal 130 1) ∷ ((f.decimal 140 1) ∷ ((f.decimal 150 1) ∷ [])))))));
    injector_deadtime_table = replicate volt_bins (replicate volt_bins (f.decimal 5 1));
    ve_rpm_bins =
        (f.decimal 5000 1)
        ∷ ((f.decimal 10000 1)
            ∷ ((f.decimal 15000 1)
                ∷ ((f.decimal 20000 1)
                    ∷ ((f.decimal 25000 1)
                        ∷ ((f.decimal 30000 1)
                            ∷ ((f.decimal 35000 1)
                                ∷ ((f.decimal 40000 1)
                                    ∷ ((f.decimal 45000 1)
                                        ∷ ((f.decimal 50000 1)
                                            ∷ ((f.decimal 55000 1)
                                                ∷ ((f.decimal 60000 1)
                                                    ∷ ((f.decimal 65000 1)
                                                        ∷ ((f.decimal 70000 1)
                                                            ∷ ((f.decimal 75000 1)
                                                            ∷ ((f.decimal 80000 1)
                                                            ∷ [])))))))))))))));
    ve_load_bins =
        (f.decimal 200 1)
        ∷ ((f.decimal 300 1)
            ∷ ((f.decimal 400 1)
                ∷ ((f.decimal 500 1)
                    ∷ ((f.decimal 600 1)
                        ∷ ((f.decimal 700 1)
                            ∷ ((f.decimal 800 1)
                                ∷ ((f.decimal 900 1)
                                    ∷ ((f.decimal 1000 1)
                                        ∷ ((f.decimal 1100 1)
                                            ∷ ((f.decimal 1200 1)
                                                ∷ ((f.decimal 1300 1)
                                                    ∷ ((f.decimal 1400 1)
                                                        ∷ ((f.decimal 1500 1)
                                                            ∷ ((f.decimal 1600 1)
                                                            ∷ ((f.decimal 1800 1)
                                                            ∷ [])))))))))))))));
    ve_table = replicate load_bins (replicate rpm_bins (f.decimal 85 2));
    iat_fuel_temp_bins =
        (f.neg (f.decimal 200 1))
        ∷ ((f.decimal 0 1)
            ∷ ((f.decimal 100 1)
                ∷ ((f.decimal 200 1)
                    ∷ ((f.decimal 300 1)
                        ∷ ((f.decimal 400 1) ∷ ((f.decimal 600 1) ∷ ((f.decimal 800 1) ∷ [])))))));
    iat_fuel_corr =
        (f.decimal 115 2)
        ∷ ((f.decimal 108 2)
            ∷ ((f.decimal 104 2)
                ∷ ((f.decimal 10 1)
                    ∷ ((f.decimal 96 2)
                        ∷ ((f.decimal 92 2) ∷ ((f.decimal 85 2) ∷ ((f.decimal 78 2) ∷ [])))))));
    clt_fuel_temp_bins =
        (f.neg (f.decimal 400 1))
        ∷ ((f.neg (f.decimal 200 1))
            ∷ ((f.decimal 0 1)
                ∷ ((f.decimal 200 1)
                    ∷ ((f.decimal 400 1)
                        ∷ ((f.decimal 600 1) ∷ ((f.decimal 800 1) ∷ ((f.decimal 1200 1) ∷ [])))))));
    clt_fuel_corr =
        (f.decimal 15 1)
        ∷ ((f.decimal 13 1)
            ∷ ((f.decimal 115 2)
                ∷ ((f.decimal 105 2)
                    ∷ ((f.decimal 10 1)
                        ∷ ((f.decimal 10 1) ∷ ((f.decimal 10 1) ∷ ((f.decimal 10 1) ∷ [])))))));
    clt_corr_temp_bins =
        (f.neg (f.decimal 400 1))
        ∷ ((f.neg (f.decimal 200 1))
            ∷ ((f.decimal 0 1)
                ∷ ((f.decimal 200 1)
                    ∷ ((f.decimal 400 1)
                        ∷ ((f.decimal 600 1) ∷ ((f.decimal 800 1) ∷ ((f.decimal 1200 1) ∷ [])))))));
    clt_timing_corr =
        (f.decimal 50 1)
        ∷ ((f.decimal 40 1)
            ∷ ((f.decimal 30 1)
                ∷ ((f.decimal 10 1)
                    ∷ ((f.decimal 0 1)
                        ∷ ((f.neg (f.decimal 10 1))
                            ∷ ((f.neg (f.decimal 15 1)) ∷ ((f.neg (f.decimal 20 1)) ∷ [])))))));
    iat_corr_temp_bins =
        (f.neg (f.decimal 200 1))
        ∷ ((f.decimal 0 1)
            ∷ ((f.decimal 100 1)
                ∷ ((f.decimal 200 1)
                    ∷ ((f.decimal 300 1)
                        ∷ ((f.decimal 400 1) ∷ ((f.decimal 600 1) ∷ ((f.decimal 800 1) ∷ [])))))));
    iat_timing_corr =
        (f.decimal 20 1)
        ∷ ((f.decimal 15 1)
            ∷ ((f.decimal 10 1)
                ∷ ((f.decimal 5 1)
                    ∷ ((f.decimal 0 1)
                        ∷ ((f.neg (f.decimal 10 1))
                            ∷ ((f.neg (f.decimal 20 1)) ∷ ((f.neg (f.decimal 30 1)) ∷ [])))))));
  }

  pub with_cylinders : F → List ℕ → EngineConfig F
  unfolding default_4cyl
  with_cylinders displacement_cc_per_cyl firing_order = record default_4cyl {
    displacement_cc_per_cyl = displacement_cc_per_cyl;
    firing_order = push_each V max_cylinders [] (take max_cylinders firing_order);
  }

  pub default_1cyl : EngineConfig F
  unfolding default_4cyl
  default_1cyl = record default_4cyl {
    displacement_cc_per_cyl = f.decimal 1500 1;
    firing_order = push_each V max_cylinders [] (0 ∷ []);
  }

  abbrev pub default_2cyl : EngineConfig F
  default_2cyl = with_cylinders (f.decimal 2500 1) (0 ∷ (1 ∷ []))

  abbrev pub default_3cyl : EngineConfig F
  default_3cyl = with_cylinders (f.decimal 3330 1) (0 ∷ (2 ∷ (1 ∷ [])))

  abbrev pub default_5cyl : EngineConfig F
  default_5cyl = with_cylinders (f.decimal 5000 1) (0 ∷ (1 ∷ (3 ∷ (4 ∷ (2 ∷ [])))))

  abbrev pub default_6cyl : EngineConfig F
  default_6cyl = with_cylinders (f.decimal 5000 1) (0 ∷ (4 ∷ (2 ∷ (5 ∷ (1 ∷ (3 ∷ []))))))

  abbrev pub default_8cyl : EngineConfig F
  default_8cyl =
      with_cylinders (f.decimal 5000 1) (0 ∷ (7 ∷ (3 ∷ (2 ∷ (5 ∷ (4 ∷ (6 ∷ (1 ∷ []))))))))

  abbrev pub default_10cyl : EngineConfig F
  default_10cyl =
      with_cylinders (f.decimal 5000 1)
        (0 ∷ (9 ∷ (8 ∷ (3 ∷ (2 ∷ (5 ∷ (4 ∷ (7 ∷ (6 ∷ (1 ∷ []))))))))))

  abbrev pub default_12cyl : EngineConfig F
  default_12cyl =
      with_cylinders (f.decimal 5000 1)
        (0 ∷ (6 ∷ (4 ∷ (10 ∷ (2 ∷ (8 ∷ (5 ∷ (11 ∷ (1 ∷ (7 ∷ (3 ∷ (9 ∷ []))))))))))))
