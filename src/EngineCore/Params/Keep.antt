-- ===== src/EngineCore/Params/Keep.antt =====
-- A write of a parameter that is refused leaves the configuration alone.
use rust_ems.Base.{◌≡◌, refl, false, arith}
use rust_ems.F32.{F32}
use rust_ems.EngineCore.Config.{EngineConfig}
use rust_ems.EngineCore.Params.{
  ParamId, displacement_cc_per_cyl, trigger_total_teeth, trigger_missing_teeth, cranking_rpm,
  cranking_timing_deg, cranking_dwell_ms, stoich_ratio_primary, injector_flow_cc_per_min,
  ignition_table_base, lambda_table_base, ve_table_base, dwell_rpm_bin_base, dwell_ms_table_base,
  dwell_voltage_bin_base, dwell_voltage_corr, iat_fuel_temp_bin_base, iat_fuel_corr_base,
  clt_fuel_temp_bin_base, clt_fuel_corr_base, clt_corr_temp_bin_base, clt_timing_corr_base,
  iat_corr_temp_bin_base, iat_timing_corr_base, set_param,
}

module _ {F : Type 0} (f : F32 F) where
  pub set_param_keeps :
      (cfg : EngineConfig F) (id : ParamId) (v : F)
      → (set_param f cfg id v).1 ≡ false
      → (set_param f cfg id v).0 ≡ cfg
  unfolding set_param
  set_param_keeps cfg displacement_cc_per_cyl v e = absurd (ground (arith, e))
  set_param_keeps cfg trigger_total_teeth v e = absurd (ground (arith, e))
  set_param_keeps cfg trigger_missing_teeth v e = absurd (ground (arith, e))
  set_param_keeps cfg cranking_rpm v e = absurd (ground (arith, e))
  set_param_keeps cfg cranking_timing_deg v e = absurd (ground (arith, e))
  set_param_keeps cfg cranking_dwell_ms v e = absurd (ground (arith, e))
  set_param_keeps cfg stoich_ratio_primary v e = absurd (ground (arith, e))
  set_param_keeps cfg injector_flow_cc_per_min v e = absurd (ground (arith, e))
  set_param_keeps cfg ignition_table_base v e = refl
  set_param_keeps cfg lambda_table_base v e = refl
  set_param_keeps cfg ve_table_base v e = refl
  set_param_keeps cfg dwell_rpm_bin_base v e = refl
  set_param_keeps cfg dwell_ms_table_base v e = refl
  set_param_keeps cfg dwell_voltage_bin_base v e = refl
  set_param_keeps cfg dwell_voltage_corr v e = refl
  set_param_keeps cfg iat_fuel_temp_bin_base v e = refl
  set_param_keeps cfg iat_fuel_corr_base v e = refl
  set_param_keeps cfg clt_fuel_temp_bin_base v e = refl
  set_param_keeps cfg clt_fuel_corr_base v e = refl
  set_param_keeps cfg clt_corr_temp_bin_base v e = refl
  set_param_keeps cfg clt_timing_corr_base v e = refl
  set_param_keeps cfg iat_corr_temp_bin_base v e = refl
  set_param_keeps cfg iat_timing_corr_base v e = refl
