-- ===== src/EngineCore/Params/Hash.antt =====
-- engine-core/src/params.rs: the FNV-1a hash of the catalogs and the checksum of a configuration. The bytes
-- of a string, the standard library's, are a parameter.
use Prim.Native.String.{String}
use rust_ems.Base.{ℕ, ◌*◌, ◌%◌, List, [], ◌∷◌, ◌++◌, none, some, bit_xor}
use rust_ems.Base.Words.{u16_to_le, u32_to_le}
use rust_ems.F32.{F32}
use rust_ems.Heapless.{HeaplessVec}
use rust_ems.EngineCore.Config.{EngineConfig}
use rust_ems.EngineCore.Params.{param_id_to_u16, get_param}
use rust_ems.EngineCore.Params.Catalog.{ParamMeta, param_catalog}
use rust_ems.EngineCore.Params.Table.{TableMeta, table_id_to_u16, table_catalog}
use rust_ems.EngineCore.Params.Access.{table_get}

pub fnv1a_step : ℕ → ℕ → ℕ
fnv1a_step hash byte = bit_xor hash byte * 0x01000193 % 4294967296

pub fnv1a : ℕ → List ℕ → ℕ
unfolding fnv1a_step
fnv1a hash [] = hash
fnv1a hash (byte ∷ bytes) = fnv1a (fnv1a_step hash byte) bytes

abbrev pub fnv_offset : ℕ
fnv_offset = 0x811c9dc5

module _ {F : Type 0} (f : F32 F) (as_bytes : String → List ℕ) where
  pub hash_params : ℕ → List (ParamMeta F) → ℕ
  unfolding fnv1a
  hash_params h [] = h
  hash_params h (m ∷ later) =
      let h₁ = fnv1a h (u16_to_le (param_id_to_u16 m.id)) in
      let h₂ = fnv1a h₁ (as_bytes m.key) in
      let h₃ = fnv1a h₂ (u32_to_le (f.to_bits m.min)) in
      let h₄ = fnv1a h₃ (u32_to_le (f.to_bits m.max)) in
      hash_params (fnv1a h₄ (m.category ∷ (m.digits ∷ (m.flags ∷ [])))) later

  pub hash_tables : ℕ → List (TableMeta F) → ℕ
  unfolding fnv1a
  hash_tables h [] = h
  hash_tables h (m ∷ later) =
      let h₁ = fnv1a h (u16_to_le (table_id_to_u16 m.id)) in
      let h₂ = fnv1a h₁ (as_bytes m.key) in
      let h₃ = fnv1a h₂ (u16_to_le m.x_size) in
      let h₄ = fnv1a h₃ (u16_to_le m.y_size) in
      hash_tables (fnv1a h₄ (m.category ∷ (m.dims ∷ (m.cell_digits ∷ [])))) later

  pub catalog_hash : ℕ
  unfolding hash_params hash_tables
  catalog_hash = hash_tables (hash_params fnv_offset (param_catalog f)) (table_catalog f)

module _ {F : Type 0} (f : F32 F) (V : HeaplessVec F) where
  pub hash_values : ℕ → List F → ℕ
  unfolding fnv1a
  hash_values h [] = h
  hash_values h (v ∷ later) = hash_values (fnv1a h (u32_to_le (f.to_bits v))) later

  pub hash_config_params : EngineConfig F → ℕ → List (ParamMeta F) → ℕ
  unfolding fnv1a
  hash_config_params cfg h [] = h
  hash_config_params cfg h (m ∷ later) =
      hash_config_params cfg
        (elim (get_param f cfg m.id) [ none ↦ h | some v ↦ fnv1a h (u32_to_le (f.to_bits v)) ])
        later

  pub hash_config_tables : EngineConfig F → ℕ → List (TableMeta F) → ℕ
  unfolding hash_values
  hash_config_tables cfg h [] = h
  hash_config_tables cfg h (m ∷ later) =
      let data_ = table_get V cfg m.id in
      hash_config_tables cfg (hash_values h (data_.x_axis ++ (data_.y_axis ++ data_.cells))) later

  pub config_crc : EngineConfig F → ℕ
  unfolding hash_config_params hash_config_tables
  config_crc cfg =
      fnv1a
        (hash_config_tables cfg (hash_config_params cfg fnv_offset (param_catalog f))
          (table_catalog f))
        cfg.firing_order
