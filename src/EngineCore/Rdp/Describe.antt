-- ===== src/EngineCore/Rdp/Describe.antt =====
-- engine-core/src/comms/rdp.rs: the requests that only describe the device.
use Prim.Native.String.{String}
use rust_ems.Base.{
  ℕ, suc, ◌+◌, ◌*◌, ◌-◌, ◌/◌, List, [], ◌∷◌, length, take, drop, map, none, some, leb,
  if◌then◌else◌, max,
}
use rust_ems.EngineCore.Config.{push_each}
use rust_ems.DeviceApi.Frame.{max_payload_len}
use rust_ems.DeviceApi.Message.{not_found, ValueType, f32, u16, i16, bool}
use rust_ems.DeviceApi.Cbor.{
  CategoryDesc, ParamDesc, TableDesc, ChannelDesc, hello_info, ping_response,
  get_schema_info_response, get_param_catalog_response, get_table_catalog_response,
  get_telemetry_catalog_response,
}
use rust_ems.EngineCore.Params.{param_id_to_u16}
use rust_ems.EngineCore.Params.Catalog.{ParamMeta, param_catalog, categories}
use rust_ems.EngineCore.Params.Table.{TableMeta, table_id_to_u16, table_catalog}
use rust_ems.EngineCore.Telemetry.{
  ChannelMeta, WireType, u16 as wire_u16, i16 as wire_i16, bit, telemetry_catalog,
}
use rust_ems.EngineCore.Rdp.{Externals, DeviceIdentity, schema_hash}
use rust_ems.EngineCore.Rdp.Respond.{Reply, respond_status, respond_body}

-- `len.div_ceil(n).max(1)`
abbrev pub pages : ℕ → ℕ → ℕ
pages len n = max ((len + n - 1) / n) 1

module _ {F : Type 0} (x : Externals F) where
  pub op_hello : DeviceIdentity → ℕ → List ℕ → Reply
  op_hello identity opcode out =
      respond_body x.cbor opcode
        (hello_info (record {
          proto_major = 1;
          proto_minor = 0;
          fw_version = identity.fw_version;
          board = identity.board;
          mcu = identity.mcu;
          cylinders = identity.cylinders;
          capabilities = identity.capabilities;
          schema_hash = schema_hash x;
          max_payload = max_payload_len;
          device_id = identity.device_id;
        }))
        out

  pub op_ping : ℕ → List ℕ → ℕ → List ℕ → Reply
  op_ping opcode body now_ms out =
      let nonce : ℕ = elim (x.cbor.decode_ping body) [ none ↦ 0 | some r ↦ r.nonce ] in
      respond_body x.cbor opcode (ping_response (record { nonce = nonce; uptime_ms = now_ms })) out

  pub number_categories : ℕ → List String → List CategoryDesc
  number_categories i [] = []
  number_categories i (name ∷ later) =
      record { id = i; name = name } ∷ number_categories (suc i) later

  pub op_schema_info : ℕ → List ℕ → Reply
  unfolding number_categories
  op_schema_info opcode out =
      respond_body x.cbor opcode
        (get_schema_info_response (record {
          schema_hash = schema_hash x;
          param_count = length (param_catalog x.f);
          table_count = length (table_catalog x.f);
          categories = push_each (x.vec CategoryDesc) 16 [] (number_categories 0 categories);
        }))
        out

  -- The page asked for; a body that does not decode asks for the first.
  abbrev pub page_of : List ℕ → ℕ
  page_of body = elim (x.cbor.decode_get_catalog body) [ none ↦ 0 | some r ↦ r.page ]

  abbrev pub param_desc : ParamMeta F → ParamDesc F
  param_desc m = record {
    id = param_id_to_u16 m.id;
    key = m.key;
    label = m.label;
    category = m.category;
    vtype = f32;
    unit = m.unit;
    scale = x.f.decimal 10 1;
    offset = x.f.decimal 0 1;
    min = m.min;
    max = m.max;
    default = m.default;
    digits = m.digits;
    flags = m.flags;
    enum_labels = none;
  }

  pub op_param_catalog : ℕ → List ℕ → List ℕ → Reply
  op_param_catalog opcode body out =
      let page = page_of body in
      let total_pages = pages (length (param_catalog x.f)) 4 in
      if leb total_pages page
      then respond_status x.cbor opcode not_found page out
      else respond_body x.cbor opcode
          (get_param_catalog_response (record {
            page = page;
            total_pages = total_pages;
            items =
                push_each (x.vec (ParamDesc F)) 8 []
                  (map param_desc (take 4 (drop (page * 4) (param_catalog x.f))));
          }))
          out

  abbrev pub table_desc : TableMeta F → TableDesc F
  table_desc m = record {
    id = table_id_to_u16 m.id;
    key = m.key;
    label = m.label;
    category = m.category;
    dims = m.dims;
    x_size = m.x_size;
    y_size = m.y_size;
    x_axis_key = m.x_axis_key;
    y_axis_key = m.y_axis_key;
    x_unit = m.x_unit;
    y_unit = m.y_unit;
    cell_unit = m.cell_unit;
    cell_min = m.cell_min;
    cell_max = m.cell_max;
    cell_digits = m.cell_digits;
  }

  pub op_table_catalog : ℕ → List ℕ → List ℕ → Reply
  op_table_catalog opcode body out =
      let page = page_of body in
      let total_pages = pages (length (table_catalog x.f)) 4 in
      if leb total_pages page
      then respond_status x.cbor opcode not_found page out
      else respond_body x.cbor opcode
          (get_table_catalog_response (record {
            page = page;
            total_pages = total_pages;
            items =
                push_each (x.vec (TableDesc F)) 8 []
                  (map table_desc (take 4 (drop (page * 4) (table_catalog x.f))));
          }))
          out

  abbrev pub value_type : WireType → ValueType
  value_type wire_u16 = u16
  value_type wire_i16 = i16
  value_type bit = bool

  abbrev pub channel_desc : ChannelMeta F → ChannelDesc F
  channel_desc c = record {
    id = c.id;
    key = c.key;
    label = c.label;
    category = c.group;
    vtype = value_type c.wire;
    unit = c.unit;
    scale = c.scale;
    offset = x.f.decimal 0 1;
    digits = 0;
  }

  pub op_telemetry_catalog : ℕ → List ℕ → List ℕ → Reply
  op_telemetry_catalog opcode body out =
      let page = page_of body in
      let total_pages = pages (length (telemetry_catalog x.f)) 8 in
      if leb total_pages page
      then respond_status x.cbor opcode not_found page out
      else respond_body x.cbor opcode
          (get_telemetry_catalog_response (record {
            page = page;
            total_pages = total_pages;
            items =
                push_each (x.vec (ChannelDesc F)) 8 []
                  (map channel_desc (take 8 (drop (page * 8) (telemetry_catalog x.f))));
          }))
          out
