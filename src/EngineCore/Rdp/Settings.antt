-- ===== src/EngineCore/Rdp/Settings.antt =====
-- engine-core/src/comms/rdp.rs: the requests that read and write the configuration.
pub mod Keep
use rust_ems.Base.{
  ℕ, ◌+◌, ◌%◌, List, [], ◌∷◌, length, get_or, map, Bool, true, false, not, ◌&&◌, ◌||◌, Option, none,
  some, Result, ok, err, ◌==◌, if◌then◌else◌, bit_and,
}
use rust_ems.Base.Words.{u32_to_le, u32_from_le}
use rust_ems.EngineCore.Config.{EngineConfig, push_each}
use rust_ems.DeviceApi.Message.{
  ErrorCode, ok_code, bad_request, not_found, out_of_range, read_only, busy, ValueType, f32,
}
use rust_ems.DeviceApi.Cbor.{
  ParamValue, ParamSetEntry, ParamSetResult, TableSetCellRequest, TableSetAxisRequest,
  param_get_response, param_set_response, table_get_response,
}
use rust_ems.EngineCore.Params.{ParamId, param_id_from_u16, get_param, set_param}
use rust_ems.EngineCore.Params.Catalog.{
  ParamMeta, param_meta, pflag_read_only, pflag_engine_stopped_only,
}
use rust_ems.EngineCore.Params.Table.{TableId, table_id_from_u16}
use rust_ems.EngineCore.Params.Access.{
  TableWriteError, bad_index, out_of_range as cell_out_of_range, x as x_axis, y as y_axis,
  TableAxis, table_get, table_write_cell, table_write_axis, contains,
}
use rust_ems.EngineCore.Rdp.{Externals, Device, RdpServer}
use rust_ems.EngineCore.Rdp.Respond.{Reply, respond_status, respond_body}

abbrev pub is_ok_code : ErrorCode → Bool
is_ok_code ok_code = true
is_ok_code _ = false

abbrev pub is_f32 : ValueType → Bool
is_f32 f32 = true
is_f32 _ = false

-- `self.dirty = true` beside a change of the configuration.
abbrev pub edited : {F : Type 0} → Device F → EngineConfig F → Device F
edited d cfg = record { server = record d.server { dirty = true }; ram = cfg }

module _ {F : Type 0} (x : Externals F) where
  -- The values of the parameters asked for, or the first number that has none.
  pub read_params : EngineConfig F → List ℕ → Result ℕ (List ParamValue)
  read_params cfg [] = ok []
  read_params cfg (id_raw ∷ later) =
      let rest = read_params cfg later in
      let value : Option F = elim (param_id_from_u16 id_raw) [
        | none ↦ none
        | some id ↦ get_param x.f cfg id
      ] in
      elim value [
        | none ↦ err id_raw
        | some v ↦ elim rest [
          | err e ↦ err e
          | ok values ↦ ok (record { vtype = f32; raw = u32_to_le (x.f.to_bits v) } ∷ values)
        ]
      ]

  pub op_param_get : ℕ → List ℕ → EngineConfig F → List ℕ → Reply
  unfolding read_params
  op_param_get opcode body ram out = elim (x.cbor.decode_param_get body) [
    | none ↦ respond_status x.cbor opcode bad_request 0 out
    | some req ↦ elim (read_params ram req.ids) [
      | err id_raw ↦ respond_status x.cbor opcode not_found id_raw out
      | ok values ↦
          respond_body x.cbor opcode
            (param_get_response (record { values = push_each (x.vec ParamValue) 32 [] values })) out
    ]
  ]

  -- The value behind the checks of the entry's type and of the catalog's range.
  pub store_param : ParamMeta F → EngineConfig F → ParamId → F → EngineConfig F × ErrorCode
  store_param meta ram id value =
      if not (contains x.f meta.min meta.max value)
      then (ram, out_of_range)
      else (let (ram', done) = set_param x.f ram id value in
          (ram', if done then ok_code else not_found))

  pub check_param :
      ParamMeta F → Bool → EngineConfig F → ParamId → ParamValue → EngineConfig F × ErrorCode
  unfolding store_param
  check_param meta engine_running ram id value =
      if not (bit_and meta.flags pflag_read_only == 0)
      then (ram, read_only)
      else if not (bit_and meta.flags pflag_engine_stopped_only == 0) && engine_running
      then (ram, busy)
      else if not (is_f32 value.vtype) || not (length value.raw == 4)
      then (ram, bad_request)
      else store_param meta ram id (
          x.f.of_bits (
            u32_from_le (get_or value.raw 0 0) (get_or value.raw 1 0) (get_or value.raw 2 0)
              (get_or value.raw 3 0)))

  pub apply_param_set : Bool → EngineConfig F → ParamSetEntry → EngineConfig F × ErrorCode
  unfolding check_param
  apply_param_set engine_running ram entry = elim (param_id_from_u16 entry.id) [
    | none ↦ (ram, not_found)
    | some id ↦ elim (param_meta x.f id) [
      | none ↦ (ram, not_found)
      | some meta ↦ check_param meta engine_running ram id entry.value
    ]
  ]

  -- The loop over the entries.
  unfoldable pub set_entries : Bool → Device F → List ParamSetEntry → Device F × List ParamSetResult
  set_entries engine_running d [] = (d, [])
  set_entries engine_running d (entry ∷ later) =
      let (ram', code) = apply_param_set engine_running d.ram entry in
      let d' = if is_ok_code code then edited d ram' else record d { ram = ram' } in
      let (d'', results) = set_entries engine_running d' later in
      (d'', record { id = entry.id; code = code } ∷ results)

  unfoldable pub op_param_set : ℕ → List ℕ → Bool → Device F → List ℕ → Device F × Reply
  unfolding set_entries
  op_param_set opcode body engine_running d out = elim (x.cbor.decode_param_set body) [
    | none ↦ (d, respond_status x.cbor opcode bad_request 0 out)
    | some req ↦
        let (d', results) = set_entries engine_running d req.entries in
        (
          d',
          respond_body x.cbor opcode
              (param_set_response
                (record { results = push_each (x.vec ParamSetResult) 32 [] results }))
              out,
        )
  ]

  pub op_table_get : ℕ → List ℕ → EngineConfig F → List ℕ → Reply
  op_table_get opcode body ram out = elim (x.cbor.decode_table_get body) [
    | none ↦ respond_status x.cbor opcode bad_request 0 out
    | some req ↦ elim (table_id_from_u16 req.table_id) [
      | none ↦ respond_status x.cbor opcode not_found req.table_id out
      | some id ↦
          let t = table_get (x.vec F) ram id in
          respond_body x.cbor opcode
            (table_get_response (record { x_axis = t.x_axis; y_axis = t.y_axis; cells = t.cells }))
            out
    ]
  ]

  pub finish_cell :
      ℕ
      → TableSetCellRequest F
      → Device F
      → List ℕ
      → EngineConfig F × Option TableWriteError
      → Device F × Reply
  finish_cell opcode req d out (ram', none) =
      (edited d ram', respond_status x.cbor opcode ok_code 0 out)
  finish_cell opcode req d out (ram', some cell_out_of_range) =
      (record d { ram = ram' }, respond_status x.cbor opcode out_of_range req.table_id out)
  finish_cell opcode req d out (ram', some bad_index) =
      (record d { ram = ram' }, respond_status x.cbor opcode bad_request req.ix out)

  unfoldable pub op_table_set_cell : ℕ → List ℕ → Device F → List ℕ → Device F × Reply
  unfolding finish_cell
  op_table_set_cell opcode body d out = elim (x.cbor.decode_table_set_cell body) [
    | none ↦ (d, respond_status x.cbor opcode bad_request 0 out)
    | some req ↦ elim (table_id_from_u16 req.table_id) [
      | none ↦ (d, respond_status x.cbor opcode not_found req.table_id out)
      | some id ↦
          finish_cell opcode req d out (table_write_cell x.f d.ram id req.ix req.iy req.value)
    ]
  ]

  pub finish_axis :
      ℕ
      → TableSetAxisRequest F
      → Device F
      → List ℕ
      → EngineConfig F × Option TableWriteError
      → Device F × Reply
  finish_axis opcode req d out (ram', none) =
      (edited d ram', respond_status x.cbor opcode ok_code 0 out)
  finish_axis opcode req d out (ram', some _) =
      (record d { ram = ram' }, respond_status x.cbor opcode bad_request req.axis out)

  unfoldable pub op_table_set_axis : ℕ → List ℕ → Device F → List ℕ → Device F × Reply
  unfolding finish_axis
  op_table_set_axis opcode body d out = elim (x.cbor.decode_table_set_axis body) [
    | none ↦ (d, respond_status x.cbor opcode bad_request 0 out)
    | some req ↦ elim (table_id_from_u16 req.table_id) [
      | none ↦ (d, respond_status x.cbor opcode not_found req.table_id out)
      | some id ↦
          let axis = if req.axis == 0 then x_axis else y_axis in
          finish_axis opcode req d out (table_write_axis d.ram id axis req.values)
    ]
  ]
