-- ===== src/EngineCore/Rdp/Settings/Keep.antt =====
-- What the writes of the configuration leave alone: they change it only where they note that it is dirty.
use rust_ems.Base.{
  ℕ, ◌≡◌, refl, ◌∙◌, List, [], ◌∷◌, length, Option-cases, Bool, Bool-cases, true, false, not, ◌&&◌,
  ◌||◌, inl, inr, Option, none, some, ◌==◌, if◌then◌else◌, bit_and, get_or, arith,
}
use rust_ems.Base.Words.{u32_from_le}
use rust_ems.EngineCore.Config.{EngineConfig}
use rust_ems.DeviceApi.Cbor.{ParamValue, ParamSetEntry, TableSetCellRequest, TableSetAxisRequest}
use rust_ems.EngineCore.Params.{ParamId, param_id_from_u16, set_param}
use rust_ems.EngineCore.Params.Keep.{set_param_keeps}
use rust_ems.EngineCore.Params.Catalog.{
  ParamMeta, param_meta, pflag_read_only, pflag_engine_stopped_only,
}
use rust_ems.EngineCore.Params.Table.{table_id_from_u16}
use rust_ems.EngineCore.Params.Access.{
  TableWriteError, out_of_range, bad_index, contains, table_write_cell, table_write_axis,
  x as x_axis, y as y_axis,
}
use rust_ems.EngineCore.Params.Access.Keep.{failed, table_write_cell_keeps, table_write_axis_keeps}
use rust_ems.EngineCore.Rdp.{Externals, Device}
use rust_ems.EngineCore.Rdp.Settings.{
  is_ok_code, is_f32, edited, store_param, check_param, apply_param_set, set_entries, op_param_set,
  finish_cell, op_table_set_cell, finish_axis, op_table_set_axis,
}

-- The configuration is as it was, and so is the mark; or the mark is set. The checksum of the flash and the bench test asked for
-- stay.
pub data IsEdit {F : Type 0} (d d' : Device F) : Type 0 where
  kept :
      d'.ram ≡ d.ram
      → d'.server.dirty ≡ d.server.dirty
      → d'.server.flash_crc ≡ d.server.flash_crc
      → d'.server.pending_bench ≡ d.server.pending_bench
      → IsEdit d d'
  noted :
      d'.server.dirty ≡ true
      → d'.server.flash_crc ≡ d.server.flash_crc
      → d'.server.pending_bench ≡ d.server.pending_bench
      → IsEdit d d'

IsEdit-then : {F : Type 0} {d d' d'' : Device F} → IsEdit d d' → IsEdit d' d'' → IsEdit d d''
IsEdit-then (kept a b c e) (kept a' b' c' e') = kept (a' ∙ a) (b' ∙ b) (c' ∙ c) (e' ∙ e)
IsEdit-then (kept a b c e) (noted m c' e') = noted m (c' ∙ c) (e' ∙ e)
IsEdit-then (noted m c e) (kept a b c' e') = noted (b ∙ m) (c' ∙ c) (e' ∙ e)
IsEdit-then (noted m c e) (noted m' c' e') = noted m' (c' ∙ c) (e' ∙ e)

module _ {F : Type 0} (x : Externals F) where
  store_param_keeps :
      (meta : ParamMeta F) (ram : EngineConfig F) (id : ParamId) (v : F)
      → is_ok_code (store_param x meta ram id v).1 ≡ false
      → (store_param x meta ram id v).0 ≡ ram
  unfolding store_param
  store_param_keeps meta ram id v e = elim (Bool-cases (contains x.f meta.min meta.max v)) [
    | inr off ↦ rw (off, store_param)
    | inl fine ↦ elim (Bool-cases (set_param x.f ram id v).1) [
      | inr refused ↦ rw (fine, store_param) (set_param_keeps x.f ram id v refused)
      | inl done ↦
          let clash : true ≡ false = rw (fine, done, store_param) at e in
          absurd (ground (arith, clash))
    ]
  ]

  check_param_keeps :
      (meta : ParamMeta F) (running : Bool) (ram : EngineConfig F) (id : ParamId)
      (value : ParamValue)
      → is_ok_code (check_param x meta running ram id value).1 ≡ false
      → (check_param x meta running ram id value).0 ≡ ram
  unfolding check_param
  check_param_keeps meta running ram id value e =
      elim (Bool-cases (not (bit_and meta.flags pflag_read_only == 0))) [
        | inl fixed ↦ rw (fixed, check_param)
        | inr free ↦
            elim (Bool-cases (not (bit_and meta.flags pflag_engine_stopped_only == 0) && running)) [
              | inl gated ↦ rw (free, gated, check_param)
              | inr ungated ↦
                  elim (Bool-cases (not (is_f32 value.vtype) || not (length value.raw == 4))) [
                    | inl bad ↦ rw (free, ungated, bad, check_param)
                    | inr good ↦
                        let v = x.f.of_bits (
                          u32_from_le (get_or value.raw 0 0) (get_or value.raw 1 0)
                            (get_or value.raw 2 0) (get_or value.raw 3 0)) in
                        rw (free, ungated, good, check_param)
                          (store_param_keeps meta ram id v
                            (rw (free, ungated, good, check_param) at e))
                  ]
            ]
      ]

  apply_param_set_keeps :
      (running : Bool) (ram : EngineConfig F) (entry : ParamSetEntry)
      → is_ok_code (apply_param_set x running ram entry).1 ≡ false
      → (apply_param_set x running ram entry).0 ≡ ram
  unfolding apply_param_set
  apply_param_set_keeps running ram entry e = elim (Option-cases (param_id_from_u16 entry.id)) [
    | inl missing ↦ rw (missing, apply_param_set)
    | inr (id, known) ↦ elim (Option-cases (param_meta x.f id)) [
      | inl missing ↦ rw (known, missing, apply_param_set)
      | inr (meta, found) ↦
          rw (known, found, apply_param_set)
            (check_param_keeps meta running ram id entry.value
              (rw (known, found, apply_param_set) at e))
    ]
  ]

  set_entry-IsEdit :
      (running : Bool) (d : Device F) (entry : ParamSetEntry)
      → IsEdit d (
          if is_ok_code (apply_param_set x running d.ram entry).1
          then edited d (apply_param_set x running d.ram entry).0
          else record d { ram = (apply_param_set x running d.ram entry).0 })
  set_entry-IsEdit running d entry =
      elim (Bool-cases (is_ok_code (apply_param_set x running d.ram entry).1)) [
        | inl done ↦ rw done (noted refl refl refl)
        | inr refused ↦
            rw refused (kept (apply_param_set_keeps running d.ram entry refused) refl refl refl)
      ]

  set_entries-IsEdit :
      (running : Bool) (d : Device F) (entries : List ParamSetEntry)
      → IsEdit d (set_entries x running d entries).0
  unfolding set_entries
  set_entries-IsEdit running d [] = kept refl refl refl refl
  set_entries-IsEdit running d (entry ∷ later) = IsEdit-then (set_entry-IsEdit running d entry) (
      set_entries-IsEdit running
        (if is_ok_code (apply_param_set x running d.ram entry).1
          then edited d (apply_param_set x running d.ram entry).0
          else record d { ram = (apply_param_set x running d.ram entry).0 })
        later)

  pub op_param_set-IsEdit :
      (opcode : ℕ) (body : List ℕ) (running : Bool) (d : Device F) (out : List ℕ)
      → IsEdit d (op_param_set x opcode body running d out).0
  unfolding op_param_set
  op_param_set-IsEdit opcode body running d out =
      elim (Option-cases (x.cbor.decode_param_set body)) [
        | inl bad ↦ rw (bad, op_param_set) (kept refl refl refl refl)
        | inr (req, good) ↦ rw (good, op_param_set) (set_entries-IsEdit running d req.entries)
      ]

  finish_cell-IsEdit :
      (opcode : ℕ) (req : TableSetCellRequest F) (d : Device F) (out : List ℕ)
      (r : EngineConfig F × Option TableWriteError)
      → (failed r.1 ≡ true → r.0 ≡ d.ram)
      → IsEdit d (finish_cell x opcode req d out r).0
  unfolding finish_cell
  finish_cell-IsEdit opcode req d out (ram', none) h = noted refl refl refl
  finish_cell-IsEdit opcode req d out (ram', some out_of_range) h = kept (h refl) refl refl refl
  finish_cell-IsEdit opcode req d out (ram', some bad_index) h = kept (h refl) refl refl refl

  finish_axis-IsEdit :
      (opcode : ℕ) (req : TableSetAxisRequest F) (d : Device F) (out : List ℕ)
      (r : EngineConfig F × Option TableWriteError)
      → (failed r.1 ≡ true → r.0 ≡ d.ram)
      → IsEdit d (finish_axis x opcode req d out r).0
  unfolding finish_axis
  finish_axis-IsEdit opcode req d out (ram', none) h = noted refl refl refl
  finish_axis-IsEdit opcode req d out (ram', some e) h = kept (h refl) refl refl refl

  pub op_table_set_cell-IsEdit :
      (opcode : ℕ) (body : List ℕ) (d : Device F) (out : List ℕ)
      → IsEdit d (op_table_set_cell x opcode body d out).0
  unfolding op_table_set_cell
  op_table_set_cell-IsEdit opcode body d out =
      elim (Option-cases (x.cbor.decode_table_set_cell body)) [
        | inl bad ↦ rw (bad, op_table_set_cell) (kept refl refl refl refl)
        | inr (req, good) ↦ elim (Option-cases (table_id_from_u16 req.table_id)) [
          | inl missing ↦ rw (good, missing, op_table_set_cell) (kept refl refl refl refl)
          | inr (id, known) ↦
              rw (good, known, op_table_set_cell)
                (finish_cell-IsEdit opcode req d out
                  (table_write_cell x.f d.ram id req.ix req.iy req.value)
                  (table_write_cell_keeps x.f d.ram id req.ix req.iy req.value))
        ]
      ]

  pub op_table_set_axis-IsEdit :
      (opcode : ℕ) (body : List ℕ) (d : Device F) (out : List ℕ)
      → IsEdit d (op_table_set_axis x opcode body d out).0
  unfolding op_table_set_axis
  op_table_set_axis-IsEdit opcode body d out =
      elim (Option-cases (x.cbor.decode_table_set_axis body)) [
        | inl bad ↦ rw (bad, op_table_set_axis) (kept refl refl refl refl)
        | inr (req, good) ↦ elim (Option-cases (table_id_from_u16 req.table_id)) [
          | inl missing ↦ rw (good, missing, op_table_set_axis) (kept refl refl refl refl)
          | inr (id, known) ↦
              rw (good, known, op_table_set_axis)
                (finish_axis-IsEdit opcode req d out
                  (table_write_axis d.ram id (if req.axis == 0 then x_axis else y_axis) req.values)
                  (table_write_axis_keeps d.ram id (if req.axis == 0 then x_axis else y_axis)
                    req.values))
        ]
      ]
