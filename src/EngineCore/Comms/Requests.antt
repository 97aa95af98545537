-- ===== src/EngineCore/Comms/Requests.antt =====
-- How `handle_request` answers the commands that the host builds.
use rust_ems.Base.{
  ℕ, suc, ◌+◌, ◌≤◌, ◌<◌, ◌≡◌, refl, ap, ◌∙◌, List, [], ◌∷◌, length, take, drop, length-take,
  length-drop, some, le→ltb, arith,
}
use rust_ems.Base.Buffer.{copy_at, over, copy_at-over, set-over, length-copy_at, range-copy_at}
use rust_ems.Base.Words.{u16_from-to}
use rust_ems.Protocol.Opcode.{read_page, write_chunk, to_payload}
use rust_ems.EngineCore.Comms.{
  TuneState, handle_request, dispatch, handle_slice, handle_write, write_config, answer_slice,
  get_range, be_u16, ok_with, code_only,
}

-- A response that fits: the code and the data, over the front of the buffer.
pub ok_with_lem :
    (resp data_ : List ℕ)
    → 1 + length data_ ≤ length resp
    → ok_with resp data_ ≡ some (1 + length data_, over (0 ∷ data_) resp)
unfolding ok_with
ok_with_lem resp data_ room = rw (le→ltb (length resp) (1 + length data_) room) (
    ap (λ zs. some (1 + length data_, zs))
      (ap (λ zs. copy_at zs 1 data_) (set-over [] resp 0 0 refl (omega arith))
        ∙ copy_at-over (0 ∷ []) data_ resp 1 refl))

length-range : (xs : List ℕ) (at n : ℕ) → at + n ≤ length xs → length (take n (drop at xs)) ≡ n
length-range xs at n h = omega (arith, length-take n (drop at xs), length-drop at xs)

read_page_lem :
    (page offset n : ℕ) (state : TuneState) (resp : List ℕ)
    → offset < 65536
    → n < 65536
    → offset + n ≤ length state.config
    → 1 + n ≤ length resp
    → handle_request (to_payload (read_page page offset n)) state resp
      ≡ (state, some (1 + n, over (0 ∷ take n (drop offset state.config)) resp))
unfolding handle_request dispatch handle_slice answer_slice get_range be_u16 to_payload
read_page_lem page offset n state resp h k inside room =
    let size : length (take n (drop offset state.config)) ≡ n =
      length-range state.config offset n inside in
    rw (
      u16_from-to offset h,
      u16_from-to n k,
      le→ltb (length state.config) (offset + n) inside,
      ok_with_lem resp (take n (drop offset state.config)) (omega (arith, size)),
      size,
    )

write_chunk_lem :
    (page offset : ℕ) (data_ : List ℕ) (state : TuneState) (b : ℕ) (resp : List ℕ)
    → offset < 65536
    → offset + length data_ ≤ length state.config
    → handle_request (to_payload (write_chunk page offset data_)) state (b ∷ resp)
      ≡ (record state { config = copy_at state.config offset data_ }, some (1, 0 ∷ resp))
unfolding handle_request dispatch handle_write write_config be_u16 to_payload code_only
write_chunk_lem page offset data_ state b resp h inside = rw (
  u16_from-to offset h,
  le→ltb (suc (suc (suc (suc (suc (length data_)))))) 5 (omega arith),
  le→ltb (length state.config) (offset + length data_) inside,
)

-- A chunk written inside the configuration is acknowledged and keeps the configuration's size, and a
-- read of that range is then answered with the chunk; into a response buffer that has room for it,
-- and whatever pages the two commands name.
pub handle_request-write_read :
    (page page' offset : ℕ) (data_ : List ℕ) (state : TuneState) (b : ℕ) (resp resp' : List ℕ)
    → offset < 65536
    → length data_ < 65536
    → offset + length data_ ≤ length state.config
    → 1 + length data_ ≤ length resp'
    → (state' : TuneState) × (handle_request
          (to_payload (write_chunk page offset data_))
          state
          (b ∷ resp)
        ≡ (state', some (1, 0 ∷ resp)))
      × (length state'.config ≡ length state.config)
      × (handle_request (to_payload (read_page page' offset (length data_))) state' resp'
          ≡ (state', some (1 + length data_, over (0 ∷ data_) resp')))
handle_request-write_read page page' offset data_ state b resp resp' h k inside room =
    let size = length-copy_at state.config data_ offset inside in
    (
      record state { config = copy_at state.config offset data_ },
      write_chunk_lem page offset data_ state b resp h inside,
      size,
      read_page_lem page' offset (length data_)
            (record state { config = copy_at state.config offset data_ }) resp' h k
            (omega (arith, size)) room
          ∙ ap
              (λ zs. (
                record state { config = copy_at state.config offset data_ },
                some (1 + length data_, over (0 ∷ zs) resp'),
              ))
              (range-copy_at state.config data_ offset (length data_) refl (omega arith)),
    )
