-- ===== src/EngineCore/Comms/Total.antt =====
-- What holds of `handle_request` on every request.
use rust_ems.Base.{
  ℕ, ◌+◌, ◌≤◌, ◌<◌, ◌≡◌, refl, ◌∙◌, List, [], ◌∷◌, length, drop, set, Option, Option-cases,
  Bool-cases, inl, inr, some, none, ltb, if◌then◌else◌, true, false, ltb→le, length-set, arith,
  Bool,
}
use rust_ems.Base.Buffer.{length-copy_at}
use rust_ems.Base.Words.{u32_to_be}
use rust_ems.EngineCore.Comms.{
  TuneState, crc32, handle_request, dispatch, handle_slice, handle_write, write_config,
  answer_slice, get_range, be_u16, ok_with, code_only, Response,
}

-- A response stands in the buffer: it is not empty, and the buffer keeps its length.
pub data Fits (resp : List ℕ) : Response → Type 0 where
  unanswered : Fits resp none
  answered :
      (n : ℕ) (resp' : List ℕ)
      → 0 < n
      → n ≤ length resp
      → length resp' ≡ length resp
      → Fits resp (some (n, resp'))

code_only-Fits : (resp : List ℕ) (code : ℕ) → Fits resp (code_only resp code)
unfolding code_only
code_only-Fits [] code = unanswered
code_only-Fits (b ∷ resp) code = answered 1 (code ∷ resp) (omega arith) (omega arith) refl

ok_with-Fits : (resp data_ : List ℕ) → Fits resp (ok_with resp data_)
unfolding ok_with
ok_with-Fits resp data_ = elim (Bool-cases (ltb (length resp) (1 + length data_))) [
  | inl e ↦ rw e unanswered
  | inr e ↦
      let room = ltb→le (length resp) (1 + length data_) e in
      let kept = length-set resp 0 0 in
      rw e (
        answered (1 + length data_) _ (omega arith) room
          (length-copy_at (set resp 0 0) data_ 1 (omega (arith, kept)) ∙ kept))
]

answer_slice-Fits :
    (make : List ℕ → List ℕ) (resp : List ℕ) (slice : Option (List ℕ))
    → Fits resp (answer_slice make resp slice)
unfolding answer_slice
answer_slice-Fits make resp none = code_only-Fits resp 1
answer_slice-Fits make resp (some slice) = ok_with-Fits resp (make slice)

handle_slice-Fits :
    (make : List ℕ → List ℕ) (req : List ℕ) (at : ℕ) (slice resp : List ℕ)
    → Fits resp (handle_slice make req at slice resp)
unfolding handle_slice
handle_slice-Fits make req at slice resp = elim (Option-cases (be_u16 req at)) [
  | inl e ↦ rw (e, handle_slice) unanswered
  | inr (offset, e) ↦
      rw (e, handle_slice)
        (elim (Option-cases (be_u16 req (at + 2))) [
          | inl e' ↦ rw e' unanswered
          | inr (n, e') ↦ rw e' (answer_slice-Fits make resp (get_range slice offset n))
        ])
]

-- What no request changes.
pub record Keeps (state state' : TuneState) : Type 0 where
  pub same_signature : state'.signature ≡ state.signature
  pub same_version : state'.firmware_version ≡ state.firmware_version
  pub same_outputs : state'.outputs ≡ state.outputs
  pub same_size : length state'.config ≡ length state.config

-- A state and a response after `state`.
pub data IsGood (state : TuneState) (resp : List ℕ) (result : TuneState × Response) : Type 0 where
  good : Keeps state result.0 → Fits resp result.1 → IsGood state resp result

module _ (state : TuneState) (resp : List ℕ) where
  Keeps-all : Keeps state state
  Keeps-all = record {
    same_signature = refl;
    same_version = refl;
    same_outputs = refl;
    same_size = refl;
  }

  if-IsGood :
      (b : Bool) (x y : TuneState × Response)
      → IsGood state resp x
      → IsGood state resp y
      → IsGood state resp (if b then x else y)
  if-IsGood true x y p q = p
  if-IsGood false x y p q = q

  write_config-IsGood :
      (offset : ℕ) (data_ : List ℕ) → IsGood state resp (write_config state resp offset data_)
  unfolding write_config
  write_config-IsGood offset data_ =
      elim (Bool-cases (ltb (length state.config) (offset + length data_))) [
        | inl e ↦ rw e (good Keeps-all (code_only-Fits resp 1))
        | inr e ↦ rw e (
            good
              (record {
                same_signature = refl;
                same_version = refl;
                same_outputs = refl;
                same_size =
                    length-copy_at state.config data_ offset
                      (ltb→le (length state.config) (offset + length data_) e);
              })
              (code_only-Fits resp 0))
      ]

  handle_write-IsGood : (req : List ℕ) → IsGood state resp (handle_write req state resp)
  unfolding handle_write
  handle_write-IsGood req = elim (Option-cases (be_u16 req 3)) [
    | inl e ↦ rw (e, handle_write) (good Keeps-all unanswered)
    | inr (offset, e) ↦
        rw (e, handle_write)
          (if-IsGood (ltb (length req) 5) (state, none)
            (write_config state resp offset (drop 5 req)) (good Keeps-all unanswered)
            (write_config-IsGood offset (drop 5 req)))
  ]

  -- Whatever bytes arrive as a request, the signature, the version, the outputs and the size of the
  -- configuration stay as they are; and the response, when there is one, is not empty, stands in the
  -- response buffer, and leaves that buffer its length.
  pub handle_request-IsGood : (req : List ℕ) → IsGood state resp (handle_request req state resp)
  unfolding handle_request dispatch
  handle_request-IsGood [] = good Keeps-all unanswered
  handle_request-IsGood (cmd ∷ args) =
      let req = cmd ∷ args in
      let id = λ (slice : List ℕ). slice in
      let burnt : Keeps state (record state { burn_pending = true }) = record {
        same_signature = refl;
        same_version = refl;
        same_outputs = refl;
        same_size = refl;
      } in
      if-IsGood _ _ _ (good Keeps-all (ok_with-Fits resp state.signature)) (
        if-IsGood _ _ _ (good Keeps-all (ok_with-Fits resp state.firmware_version)) (
          if-IsGood _ _ _ (good Keeps-all (ok_with-Fits resp (48 ∷ (48 ∷ (49 ∷ []))))) (
            if-IsGood _ _ _ (good Keeps-all (handle_slice-Fits id req 1 state.outputs resp)) (
              if-IsGood _ _ _ (good Keeps-all (handle_slice-Fits id req 3 state.config resp)) (
                if-IsGood _ _ _ (handle_write-IsGood req) (
                  if-IsGood _ _ _ (good burnt (code_only-Fits resp 0)) (
                    if-IsGood _ _ _
                      (good Keeps-all (
                        handle_slice-Fits (λ slice. u32_to_be (crc32 slice)) req 3 state.config
                          resp))
                      (good Keeps-all (code_only-Fits resp 4)))))))))
