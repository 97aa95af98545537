-- ===== src/EngineCore/Faults/Report.antt =====
-- What `raise` and `resolve` report.
use rust_ems.Base.{
  ℕ, ◌≡◌, ◌≢◌, sym, ap, ◌∙◌, inl, inr, [], ◌∷◌, ◌++◌, length, All, none, some, Bool, true, false,
  ◌&&◌, arith,
}
use rust_ems.Heapless.{HeaplessVec}
use rust_ems.EngineCore.Faults.{
  FaultStore, FaultRecord, Severity, has_code, raise_again, new_record, find_update, raise,
  push_new, resolve,
}
use rust_ems.EngineCore.Faults.Store.{
  IsDistinct, missing, at, find_update-Found, find_update_missing, All-middle, All-join,
  room_or_full,
}

abbrev is_set : ℕ → FaultRecord → Bool
is_set code rec = has_code code rec && rec.active

abbrev cleared : FaultRecord → FaultRecord
cleared rec = record rec { active = false }

distinct_behind :
    (front back : FaultStore) (x : FaultRecord)
    → IsDistinct (front ++ (x ∷ back))
    → All (λ (r : FaultRecord). r.code ≢ x.code) back
distinct_behind [] back x d = d.0
distinct_behind (r ∷ front) back x d = distinct_behind front back x d.1

other_codes :
    (code : ℕ) (back : FaultStore) (x : FaultRecord)
    → is_set code x ≡ true
    → All (λ (r : FaultRecord). r.code ≢ x.code) back
    → All (λ r. is_set code r ≡ false) back
other_codes code [] x hit h = tt
other_codes code (r ∷ back) x hit h = (ground (arith, h.0), other_codes code back x hit h.1)

resolve_missing :
    (store : FaultStore) (code : ℕ)
    → find_update (is_set code) cleared store ≡ none
    → resolve store code ≡ (store, false)
unfolding resolve
resolve_missing store code e = rw (e, resolve)

resolve_found :
    (store store' : FaultStore) (rec : FaultRecord) (code : ℕ)
    → find_update (is_set code) cleared store ≡ some (rec, store')
    → resolve store code ≡ (store', true)
unfolding resolve
resolve_found store store' rec code e = rw (e, resolve)

-- In a store where each code has one record, a `resolve` that reports a fault as cleared leaves it
-- cleared: the same `resolve` once more reports nothing and changes nothing.
pub resolve-resolve :
    (store store' : FaultStore) (code : ℕ)
    → IsDistinct store
    → resolve store code ≡ (store', true)
    → resolve store' code ≡ (store', false)
resolve-resolve store store' code d e = elim (find_update-Found (is_set code) cleared store) [
  | missing none_of eq ↦
      let unset = resolve_missing store code eq in
      let clash : true ≡ false = cc in absurd (ground arith)
  | at front back rec split before hit eq ↦
      let d' : IsDistinct (front ++ (rec ∷ back)) = rw⁻¹ split d in
      let behind = other_codes code back rec hit (distinct_behind front back rec d') in
      let off : is_set code (cleared rec) ≡ false = ground arith in
      let nothing = resolve_missing (front ++ (cleared rec ∷ back)) code (
        find_update_missing (is_set code) cleared (front ++ (cleared rec ∷ back))
          (All-join (λ r. is_set code r ≡ false) front back (cleared rec) before off behind)) in
      let found = resolve_found store (front ++ (cleared rec ∷ back)) rec code eq in
      let same : store' ≡ front ++ (cleared rec ∷ back) = cc in rw same nothing
]

-- A store that holds an active fault with this code.
resolve-middle :
    (front back : FaultStore) (x : FaultRecord) (code : ℕ)
    → is_set code x ≡ true
    → (resolve (front ++ (x ∷ back)) code).1 ≡ true
resolve-middle front back x code hit =
    elim (find_update-Found (is_set code) cleared (front ++ (x ∷ back))) [
      | missing none_of eq ↦
          let (_, off, _) = All-middle (λ r. is_set code r ≡ false) front back x none_of in
          let clash : true ≡ false = sym hit ∙ off in absurd (ground arith)
      | at _ _ _ _ _ _ eq ↦ ap (λ r. r.1) (resolve_found _ _ _ code eq)
    ]

-- A `raise` that reports a fault as new puts it into the store, or makes it active there again: the
-- next `resolve` of its code reports it as cleared.
pub resolve-raise :
    (V : HeaplessVec FaultRecord) (store : FaultStore) (code : ℕ) (severity : Severity)
    (detail now_ms : ℕ)
    → (raise V store code severity detail now_ms).1 ≡ true
    → (resolve (raise V store code severity detail now_ms).0 code).1 ≡ true
unfolding raise push_new
resolve-raise V store code severity detail now_ms e =
    elim (find_update-Found (has_code code) (raise_again severity detail now_ms) store) [
      | missing none_of eq ↦ elim (room_or_full (length store)) [
        | inl room ↦
            rw
              (
                eq,
                raise,
                V.push_fits 16 store (new_record code severity detail now_ms) room,
                push_new,
              )
              (resolve-middle store [] (new_record code severity detail now_ms) code (ground arith))
        | inr full ↦
            let refused : (raise V store code severity detail now_ms) ≡ (store, false) = rw (
              eq,
              raise,
              V.push_overflows 16 store (new_record code severity detail now_ms) full,
              push_new,
            ) in
            let clash : true ≡ false = sym e ∙ ap (λ r. r.1) refused in absurd (ground arith)
      ]
      | at front back rec split before hit eq ↦
          rw (eq, raise)
            (resolve-middle front back (raise_again severity detail now_ms rec) code (ground arith))
    ]
