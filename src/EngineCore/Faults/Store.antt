-- ===== src/EngineCore/Faults/Store.antt =====
-- The store's invariant, which every operation keeps, and what `raise` and `resolve` report.
use rust_ems.Base.{
  ℕ, ◌≤◌, ◌<◌, ◌≡◌, ◌≢◌, refl, sym, ap, ◌⊎◌, inl, inr, [], ◌∷◌, ◌++◌, length, All, length-append,
  Bool-cases, none, some, Bool, true, false, ◌&&◌, arith,
}
use rust_ems.Heapless.{HeaplessVec}
use rust_ems.EngineCore.Faults.{
  FaultStore, FaultRecord, Severity, max_faults, has_code, raise_again, new_record, find_update,
  raise, push_new, resolve,
}

-- The record of a code is unique.
abbrev pub IsDistinct : FaultStore → Type 0
IsDistinct [] = Unit
IsDistinct (rec ∷ records) =
    All (λ (r : FaultRecord). r.code ≢ rec.code) records × IsDistinct records

-- What holds of a store at all times.
pub record IsSound (store : FaultStore) : Type 0 where
  pub distinct : IsDistinct store
  pub within : length store ≤ max_faults
  pub counted : All (λ (r : FaultRecord). (0 < r.count) × (r.count < 65536)) store

-- A record of a store, and what stands before and behind it.
pub All-middle :
    (P : FaultRecord → Type 0) (front back : FaultStore) (x : FaultRecord)
    → All P (front ++ (x ∷ back))
    → All P front × P x × All P back
All-middle P [] back x h = (tt, h.0, h.1)
All-middle P (r ∷ front) back x h =
    let (f, here, b) = All-middle P front back x h.1 in ((h.0, f), here, b)

pub All-join :
    (P : FaultRecord → Type 0) (front back : FaultStore) (x : FaultRecord)
    → All P front
    → P x
    → All P back
    → All P (front ++ (x ∷ back))
All-join P [] back x f here b = (here, b)
All-join P (r ∷ front) back x f here b = (f.0, All-join P front back x f.1 here b)

-- The first record that `p` accepts is changed, or there is none.
pub data Found (p : FaultRecord → Bool) (change : FaultRecord → FaultRecord) (store : FaultStore)
    : Type 0 where
  missing : All (λ r. p r ≡ false) store → find_update p change store ≡ none → Found p change store
  at :
      (front back : FaultStore) (rec : FaultRecord)
      → store ≡ front ++ (rec ∷ back)
      → All (λ r. p r ≡ false) front
      → p rec ≡ true
      → find_update p change store ≡ some (rec, front ++ (change rec ∷ back))
      → Found p change store

module _ (p : FaultRecord → Bool) (change : FaultRecord → FaultRecord) where
  pub find_update-Found : (store : FaultStore) → Found p change store
  unfolding find_update
  find_update-Found [] = missing tt refl
  find_update-Found (rec ∷ records) = elim (Bool-cases (p rec)) [
    | inl e ↦ at [] records rec refl tt e (rw e)
    | inr e ↦ elim (find_update-Found records) [
      | missing none_of eq ↦ missing (e, none_of) (rw (e, eq))
      | at front back found split before hit eq ↦
          at (rec ∷ front) back found (ap (λ rs. rec ∷ rs) split) (e, before) hit (rw (e, eq))
    ]
  ]

  pub find_update_missing :
      (store : FaultStore) → All (λ r. p r ≡ false) store → find_update p change store ≡ none
  unfolding find_update
  find_update_missing [] h = refl
  find_update_missing (rec ∷ records) h = rw (h.0, find_update_missing records h.1)

-- A record with the same code in the place of another.
swap-IsDistinct :
    (front back : FaultStore) (x y : FaultRecord)
    → y.code ≡ x.code
    → IsDistinct (front ++ (x ∷ back))
    → IsDistinct (front ++ (y ∷ back))
swap-IsDistinct [] back x y e h = (rw e h.0, h.1)
swap-IsDistinct (r ∷ front) back x y e h =
    let (f, here, b) = All-middle (λ (s : FaultRecord). s.code ≢ r.code) front back x h.0 in
    let here' : y.code ≢ r.code = rw e here in
    (
      All-join (λ (s : FaultRecord). s.code ≢ r.code) front back y f here' b,
      swap-IsDistinct front back x y e h.1,
    )

-- A record with a new code behind the others.
add-IsDistinct :
    (store : FaultStore) (x : FaultRecord)
    → IsDistinct store
    → All (λ (r : FaultRecord). r.code ≢ x.code) store
    → IsDistinct (store ++ (x ∷ []))
add-IsDistinct [] x h fresh = (tt, tt)
add-IsDistinct (r ∷ store) x h fresh = (
  All-join (λ (s : FaultRecord). s.code ≢ r.code) store [] x h.0 (λ q. fresh.0 (sym q)) tt,
  add-IsDistinct store x h.1 fresh.1,
)

-- A record whose code and count stay in bounds, in the place of another.
swap-IsSound :
    (front back : FaultStore) (x y : FaultRecord)
    → y.code ≡ x.code
    → (0 < y.count) × (y.count < 65536)
    → IsSound (front ++ (x ∷ back))
    → IsSound (front ++ (y ∷ back))
swap-IsSound front back x y e bounds s =
    let (f, _, b) =
      All-middle (λ (r : FaultRecord). (0 < r.count) × (r.count < 65536)) front back x s.counted in
    record {
      distinct = swap-IsDistinct front back x y e s.distinct;
      within =
          omega (arith, s.within, length-append front (x ∷ back), length-append front (y ∷ back));
      counted =
          All-join (λ (r : FaultRecord). (0 < r.count) × (r.count < 65536)) front back y f bounds b;
    }

add-IsSound :
    (store : FaultStore) (x : FaultRecord)
    → x.count ≡ 1
    → length store < 16
    → All (λ (r : FaultRecord). r.code ≢ x.code) store
    → IsSound store
    → IsSound (store ++ (x ∷ []))
add-IsSound store x one room fresh s = record {
  distinct = add-IsDistinct store x s.distinct fresh;
  within = omega (arith, length-append store (x ∷ []));
  counted =
      All-join (λ (r : FaultRecord). (0 < r.count) × (r.count < 65536)) store [] x s.counted
        (omega (arith, one), omega (arith, one)) tt;
}

fresh_codes :
    (code : ℕ) (store : FaultStore)
    → All (λ r. has_code code r ≡ false) store
    → All (λ (r : FaultRecord). r.code ≢ code) store
fresh_codes code [] h = tt
fresh_codes code (r ∷ store) h = ((ground (arith, h.0)), fresh_codes code store h.1)

-- Resolving keeps the store sound.
pub resolve-IsSound :
    (store : FaultStore) (code : ℕ) → IsSound store → IsSound (resolve store code).0
unfolding resolve
resolve-IsSound store code s =
    elim (find_update-Found (λ rec. has_code code rec && rec.active)
      (λ rec. record rec { active = false }) store) [
        | missing none_of eq ↦ rw (eq, resolve) s
        | at front back rec split before hit eq ↦
            let s' : IsSound (front ++ (rec ∷ back)) = rw⁻¹ split s in
            let (_, bounds, _) =
              All-middle (λ (r : FaultRecord). (0 < r.count) × (r.count < 65536)) front back rec
                s'.counted in
            rw (eq, resolve)
              (swap-IsSound front back rec (record rec { active = false }) refl bounds s')
      ]

pub room_or_full : (n : ℕ) → (n < 16) ⊎ (16 ≤ n)
room_or_full n = ground arith

module _ (V : HeaplessVec FaultRecord) (store : FaultStore) (code : ℕ) (severity : Severity)
    (detail now_ms : ℕ) where
  -- Raising a fault keeps the store sound.
  pub raise-IsSound : IsSound store → IsSound (raise V store code severity detail now_ms).0
  unfolding raise push_new
  raise-IsSound s =
      elim (find_update-Found (has_code code) (raise_again severity detail now_ms) store) [
        | missing none_of eq ↦ elim (room_or_full (length store)) [
          | inl room ↦
              rw
                (
                  eq,
                  raise,
                  V.push_fits 16 store (new_record code severity detail now_ms) room,
                  push_new,
                )
                (add-IsSound store (new_record code severity detail now_ms) refl room
                  (fresh_codes code store none_of) s)
          | inr full ↦
              rw
                (
                  eq,
                  raise,
                  V.push_overflows 16 store (new_record code severity detail now_ms) full,
                  push_new,
                )
                s
        ]
        | at front back rec split before hit eq ↦
            let s' : IsSound (front ++ (rec ∷ back)) = rw⁻¹ split s in
            rw (eq, raise)
              (swap-IsSound front back rec (raise_again severity detail now_ms rec) refl
                (omega arith, omega arith) s')
      ]
