-- ===== src/EngineCore/Faults/Clear.antt =====
-- What `clear_mask` removes, and the stores that can be reached.
use rust_ems.Base.{
  ℕ, ◌+◌, ◌^◌, ◌≤◌, ◌<◌, ◌≡◌, ◌≢◌, refl, sym, ap, ◌∙◌, inl, inr, [], ◌∷◌, length, All, min,
  Bool-cases, false, ◌||◌, if◌then◌else◌, ◌==◌, bit_and, arith,
}
use rust_ems.Heapless.{HeaplessVec, HeaplessRetain}
use rust_ems.EngineCore.Faults.{
  FaultStore, FaultRecord, Severity, new_store, raise, resolve, clear_step, clear_mask,
}
use rust_ems.EngineCore.Faults.Store.{IsDistinct, IsSound, raise-IsSound, resolve-IsSound}

-- The active records of a store, in order.
pub actives : FaultStore → FaultStore
actives [] = []
actives (rec ∷ records) = if rec.active then rec ∷ actives records else actives records

module _ (R : HeaplessRetain (ℕ × ℕ) FaultRecord) (mask : ℕ) where
  -- `retain` with the closure of `clear_mask`, from any state of the closure.
  record Retained (cleared idx : ℕ) (store store' : FaultStore) (total : ℕ) : Type 0 where
    same_actives : actives store' ≡ actives store
    counted : total + length store' ≡ cleared + length store
    shorter : length store' ≤ length store
    stays_fresh :
        (c : ℕ)
        → All (λ (r : FaultRecord). r.code ≢ c) store
        → All (λ (r : FaultRecord). r.code ≢ c) store'
    stays_counted :
        All (λ (r : FaultRecord). (0 < r.count) × (r.count < 65536)) store
        → All (λ (r : FaultRecord). (0 < r.count) × (r.count < 65536)) store'
    stays_distinct : IsDistinct store → IsDistinct store'

  retain-Retained :
      (store : FaultStore) (cleared idx : ℕ)
      → Retained cleared idx store
          (R.retain (clear_step mask) (cleared, idx) store).0
          (R.retain (clear_step mask) (cleared, idx) store).1.0
  unfolding actives
  retain-Retained [] cleared idx = rw (R.retain_empty (clear_step mask) (cleared, idx)) (record {
    same_actives = refl;
    counted = refl;
    shorter = omega arith;
    stays_fresh = λ c h. h;
    stays_counted = λ h. h;
    stays_distinct = λ d. d;
  })
  retain-Retained (rec ∷ records) cleared idx =
      elim (Bool-cases (rec.active || (bit_and mask (2 ^ min idx 31) == 0))) [
        | inl keep ↦
            let later = retain-Retained records cleared (idx + 1) in
            rw (R.retain_kept (clear_step mask) (cleared, idx) rec records keep, keep)
              (record {
                same_actives = ap (λ rs. if rec.active then rec ∷ rs else rs) later.same_actives;
                counted = omega (arith, later.counted);
                shorter = omega (arith, later.shorter);
                stays_fresh = λ c h. (h.0, later.stays_fresh c h.1);
                stays_counted = λ h. (h.0, later.stays_counted h.1);
                stays_distinct = λ d. (later.stays_fresh rec.code d.0, later.stays_distinct d.1);
              })
        | inr drop ↦
            let later = retain-Retained records (cleared + 1) (idx + 1) in
            let off : rec.active ≡ false = ground arith in
            rw (R.retain_dropped (clear_step mask) (cleared, idx) rec records drop, drop)
              (record {
                same_actives =
                    later.same_actives
                    ∙ sym (ap (λ b. if b then rec ∷ actives records else actives records) off);
                counted = omega (arith, later.counted);
                shorter = omega (arith, later.shorter);
                stays_fresh = λ c h. later.stays_fresh c h.1;
                stays_counted = λ h. later.stays_counted h.1;
                stays_distinct = λ d. later.stays_distinct d.1;
              })
      ]

-- `clear_mask` removes no active fault, keeps the active ones in their order, and answers the number
-- of records that it removed.
pub clear_mask_lem :
    (R : HeaplessRetain (ℕ × ℕ) FaultRecord) (store : FaultStore) (mask : ℕ)
    → (actives (clear_mask R store mask).0 ≡ actives store)
      × ((clear_mask R store mask).1 + length (clear_mask R store mask).0 ≡ length store)
unfolding clear_mask
clear_mask_lem R store mask =
    let all = retain-Retained R mask store 0 0 in (all.same_actives, omega (arith, all.counted))

clear_mask-IsSound :
    (R : HeaplessRetain (ℕ × ℕ) FaultRecord) (store : FaultStore) (mask : ℕ)
    → IsSound store
    → IsSound (clear_mask R store mask).0
unfolding clear_mask
clear_mask-IsSound R store mask s =
    let all = retain-Retained R mask store 0 0 in
    record {
      distinct = all.stays_distinct s.distinct;
      within = omega (arith, all.shorter, s.within);
      counted = all.stays_counted s.counted;
    }

-- The stores that calls of `raise`, `resolve` and `clear_mask` can lead to.
pub data Reachable (V : HeaplessVec FaultRecord) (R : HeaplessRetain (ℕ × ℕ) FaultRecord)
    : FaultStore → Type 0 where
  created : Reachable V R new_store
  raised :
      {store : FaultStore} (code : ℕ) (severity : Severity) (detail now_ms : ℕ)
      → Reachable V R store
      → Reachable V R (raise V store code severity detail now_ms).0
  resolved :
      {store : FaultStore} (code : ℕ) → Reachable V R store → Reachable V R (resolve store code).0
  masked :
      {store : FaultStore} (mask : ℕ)
      → Reachable V R store
      → Reachable V R (clear_mask R store mask).0

-- In every store that can be reached each code has one record, there are at most 16 records, and
-- every occurrence count is at least 1 and fits a u16.
pub Reachable-IsSound :
    (V : HeaplessVec FaultRecord) (R : HeaplessRetain (ℕ × ℕ) FaultRecord) {store : FaultStore}
    → Reachable V R store
    → IsSound store
Reachable-IsSound V R created = record { distinct = tt; within = omega arith; counted = tt }
Reachable-IsSound V R (raised code severity detail now_ms r) =
    raise-IsSound V _ code severity detail now_ms (Reachable-IsSound V R r)
Reachable-IsSound V R (resolved code r) = resolve-IsSound _ code (Reachable-IsSound V R r)
Reachable-IsSound V R (masked mask r) = clear_mask-IsSound R _ mask (Reachable-IsSound V R r)
