-- ===== src/EngineCore/Faults.antt =====
-- engine-core/src/comms/faults.rs: the store of fault records and the queue of events. The vector and
-- the deque are the crate heapless's. Codes and details are u16, times u32: no arithmetic but that
-- written out.
pub mod Store
pub mod Report
pub mod Clear
pub mod Events
mod Tests
use rust_ems.Base.{
  ℕ, zero, suc, ◌+◌, ◌^◌, min, List, [], ◌∷◌, length, Bool, true, false, not, ◌||◌, ◌&&◌, Option,
  none, some, ◌==◌, if◌then◌else◌, bit_and,
}
use rust_ems.Base.Words.{u16_saturating_add}
use rust_ems.Heapless.{HeaplessVec, HeaplessDeque, HeaplessRetain}

abbrev pub max_faults : ℕ
max_faults = 16

abbrev pub max_events : ℕ
max_events = 8

pub data Severity : Type 0 where
  info warn critical : Severity

pub record FaultRecord : Type 0 where
  pub code : ℕ
  pub severity : Severity
  pub active : Bool
  pub count : ℕ
  pub first_ts_ms : ℕ
  pub last_ts_ms : ℕ
  pub detail : ℕ

-- `FaultStore` is its records.
abbrev pub FaultStore : Type 0
FaultStore = List FaultRecord

abbrev pub new_store : FaultStore
new_store = []

-- `records.iter_mut().find(p)` and a write to what it finds: that record as it was, and the store
-- with `change` made to it.
pub find_update :
    (FaultRecord → Bool)
    → (FaultRecord → FaultRecord)
    → FaultStore
    → Option (FaultRecord × FaultStore)
find_update p change [] = none
find_update p change (rec ∷ records) =
    let later = find_update p change records in
    if p rec
    then some (rec, change rec ∷ records)
    else elim later [ none ↦ none | some (found, records') ↦ some (found, rec ∷ records') ]

abbrev pub has_code : ℕ → FaultRecord → Bool
has_code code rec = rec.code == code

-- The writes to a record that is there.
abbrev pub raise_again : Severity → ℕ → ℕ → FaultRecord → FaultRecord
raise_again severity detail now_ms rec = record rec {
  active = true;
  severity = severity;
  count = u16_saturating_add rec.count 1;
  last_ts_ms = now_ms;
  detail = detail;
}

abbrev pub new_record : ℕ → Severity → ℕ → ℕ → FaultRecord
new_record code severity detail now_ms = record {
  code = code;
  severity = severity;
  active = true;
  count = 1;
  first_ts_ms = now_ms;
  last_ts_ms = now_ms;
  detail = detail;
}

module _ (V : HeaplessVec FaultRecord) where
  -- `self.records.push(rec).is_ok()`
  pub push_new : FaultStore → FaultRecord → FaultStore × Bool
  push_new store rec = elim (V.push max_faults store rec) [
    | none ↦ (store, false)
    | some store' ↦ (store', true)
  ]

  pub raise : FaultStore → ℕ → Severity → ℕ → ℕ → FaultStore × Bool
  unfolding find_update push_new
  raise store code severity detail now_ms =
      elim (find_update (has_code code) (raise_again severity detail now_ms) store) [
        | some (rec, store') ↦ (store', not rec.active)
        | none ↦ push_new store (new_record code severity detail now_ms)
      ]

pub resolve : FaultStore → ℕ → FaultStore × Bool
unfolding find_update
resolve store code =
    elim (find_update (λ rec. has_code code rec && rec.active)
      (λ rec. record rec { active = false }) store) [
        | some (_, store') ↦ (store', true)
        | none ↦ (store, false)
      ]

-- The closure of `clear_mask`; its state is `cleared` and `idx`, both below 2 ^ 16, since the store
-- has at most 16 records.
abbrev pub clear_step : ℕ → ℕ × ℕ → FaultRecord → Bool × (ℕ × ℕ)
clear_step mask (cleared, idx) rec =
    let keep = rec.active || (bit_and mask (2 ^ min idx 31) == 0) in
    (keep, ((if keep then cleared else cleared + 1), idx + 1))

module _ (R : HeaplessRetain (ℕ × ℕ) FaultRecord) where
  pub clear_mask : FaultStore → ℕ → FaultStore × ℕ
  clear_mask store mask =
      let (store', state) = R.retain (clear_step mask) (0, 0) store in (store', state.0)

pub data EventKind : Type 0 where
  fault_set fault_cleared knock protection_cut limp_mode sync_state config_changed : EventKind

-- `a` and `b` are i32 that the queue only stores: `I`.
pub record EventRecord (I : Type 0) : Type 0 where
  pub kind : EventKind
  pub ts_ms : ℕ
  pub a : I
  pub b : I

module _ {I : Type 0} (Q : HeaplessDeque (EventRecord I)) where
  -- The two calls on a full queue, whose results are ignored.
  pub push_dropping : List (EventRecord I) → EventRecord I → List (EventRecord I)
  push_dropping queue rec =
      let popped : List (EventRecord I) = elim (Q.pop_front queue) [
        | none ↦ queue
        | some (_, rest) ↦ rest
      ] in
      elim (Q.push_back max_events popped rec) [ none ↦ popped | some queue' ↦ queue' ]

  pub push : List (EventRecord I) → EventKind → ℕ → I → I → List (EventRecord I)
  unfolding push_dropping
  push queue kind ts_ms a b =
      let rec : EventRecord I = record { kind = kind; ts_ms = ts_ms; a = a; b = b } in
      elim (Q.push_back max_events queue rec) [
        | none ↦ push_dropping queue rec
        | some queue' ↦ queue'
      ]

  pub pop : List (EventRecord I) → List (EventRecord I) × Option (EventRecord I)
  pop queue = elim (Q.pop_front queue) [
    | none ↦ (queue, none)
    | some (rec, rest) ↦ (rest, some rec)
  ]
