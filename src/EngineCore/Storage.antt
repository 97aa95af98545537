-- ===== src/EngineCore/Storage.antt =====
-- engine-core/src/storage.rs: the key-value storage in memory. Its vectors are the crate heapless's.
-- `erase` and the layout of the fuel trims are not modelled.
pub mod ReadBack
mod Tests
use rust_ems.Base.{
  ℕ, zero, suc, ◌+◌, min, List, [], ◌∷◌, ◌++◌, length, take, drop, Bool, true, false, Option, none,
  some, Result, ok, err, ◌==◌, if◌then◌else◌,
}
use rust_ems.Heapless.{HeaplessVec}

pub data StorageError : Type 0 where
  write_failed read_failed invalid_data not_available : StorageError

-- `MemoryStorage` is its entries.
abbrev pub MemoryStorage : Type 0
MemoryStorage = List (ℕ × List ℕ)

-- The search of `read` and the loop of `write`: the first entry with this key.
pub find_entry : ℕ → MemoryStorage → Option (List ℕ)
find_entry key [] = none
find_entry key ((k, bytes) ∷ entries) =
    let later = find_entry key entries in if k == key then some bytes else later

pub replace_entry : ℕ → List ℕ → MemoryStorage → Option MemoryStorage
replace_entry key vec [] = none
replace_entry key vec ((k, bytes) ∷ entries) =
    let later = replace_entry key vec entries in
    if k == key
    then some ((k, vec) ∷ entries)
    else elim later [ none ↦ none | some entries' ↦ some ((k, bytes) ∷ entries') ]

-- The number of bytes, and the buffer.
pub read : MemoryStorage → ℕ → List ℕ → Result StorageError (ℕ × List ℕ)
unfolding find_entry
read storage key buffer = elim (find_entry key storage) [
  | none ↦ err read_failed
  | some bytes ↦
      let len = min (length bytes) (length buffer) in ok (len, take len bytes ++ drop len buffer)
]

module _ (B : HeaplessVec ℕ) where
  -- The loop over the bytes of `data`; the capacity is 256.
  pub push_bytes : List ℕ → List ℕ → Option (List ℕ)
  push_bytes vec [] = some vec
  push_bytes vec (byte ∷ data_) = elim (B.push 256 vec byte) [
    | none ↦ none
    | some vec' ↦ push_bytes vec' data_
  ]

module _ (V : HeaplessVec (ℕ × List ℕ)) where
  pub push_entry : MemoryStorage → ℕ → List ℕ → MemoryStorage × Result StorageError (Unit {0})
  push_entry storage key vec = elim (V.push 16 storage (key, vec)) [
    | none ↦ (storage, err write_failed)
    | some storage' ↦ (storage', ok tt)
  ]

  pub write_vec : MemoryStorage → ℕ → List ℕ → MemoryStorage × Result StorageError (Unit {0})
  unfolding replace_entry push_entry
  write_vec storage key vec = elim (replace_entry key vec storage) [
    | none ↦ push_entry storage key vec
    | some storage' ↦ (storage', ok tt)
  ]

-- `tt` is `()`.
module _ (B : HeaplessVec ℕ) (V : HeaplessVec (ℕ × List ℕ)) where
  pub write : MemoryStorage → ℕ → List ℕ → MemoryStorage × Result StorageError (Unit {0})
  unfolding push_bytes write_vec
  write storage key data_ = elim (push_bytes B [] data_) [
    | none ↦ (storage, err write_failed)
    | some vec ↦ write_vec V storage key vec
  ]
