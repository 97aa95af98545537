-- ===== src/EngineCore/Storage/ReadBack.antt =====
-- What is read after a write.
use rust_ems.Base.{
  le_or_lt, ℕ, suc, ◌+◌, ◌≤◌, ◌<◌, ◌≡◌, ◌≢◌, ◌⊎◌, inl, inr, refl, sym, ap, ◌∙◌, min, List, [], ◌∷◌,
  ◌++◌, length, take, append-nil, take-append, append_assoc, length-append, Bool-cases, none, some,
  ok, err, ◌==◌, ==_iff, eq→==, ne→==, if◌then◌else◌, arith,
}
use rust_ems.Base.Buffer.{over}
use rust_ems.Heapless.{HeaplessVec}
use rust_ems.EngineCore.Storage.{
  write_failed, MemoryStorage, find_entry, replace_entry, read, push_bytes, push_entry, write_vec,
  write,
}

-- What a lookup sees after a replacement: the new bytes, and of other keys what was there.
data Replaced (key : ℕ) (vec : List ℕ) (storage : MemoryStorage) : Type 0 where
  absent :
      find_entry key storage ≡ none
      → replace_entry key vec storage ≡ none
      → Replaced key vec storage
  replaced :
      (storage' : MemoryStorage)
      → replace_entry key vec storage ≡ some storage'
      → find_entry key storage' ≡ some vec
      → ((other : ℕ) → key ≢ other → find_entry other storage' ≡ find_entry other storage)
      → Replaced key vec storage

replace_entry-Replaced :
    (key : ℕ) (vec : List ℕ) (storage : MemoryStorage) → Replaced key vec storage
unfolding find_entry replace_entry
replace_entry-Replaced key vec [] = absent refl refl
replace_entry-Replaced key vec ((k, bytes) ∷ entries) = elim (Bool-cases (k == key)) [
  | inl h ↦
      replaced ((k, vec) ∷ entries) (rw h) (rw h)
        (λ other ne. rw (ne→== k other (λ e. ne (sym ((==_iff k key).0 h) ∙ e))))
  | inr h ↦ elim (replace_entry-Replaced key vec entries) [
    | absent nowhere eq ↦ absent (rw (h, nowhere)) (rw (h, eq))
    | replaced entries' eq there others ↦
        replaced ((k, bytes) ∷ entries') (rw (h, eq)) (rw (h, there))
          (λ other ne. ap (λ later. if k == other then some bytes else later) (others other ne))
  ]
]

-- An entry behind the others.
find_entry-append :
    (key : ℕ) (vec : List ℕ) (storage : MemoryStorage)
    → find_entry key storage ≡ none
    → find_entry key (storage ++ ((key, vec) ∷ [])) ≡ some vec
unfolding find_entry
find_entry-append key vec [] e = rw (eq→== key key refl)
find_entry-append key vec ((k, bytes) ∷ entries) e =
    ground (arith, find_entry-append key vec entries)

find_entry-append_other :
    (key other : ℕ) (vec : List ℕ) (storage : MemoryStorage)
    → key ≢ other
    → find_entry other (storage ++ ((key, vec) ∷ [])) ≡ find_entry other storage
unfolding find_entry
find_entry-append_other key other vec [] ne = rw (ne→== key other ne)
find_entry-append_other key other vec ((k, bytes) ∷ entries) ne =
    ap (λ later. if k == other then some bytes else later)
      (find_entry-append_other key other vec entries ne)

module _ (B : HeaplessVec ℕ) where
  push_bytes_fits :
      (vec data_ : List ℕ)
      → length vec + length data_ ≤ 256
      → push_bytes B vec data_ ≡ some (vec ++ data_)
  unfolding push_bytes
  push_bytes_fits vec [] h = ap some (sym (append-nil vec))
  push_bytes_fits vec (b ∷ data_) h =
      rw (B.push_fits 256 vec b (omega arith), push_bytes)
        (push_bytes_fits (vec ++ (b ∷ [])) data_ (omega (arith, length-append vec (b ∷ [])))
          ∙ ap some (append_assoc vec (b ∷ []) data_))

  push_bytes_overflows :
      (vec data_ : List ℕ)
      → length vec ≤ 256
      → 256 < length vec + length data_
      → push_bytes B vec data_ ≡ none
  unfolding push_bytes
  push_bytes_overflows vec [] small h = absurd (omega arith)
  push_bytes_overflows vec (b ∷ data_) small h = elim (le_or_lt (suc (length vec)) 256) [
    | inl room ↦
        rw (B.push_fits 256 vec b (omega arith), push_bytes)
          (push_bytes_overflows (vec ++ (b ∷ [])) data_ (omega (arith, length-append vec (b ∷ [])))
            (omega (arith, length-append vec (b ∷ []))))
    | inr full ↦ rw (B.push_overflows 256 vec b (omega arith), push_bytes)
  ]

read_found :
    (storage : MemoryStorage) (key : ℕ) (bytes buffer : List ℕ)
    → find_entry key storage ≡ some bytes
    → length bytes ≤ length buffer
    → read storage key buffer ≡ ok (length bytes, over bytes buffer)
unfolding read
read_found storage key bytes buffer e room =
    let len : min (length bytes) (length buffer) ≡ length bytes = omega arith in
    let all : take (length bytes) bytes ≡ bytes =
      ap (take (length bytes)) (sym (append-nil bytes))
      ∙ take-append (length bytes) bytes [] refl in
    rw (e, read, len, all)

read_same :
    (storage storage' : MemoryStorage) (key : ℕ) (buffer : List ℕ)
    → find_entry key storage' ≡ find_entry key storage
    → read storage' key buffer ≡ read storage key buffer
unfolding read
read_same storage storage' key buffer e = rw (e, read)

module _ (B : HeaplessVec ℕ) (V : HeaplessVec (ℕ × List ℕ)) (storage : MemoryStorage) (key : ℕ)
    (data_ : List ℕ) where
  write_small :
      (h : length data_ ≤ 256) → write B V storage key data_ ≡ write_vec V storage key data_
  unfolding write
  write_small h = rw (push_bytes_fits B [] data_ (omega arith), write)

  -- A write of at most 256 bytes, under a key that is there already or with room for another entry,
  -- succeeds; a read of the key into a buffer with room then gives those bytes and leaves the rest of
  -- the buffer, and a read of any other key gives what it gave before.
  pub read-write :
      (other : ℕ) (buffer : List ℕ)
      → length data_ ≤ 256
      → (find_entry key storage ≢ none) ⊎ (length storage < 16)
      → length data_ ≤ length buffer
      → key ≢ other
      → (storage' : MemoryStorage) × (write B V storage key data_ ≡ (storage', ok tt))
        × (read storage' key buffer ≡ ok (length data_, over data_ buffer))
        × (read storage' other buffer ≡ read storage other buffer)
  unfolding write_vec push_entry
  read-write other buffer small room fits ne = elim (replace_entry-Replaced key data_ storage) [
    | replaced storage' eq there others ↦ (
      storage',
      write_small small ∙ rw (eq, write_vec),
      read_found storage' key data_ buffer there fits,
      read_same storage storage' other buffer (others other ne),
    )
    | absent nowhere eq ↦
        let free : length storage < 16 = elim room [
          | inl is_there ↦ absurd (is_there nowhere)
          | inr free ↦ free
        ] in
        let storage' = storage ++ ((key, data_) ∷ []) in
        (
          storage',
          write_small small
              ∙ rw (eq, write_vec, V.push_fits 16 storage (key, data_) free, push_entry),
          read_found storage' key data_ buffer (find_entry-append key data_ storage nowhere) fits,
          read_same storage storage' other buffer
              (find_entry-append_other key other data_ storage ne),
        )
  ]

  -- A write of more than 256 bytes fails, and the storage stays as it was.
  pub write_large : 256 < length data_ → write B V storage key data_ ≡ (storage, err write_failed)
  unfolding write
  write_large large = rw (push_bytes_overflows B [] data_ (omega arith) (omega arith), write)
