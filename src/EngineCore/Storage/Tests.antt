-- ===== src/EngineCore/Storage/Tests.antt =====
-- The storage's theorems at concrete inputs.
use rust_ems.Base.{◌≡◌, inr, [], ◌∷◌, replicate, ok, arith}
use rust_ems.Base.Buffer.{over}
use rust_ems.Heapless.{list_vec}
use rust_ems.EngineCore.Storage.{MemoryStorage, read, write}
use rust_ems.EngineCore.Storage.ReadBack.{read-write}

abbrev one_entry : MemoryStorage
one_entry = (5, 1 ∷ (2 ∷ [])) ∷ []

read-write_example :
    (storage' : MemoryStorage) × (write list_vec list_vec one_entry 7 (9 ∷ []) ≡ (storage', ok tt))
    × (read storage' 7 (replicate 3 0) ≡ ok (1, over (9 ∷ []) (replicate 3 0)))
    × (read storage' 5 (replicate 3 0) ≡ read one_entry 5 (replicate 3 0))
read-write_example =
    read-write list_vec list_vec one_entry 7 (9 ∷ []) 5 (replicate 3 0) (omega arith)
      (inr (omega arith)) (omega arith) (λ e. absurd (omega (arith, e)))
