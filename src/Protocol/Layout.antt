-- ===== src/Protocol/Layout.antt =====
-- What a packet is, and what the readers of either end find in it.
use rust_ems.Base.{
  ℕ, zero, suc, ◌+◌, ◌/◌, ◌%◌, ◌<◌, ◌≡◌, refl, ap, ◌∙◌, List, ◌∷◌, ◌++◌, length, take, drop, get_or,
  length-append, append_assoc, take-append, arith,
}
use rust_ems.Base.Buffer.{get_or-behind}
use rust_ems.Base.Words.{u32_to_be, u32_from_be, u32_from-to}

module _ (crc32 : List ℕ → ℕ) (payload : List ℕ) where
  abbrev pub packet : List ℕ
  packet =
      length payload / 256 % 256 ∷ (length payload % 256 ∷ (payload ++ u32_to_be (crc32 payload)))

  pub length-packet : length packet ≡ length payload + 6
  length-packet = omega (arith, length-append payload (u32_to_be (crc32 payload)))

  module _ (rest : List ℕ) where
    behind :
        (payload ++ u32_to_be (crc32 payload)) ++ rest
        ≡ payload ++ (u32_to_be (crc32 payload) ++ rest)
    behind = append_assoc payload (u32_to_be (crc32 payload)) rest

    pub take-packet : take (length payload) (drop 2 (packet ++ rest)) ≡ payload
    take-packet = ap (take (length payload)) behind ∙ take-append (length payload) payload _ refl

    crc_byte :
        (k i : ℕ)
        → k ≡ 2 + length payload + i
        → get_or (packet ++ rest) k 0 ≡ get_or (u32_to_be (crc32 payload) ++ rest) i 0
    crc_byte zero i e = absurd (omega arith)
    crc_byte (suc zero) i e = absurd (omega arith)
    crc_byte (suc (suc k)) i e =
        ap (λ zs. get_or zs k 0) behind ∙ get_or-behind payload _ k i 0 (omega arith)

    pub crc-packet :
        (at : ℕ)
        → at ≡ 2 + length payload
        → crc32 payload < 4294967296
        → u32_from_be
            (get_or (packet ++ rest) at 0)
            (get_or (packet ++ rest) (at + 1) 0)
            (get_or (packet ++ rest) (at + 2) 0)
            (get_or (packet ++ rest) (at + 3) 0)
          ≡ crc32 payload
    crc-packet at e small =
        (λ i.
          u32_from_be (crc_byte at 0 (omega arith) i) (crc_byte (at + 1) 1 (omega arith) i)
            (crc_byte (at + 2) 2 (omega arith) i) (crc_byte (at + 3) 3 (omega arith) i))
        ∙ u32_from-to (crc32 payload) small
