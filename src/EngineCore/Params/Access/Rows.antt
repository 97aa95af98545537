-- ===== src/EngineCore/Params/Access/Rows.antt =====
-- A table row by row, and a write into it.
use rust_ems.Base.{
  ℕ, zero, suc, ◌+◌, ◌*◌, ◌≤◌, ◌<◌, ◌≡◌, refl, sym, ap, ◌∙◌, List, [], ◌∷◌, ◌++◌, Bool, true, false,
  ◌&&◌, length, length-append, get_or, set, All, append-nil, append_assoc, arith,
}
use rust_ems.Heapless.{HeaplessVec}
use rust_ems.EngineCore.Config.{push_each_fits}
use rust_ems.EngineCore.Params.Access.{push_cells_2d}

pub and_parts : (a b : Bool) → a && b ≡ true → (a ≡ true) × (b ≡ true)
and_parts true b e = (refl, e)
and_parts false b e = absurd (ground (arith, e))

module _ {F : Type 0} where
  unfoldable pub flatten : List (List F) → List F
  flatten [] = []
  flatten (row ∷ table) = row ++ flatten table

  pub length-flatten :
      (c : ℕ) (table : List (List F))
      → All (λ row. length row ≡ c) table
      → length (flatten table) ≡ length table * c
  unfolding flatten
  length-flatten c [] all = omega arith
  length-flatten c (row ∷ table) all =
      let rest = length-flatten c table all.1 in
      length-append row (flatten table) ∙ omega (arith, all.0, rest)

  set-append_left :
      (xs ys : List F) (n : ℕ) (v : F) → n < length xs → set (xs ++ ys) n v ≡ set xs n v ++ ys
  set-append_left [] ys n v h = absurd (omega arith)
  set-append_left (x ∷ xs) ys zero v h = refl
  set-append_left (x ∷ xs) ys (suc n) v h =
      ap (λ zs. x ∷ zs) (set-append_left xs ys n v (omega arith))

  set-append_right :
      (xs ys : List F) (n m : ℕ) (v : F) → m ≡ length xs + n → set (xs ++ ys) m v ≡ xs ++ set ys n v
  set-append_right [] ys n m v e = ap (λ k. set ys k v) (omega (arith, e))
  set-append_right (x ∷ xs) ys n zero v e = absurd (omega arith)
  set-append_right (x ∷ xs) ys n (suc m) v e =
      ap (λ zs. x ∷ zs) (set-append_right xs ys n m v (omega arith))

  pub flatten-set :
      (c : ℕ) (table : List (List F)) (row col : ℕ) (v : F)
      → All (λ r. length r ≡ c) table
      → row < length table
      → col < c
      → flatten (set table row (set (get_or table row []) col v))
        ≡ set (flatten table) (row * c + col) v
  unfolding flatten
  flatten-set c [] row col v all h g = absurd (omega arith)
  flatten-set c (r ∷ table) zero col v all h g = sym (
      ap (λ k. set (r ++ flatten table) k v) (omega arith)
      ∙ set-append_left r (flatten table) col v (omega (arith, all.0)))
  flatten-set c (r ∷ table) (suc row) col v all h g =
      ap (λ zs. r ++ zs) (flatten-set c table row col v all.1 (omega arith) g)
      ∙ sym (
          set-append_right r (flatten table) (row * c + col) (suc row * c + col) v
            (omega (arith, all.0)))

  pub push_cells_2d_fits :
      (V : HeaplessVec F) (dst : List F) (table : List (List F))
      → length dst + length (flatten table) ≤ 256
      → push_cells_2d V dst table ≡ dst ++ flatten table
  unfolding push_cells_2d flatten
  push_cells_2d_fits V dst [] h = sym (append-nil dst)
  push_cells_2d_fits V dst (row ∷ table) h =
      let size = length-append row (flatten table) in
      let first = push_each_fits V 256 dst row (omega arith) in
      rw first (
        push_cells_2d_fits V (dst ++ row) table (omega (arith, length-append dst row))
        ∙ append_assoc dst row (flatten table))
