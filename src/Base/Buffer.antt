-- ===== src/Base/Buffer.antt =====
-- A mutable slice `&mut [u8]` as a list of fixed length: writes by index, and what they leave.
use Prim.Native.Nat.{ℕ, zero, suc, ◌+◌, ◌≤◌, ◌<◌}
use mathlib.Core.Path.{◌≡◌, refl, ap, sym, ◌∙◌}
use mathlib.Core.List.{List, [], ◌∷◌, ◌++◌, append_assoc}
use native.Mathlib.Omega.{arith}
use rust_ems.Base.Lists.{
  length, set, take, drop, get_or, length-append, length-drop, length-take, drop-drop, take-append,
  drop-append, drop_cons,
}

-- `buf[at..at + xs.len()].copy_from_slice(xs)`
abbrev pub copy_at : List ℕ → ℕ → List ℕ → List ℕ
copy_at buf at xs = take at buf ++ (xs ++ drop (at + length xs) buf)

-- What overwriting the front of `buf` by `xs` leaves.
abbrev pub over : List ℕ → List ℕ → List ℕ
over xs buf = xs ++ drop (length xs) buf

pub set-append :
    (xs ys : List ℕ) (y n v : ℕ) → n ≡ length xs → set (xs ++ (y ∷ ys)) n v ≡ xs ++ (v ∷ ys)
set-append [] ys y zero v e = refl
set-append [] ys y (suc n) v e = absurd (omega arith)
set-append (x ∷ xs) ys y zero v e = absurd (omega arith)
set-append (x ∷ xs) ys y (suc n) v e = ap (λ zs. x ∷ zs) (set-append xs ys y n v (omega arith))

pub length-over : (xs buf : List ℕ) → length xs ≤ length buf → length (over xs buf) ≡ length buf
length-over xs buf h =
    omega (arith, length-append xs (drop (length xs) buf), length-drop (length xs) buf)

pub get_or-append : (xs ys : List ℕ) (y n d : ℕ) → n ≡ length xs → get_or (xs ++ (y ∷ ys)) n d ≡ y
get_or-append [] ys y zero d e = refl
get_or-append [] ys y (suc n) d e = absurd (omega arith)
get_or-append (x ∷ xs) ys y zero d e = absurd (omega arith)
get_or-append (x ∷ xs) ys y (suc n) d e = get_or-append xs ys y n d (omega arith)

-- A front as long as the one it replaces.
pub over-append :
    (xs ys more buf : List ℕ)
    → length xs ≡ length ys
    → over (xs ++ more) (ys ++ buf) ≡ xs ++ over more buf
over-append [] [] more buf e = refl
over-append [] (y ∷ ys) more buf e = absurd (omega arith)
over-append (x ∷ xs) [] more buf e = absurd (omega arith)
over-append (x ∷ xs) (y ∷ ys) more buf e =
    ap (λ zs. x ∷ zs) (over-append xs ys more buf (omega arith))

-- What is overwritten does not matter.
pub drop-prefix :
    (n : ℕ) (xs ys buf : List ℕ)
    → length xs ≡ length ys
    → length xs ≤ n
    → drop n (xs ++ buf) ≡ drop n (ys ++ buf)
drop-prefix n [] [] buf e h = refl
drop-prefix n [] (y ∷ ys) buf e h = absurd (omega arith)
drop-prefix n (x ∷ xs) [] buf e h = absurd (omega arith)
drop-prefix zero (x ∷ xs) (y ∷ ys) buf e h = absurd (omega arith)
drop-prefix (suc n) (x ∷ xs) (y ∷ ys) buf e h = drop-prefix n xs ys buf (omega arith) (omega arith)

pub over-prefix :
    (front xs ys buf : List ℕ)
    → length xs ≡ length ys
    → length xs ≤ length front
    → over front (xs ++ buf) ≡ over front (ys ++ buf)
over-prefix front xs ys buf e h = ap (λ zs. front ++ zs) (drop-prefix (length front) xs ys buf e h)

-- Two writes one behind the other are one write.
pub over-more :
    (done xs ys buf : List ℕ)
    → (done ++ xs) ++ over ys (drop (length xs) buf) ≡ done ++ over (xs ++ ys) buf
over-more done xs ys buf =
    append_assoc done xs (over ys (drop (length xs) buf))
    ∙ (λ i. done ++ (xs ++ (ys ++ tails i)))
    ∙ ap (λ zs. done ++ zs) (sym (append_assoc xs ys (drop (length (xs ++ ys)) buf)))
  where
    tails : drop (length ys) (drop (length xs) buf) ≡ drop (length (xs ++ ys)) buf
    tails = drop-drop (length ys) (length xs) buf ∙ ap (λ n. drop n buf) (sym (length-append xs ys))

-- A write right behind what was written.
pub copy_at-over :
    (xs ys buf : List ℕ) (n : ℕ) → n ≡ length xs → copy_at (over xs buf) n ys ≡ over (xs ++ ys) buf
copy_at-over xs ys buf n e =
    (λ i. take-append n xs (drop (length xs) buf) e i ++ (ys ++ tails i))
    ∙ sym (append_assoc xs ys (drop (length (xs ++ ys)) buf))
  where
    tails : drop (n + length ys) (over xs buf) ≡ drop (length (xs ++ ys)) buf
    tails =
        sym (drop-drop (length ys) n (over xs buf))
        ∙ ap (drop (length ys)) (drop-append n xs (drop (length xs) buf) e)
        ∙ drop-drop (length ys) (length xs) buf
        ∙ ap (λ k. drop k buf) (sym (length-append xs ys))

pub set-over :
    (xs buf : List ℕ) (n v : ℕ)
    → n ≡ length xs
    → n < length buf
    → set (over xs buf) n v ≡ over (xs ++ (v ∷ [])) buf
set-over xs buf n v e h =
    let (y, cons) = drop_cons (length xs) buf (omega arith) in
    let k : length (xs ++ (v ∷ [])) ≡ suc (length xs) = omega (arith, length-append xs (v ∷ [])) in
    ap (λ zs. set (xs ++ zs) n v) cons
    ∙ set-append xs (drop (suc (length xs)) buf) y n v e
    ∙ sym (append_assoc xs (v ∷ []) (drop (suc (length xs)) buf))
    ∙ ap (λ j. (xs ++ (v ∷ [])) ++ drop j buf) (sym k)

pub get_or-behind :
    (xs ys : List ℕ) (k i d : ℕ) → k ≡ length xs + i → get_or (xs ++ ys) k d ≡ get_or ys i d
get_or-behind [] ys k i d e = let same : k ≡ i = omega (arith, e) in ap (λ j. get_or ys j d) same
get_or-behind (x ∷ xs) ys zero i d e = absurd (omega arith)
get_or-behind (x ∷ xs) ys (suc k) i d e = get_or-behind xs ys k i d (omega arith)

pub length-copy_at :
    (buf xs : List ℕ) (at : ℕ)
    → at + length xs ≤ length buf
    → length (copy_at buf at xs) ≡ length buf
length-copy_at buf xs at h = omega (
  arith,
  length-append (take at buf) (xs ++ drop (at + length xs) buf),
  length-append xs (drop (at + length xs) buf),
  length-drop (at + length xs) buf,
  length-take at buf,
)

-- What was written is read back.
pub range-copy_at :
    (buf xs : List ℕ) (at n : ℕ)
    → n ≡ length xs
    → at ≤ length buf
    → take n (drop at (copy_at buf at xs)) ≡ xs
range-copy_at buf xs at n e h =
    ap (take n) (
      drop-append at (take at buf) (xs ++ drop (at + length xs) buf)
        (omega (arith, length-take at buf)))
    ∙ take-append n xs (drop (at + length xs) buf) e
