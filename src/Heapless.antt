-- ===== src/Heapless.antt =====
-- The crate `heapless`, which the sources call and do not contain: a vector of capacity `n` is the
-- list of its elements, and its operations enter the model as this record. The laws are what the
-- crate documents of them.
use rust_ems.Base.{
  ℕ, ◌+◌, ◌≤◌, ◌<◌, ◌≡◌, List, [], ◌∷◌, ◌++◌, length, Option, none, some, leb, ltb, if◌then◌else◌,
  refl, Bool, true, false, le→leb, lt→leb, le→ltb, lt→ltb,
}

pub record HeaplessVec (A : Type 0) : Type 0 where
  -- `Err` when the elements do not fit; the vector is then as it was.
  pub extend_from_slice : ℕ → List A → List A → Option (List A)
  pub push : ℕ → List A → A → Option (List A)
  pub extend_fits :
      (n : ℕ) (v xs : List A) → length v + length xs ≤ n → extend_from_slice n v xs ≡ some (v ++ xs)
  pub extend_overflows :
      (n : ℕ) (v xs : List A) → n < length v + length xs → extend_from_slice n v xs ≡ none
  pub push_fits : (n : ℕ) (v : List A) (x : A) → length v < n → push n v x ≡ some (v ++ (x ∷ []))
  pub push_overflows : (n : ℕ) (v : List A) (x : A) → n ≤ length v → push n v x ≡ none

-- The laws can be met.
module _ {A : Type 0} where
  list_extend : ℕ → List A → List A → Option (List A)
  list_extend n v xs = if leb (length v + length xs) n then some (v ++ xs) else none

  list_push : ℕ → List A → A → Option (List A)
  list_push n v x = if ltb (length v) n then some (v ++ (x ∷ [])) else none

  list_extend_fits :
      (n : ℕ) (v xs : List A) → length v + length xs ≤ n → list_extend n v xs ≡ some (v ++ xs)
  unfolding list_extend
  list_extend_fits n v xs h = rw (le→leb (length v + length xs) n h)

  list_extend_overflows :
      (n : ℕ) (v xs : List A) → n < length v + length xs → list_extend n v xs ≡ none
  unfolding list_extend
  list_extend_overflows n v xs h = rw (lt→leb (length v + length xs) n h)

  list_push_fits :
      (n : ℕ) (v : List A) (x : A) → length v < n → list_push n v x ≡ some (v ++ (x ∷ []))
  unfolding list_push
  list_push_fits n v x h = rw (lt→ltb (length v) n h)

  list_push_overflows : (n : ℕ) (v : List A) (x : A) → n ≤ length v → list_push n v x ≡ none
  unfolding list_push
  list_push_overflows n v x h = rw (le→ltb (length v) n h)

  unfoldable pub list_vec : HeaplessVec A
  unfolding list_extend list_push list_extend_fits list_extend_overflows list_push_fits
      list_push_overflows
  list_vec = record {
    extend_from_slice = list_extend;
    push = list_push;
    extend_fits = list_extend_fits;
    extend_overflows = list_extend_overflows;
    push_fits = list_push_fits;
    push_overflows = list_push_overflows;
  }

-- `Deque`, as the list of its elements from front to back.
pub record HeaplessDeque (A : Type 0) : Type 0 where
  pub push_back : ℕ → List A → A → Option (List A)
  pub pop_front : List A → Option (A × List A)
  pub back_fits :
      (n : ℕ) (q : List A) (x : A) → length q < n → push_back n q x ≡ some (q ++ (x ∷ []))
  pub back_overflows : (n : ℕ) (q : List A) (x : A) → n ≤ length q → push_back n q x ≡ none
  pub front_empty : pop_front [] ≡ none
  pub front_first : (x : A) (q : List A) → pop_front (x ∷ q) ≡ some (x, q)

-- `Vec::retain` with a closure whose state is `S`: it visits the elements in order and keeps those
-- that the closure accepts.
pub record HeaplessRetain (S A : Type 0) : Type 0 where
  pub retain : (S → A → Bool × S) → S → List A → List A × S
  pub retain_empty : (f : S → A → Bool × S) (s : S) → retain f s [] ≡ ([], s)
  pub retain_kept :
      (f : S → A → Bool × S) (s : S) (x : A) (xs : List A)
      → (f s x).0 ≡ true
      → retain f s (x ∷ xs) ≡ (x ∷ (retain f (f s x).1 xs).0, (retain f (f s x).1 xs).1)
  pub retain_dropped :
      (f : S → A → Bool × S) (s : S) (x : A) (xs : List A)
      → (f s x).0 ≡ false
      → retain f s (x ∷ xs) ≡ retain f (f s x).1 xs

-- These laws can be met as well.
module _ {A : Type 0} where
  list_pop : List A → Option (A × List A)
  list_pop [] = none
  list_pop (x ∷ q) = some (x, q)

  unfoldable pub list_deque : HeaplessDeque A
  unfolding list_push list_push_fits list_push_overflows list_pop
  list_deque = record {
    push_back = list_push;
    pop_front = list_pop;
    back_fits = list_push_fits;
    back_overflows = list_push_overflows;
    front_empty = refl;
    front_first = λ x q. refl;
  }

module _ {S A : Type 0} where
  keep_if : Bool → A → List A × S → List A × S
  keep_if true x (xs, s) = (x ∷ xs, s)
  keep_if false x (xs, s) = (xs, s)

  list_retain_all : (S → A → Bool × S) → S → List A → List A × S
  list_retain_all f s [] = ([], s)
  list_retain_all f s (x ∷ xs) = keep_if (f s x).0 x (list_retain_all f (f s x).1 xs)

  unfoldable pub list_retain : HeaplessRetain S A
  unfolding list_retain_all keep_if
  list_retain = record {
    retain = list_retain_all;
    retain_empty = λ f s. refl;
    retain_kept = λ f s x xs e. rw e;
    retain_dropped = λ f s x xs e. rw e;
  }
