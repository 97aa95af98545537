-- ===== src/EngineCore/Faults/Events.antt =====
-- The event queue against its abstract view: the last eight of all events pushed.
use rust_ems.Base.{
  ℕ, zero, suc, ◌+◌, ◌-◌, ◌≤◌, ◌<◌, ◌≡◌, refl, sym, ap, ◌∙◌, inl, inr, ◌⊎◌, List, [], ◌∷◌, ◌++◌,
  length, drop, length-append, length-drop, drop-drop, append-nil, append_assoc, arith,
}
use rust_ems.Heapless.{HeaplessDeque}
use rust_ems.EngineCore.Faults.{EventKind, EventRecord, max_events, push, push_dropping}

-- The last eight of a list.
pub recent {ℓ} : {A : Type ℓ} → List A → List A
recent xs = drop (length xs - max_events) xs

drop_front {ℓ} :
    {A : Type ℓ} (n : ℕ) (xs ys : List A) → n ≤ length xs → drop n (xs ++ ys) ≡ drop n xs ++ ys
drop_front zero xs ys h = refl
drop_front (suc n) [] ys h = absurd (omega arith)
drop_front (suc n) (x ∷ xs) ys h = drop_front n xs ys (omega arith)

room_or_full : (n : ℕ) → (n < 8) ⊎ (8 ≤ n)
room_or_full n = ground arith

module _ {ℓ} {A : Type ℓ} where
  recent_short : (xs : List A) → length xs ≤ 8 → recent xs ≡ xs
  unfolding recent
  recent_short xs h = let k : length xs - 8 ≡ 0 = omega arith in ap (λ n. drop n xs) k

  recent_shift : (x : A) (xs : List A) → length xs ≡ 8 → recent (x ∷ xs) ≡ xs
  unfolding recent
  recent_shift x xs h = let k : suc (length xs) - 8 ≡ 1 = omega arith in ap (λ n. drop n (x ∷ xs)) k

  pub length-recent : (xs : List A) → length (recent xs) ≤ 8
  unfolding recent
  length-recent xs = omega (arith, length-drop (length xs - 8) xs)

  -- What is forgotten early would be forgotten later.
  recent-recent : (xs ys : List A) → recent (recent xs ++ ys) ≡ recent (xs ++ ys)
  unfolding recent
  recent-recent xs ys =
      let k = length xs - 8 in
      let n = length-append xs ys in
      let total : k + (length (drop k (xs ++ ys)) - 8) ≡ length (xs ++ ys) - 8 =
        omega (arith, n, length-drop k (xs ++ ys)) in
      ap recent (sym (drop_front k xs ys (omega arith)))
      ∙ drop-drop (length (drop k (xs ++ ys)) - 8) k (xs ++ ys)
      ∙ ap (λ j. drop j (xs ++ ys)) total

module _ {I : Type 0} (Q : HeaplessDeque (EventRecord I)) (kind : EventKind) (ts_ms : ℕ)
    (a b : I) where
  abbrev pushed : EventRecord I
  pushed = record { kind = kind; ts_ms = ts_ms; a = a; b = b }

  push_room :
      (queue : List (EventRecord I))
      → length queue < 8
      → push Q queue kind ts_ms a b ≡ queue ++ (pushed ∷ [])
  unfolding push
  push_room queue h = rw (Q.back_fits 8 queue pushed h, push)

  push_full :
      (x : EventRecord I) (queue : List (EventRecord I))
      → length queue ≡ 7
      → push Q (x ∷ queue) kind ts_ms a b ≡ queue ++ (pushed ∷ [])
  unfolding push push_dropping
  push_full x queue h = rw (
    Q.back_overflows 8 (x ∷ queue) pushed (omega arith),
    push,
    push_dropping,
    Q.front_first x queue,
    Q.back_fits 8 queue pushed (omega arith),
  )

  -- One push, on a queue that is within its capacity.
  push-recent :
      (queue : List (EventRecord I))
      → length queue ≤ 8
      → push Q queue kind ts_ms a b ≡ recent (queue ++ (pushed ∷ []))
  push-recent [] h = push_room [] (omega arith) ∙ sym (recent_short (pushed ∷ []) (omega arith))
  push-recent (x ∷ queue) h = elim (room_or_full (length (x ∷ queue))) [
    | inl l ↦
        push_room (x ∷ queue) l
        ∙ sym (
            recent_short (x ∷ (queue ++ (pushed ∷ [])))
              (omega (arith, length-append queue (pushed ∷ []))))
    | inr g ↦
        push_full x queue (omega arith)
        ∙ sym (
            recent_shift x (queue ++ (pushed ∷ []))
              (omega (arith, length-append queue (pushed ∷ []))))
  ]

module _ {I : Type 0} (Q : HeaplessDeque (EventRecord I)) where
  -- Events pushed one after the other.
  unfoldable pub push_all : List (EventRecord I) → List (EventRecord I) → List (EventRecord I)
  push_all queue [] = queue
  push_all queue (e ∷ es) = push_all (push Q queue e.kind e.ts_ms e.a e.b) es

  -- However many events are pushed onto a queue that is within its capacity, the queue then holds the
  -- last eight of those it held and those pushed, in order: events are dropped from the oldest on.
  pub push_all-recent :
      (queue es : List (EventRecord I))
      → length queue ≤ max_events
      → push_all queue es ≡ recent (queue ++ es)
  unfolding push_all
  push_all-recent queue [] h = sym (recent_short queue h) ∙ ap recent (sym (append-nil queue))
  push_all-recent queue (e ∷ es) h =
      let one = push-recent Q e.kind e.ts_ms e.a e.b queue h in
      let short : length (push Q queue e.kind e.ts_ms e.a e.b) ≤ 8 =
        omega (arith, ap length one, length-recent (queue ++ (e ∷ []))) in
      push_all-recent (push Q queue e.kind e.ts_ms e.a e.b) es short
      ∙ ap (λ q. recent (q ++ es)) one
      ∙ recent-recent (queue ++ (e ∷ [])) es
      ∙ ap recent (append_assoc queue (e ∷ []) es)
