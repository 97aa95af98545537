-- ===== src/Client/Receive.antt =====
-- `pop_message` on any bytes, and on the bytes that `encode_message` writes.
use rust_ems.Base.{
  ℕ, zero, suc, ◌+◌, ◌≤◌, ◌<◌, ◌≡◌, ◌≢◌, refl, ap, List, [], ◌∷◌, ◌++◌, length, replicate, All,
  Option, none, some, Result, ok, err, arith, ne→==, inl, inr, Option-cases,
}
use rust_ems.Heapless.{HeaplessVec}
use rust_ems.DeviceApi.Frame.{FrameHeader, FrameError, decode_frame}
use rust_ems.DeviceApi.Message.{ErrorCode}
use rust_ems.DeviceApi.Defrag.{Defragmenter, feed}
use rust_ems.Client.{
  Client, Popped, split_frame, after_feed, after_decode, round, pop_loop, pop_message,
  max_message_len,
}

-- Bytes with no zero and the delimiter behind them are one frame.
pub split_frame_lem :
    (frame rest : List ℕ)
    → All (λ b. b ≢ 0) frame
    → split_frame (frame ++ (0 ∷ rest)) ≡ some (frame, rest)
unfolding split_frame
split_frame_lem [] rest h = refl
split_frame_lem (b ∷ frame) rest h = rw (ne→== b 0 h.0, split_frame_lem frame rest h.1)

split_frame_shorter :
    (rx : List ℕ) (frame rest : List ℕ)
    → split_frame rx ≡ some (frame, rest)
    → length rest < length rx
unfolding split_frame
split_frame_shorter [] frame rest e = cc
split_frame_shorter (b ∷ rx) frame rest e = elim (Option-cases (split_frame rx)) [
  | inl n ↦ ground arith
  | inr ((f, r), s) ↦ ground (arith, split_frame_shorter rx f r s)
]

-- A run that ends, with at most `n` bytes left, and with no delimiter among them if it found no
-- message.
abbrev EndsWithin : ℕ → Popped → Type 0
EndsWithin n p =
    (r : Client × Option (ℕ × List ℕ)) × (p ≡ some r)
    × (length r.0.rx ≤ n)
    × (r.1 ≡ none → split_frame r.0.rx ≡ none)

module _ (V : HeaplessVec ℕ) (loop : Client → Popped) (n : ℕ) (c : Client) (rest : List ℕ)
    (shorter : length rest ≤ n) (ends : (c' : Client) → c'.rx ≡ rest → EndsWithin n (loop c')) where
  after_feed_ends :
      (seq : ℕ) (r : Defragmenter × Result ErrorCode (Option (List ℕ)))
      → EndsWithin n (after_feed loop c rest seq r)
  after_feed_ends seq (d, ok (some complete)) =
      ((record c { rx = rest; defrag = d }, some (seq, complete)), refl, shorter, λ e. cc)
  after_feed_ends seq (d, ok none) = ends (record c { rx = rest; defrag = d }) refl
  after_feed_ends seq (d, err e) = ends (record c { rx = rest; defrag = d }) refl

  after_decode_ends :
      (r : Result FrameError (FrameHeader × List ℕ)) → EndsWithin n (after_decode V loop c rest r)
  after_decode_ends (err e) = ends (record c { rx = rest }) refl
  after_decode_ends (ok (header, payload)) =
      after_feed_ends header.seq (feed V max_message_len header payload c.defrag)

module _ (V : HeaplessVec ℕ) where
  round_ends :
      (loop : Client → Popped) (c : Client)
      → ((c' : Client) → length c'.rx < length c.rx → EndsWithin (length c'.rx) (loop c'))
      → (s : Option (List ℕ × List ℕ)) → split_frame c.rx ≡ s
      → EndsWithin (length c.rx) (round V loop c s)
  round_ends loop c ends none e = ((c, none), refl, omega arith, λ _. e)
  round_ends loop c ends (some ([], rest)) e =
      let (r, p, l, z) = ends (record c { rx = rest }) (split_frame_shorter c.rx [] rest e) in
      (r, p, omega (arith, split_frame_shorter c.rx [] rest e), z)
  round_ends loop c ends (some (b ∷ frame, rest)) e =
      after_decode_ends V loop (length c.rx) c rest (omega (arith, less))
        (λ c' same.
          let (r, p, l, z) = ends c' (omega (arith, less, ap length same)) in
          (r, p, omega (arith, less, ap length same), z))
        (decode_frame (b ∷ frame) (replicate 520 0))
    where
      less : length rest < length c.rx
      less = split_frame_shorter c.rx (b ∷ frame) rest e

  pop_loop_ends :
      (fuel : ℕ) (c : Client) → length c.rx < fuel → EndsWithin (length c.rx) (pop_loop V fuel c)
  unfolding pop_loop
  pop_loop_ends zero c h = absurd (omega arith)
  pop_loop_ends (suc fuel) c h =
      round_ends (pop_loop V fuel) c (λ c' l. pop_loop_ends fuel c' (omega arith))
        (split_frame c.rx) refl

  -- On any bytes the loop of `pop_message` ends by itself: its fuel never runs out.
  pub pop_loop_total : (c : Client) → pop_loop V (length c.rx + 1) c ≢ none
  pop_loop_total c e = let (r, p, l, z) = pop_loop_ends (length c.rx + 1) c (omega arith) in cc

  pub pop_loop_runs :
      (c : Client) → (r : Client × Option (ℕ × List ℕ)) × (pop_loop V (length c.rx + 1) c ≡ some r)
  pop_loop_runs c = let (r, p, l, z) = pop_loop_ends (length c.rx + 1) c (omega arith) in (r, p)

  pub pop_message_eq :
      (c : Client) (r : Client × Option (ℕ × List ℕ))
      → pop_loop V (length c.rx + 1) c ≡ some r
      → pop_message V c ≡ r
  unfolding pop_message
  pop_message_eq c r e = rw (e, pop_message)

  -- On any bytes, `pop_message` leaves at most the bytes that it was given, and it answers `none` only
  -- when no delimiter is left among them.
  pub pop_message_drains :
      (c : Client)
      → (length (pop_message V c).0.rx ≤ length c.rx)
        × ((pop_message V c).1 ≡ none → split_frame (pop_message V c).0.rx ≡ none)
  pop_message_drains c =
      let (r, p, l, z) = pop_loop_ends (length c.rx + 1) c (omega arith) in
      rw (pop_message_eq c r p) (l, z)
