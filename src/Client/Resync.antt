-- ===== src/Client/Resync.antt =====
-- The receiver recovers from damage at the next delimiter.
use rust_ems.Base.{
  ℕ, zero, suc, ◌+◌, ◌≤◌, ◌<◌, ◌≡◌, ◌≢◌, refl, sym, ap, ◌∙◌, List, [], ◌∷◌, ◌++◌, length, replicate,
  length-append, All, Option, none, some, Result, ok, err, arith,
}
use rust_ems.Heapless.{HeaplessVec}
use rust_ems.DeviceApi.Frame.{FrameHeader, FrameError, decode_frame}
use rust_ems.DeviceApi.Message.{ErrorCode}
use rust_ems.DeviceApi.Defrag.{Defragmenter, feed}
use rust_ems.Client.{
  Client, Popped, split_frame, after_feed, after_decode, round, pop_loop, pop_message,
  max_message_len,
}
use rust_ems.Client.Receive.{split_frame_lem, pop_message_eq, pop_loop_runs}

-- A loop that agrees with another wherever that one ends.
abbrev Extends : (Client → Popped) → (Client → Popped) → Type 0
Extends loop loop' =
    (c : Client) (r : Client × Option (ℕ × List ℕ)) → loop c ≡ some r → loop' c ≡ some r

module _ (V : HeaplessVec ℕ) where
  after_feed_more :
      (loop loop' : Client → Popped) (ext : Extends loop loop') (c : Client) (rest : List ℕ)
      (seq : ℕ) (x : Defragmenter × Result ErrorCode (Option (List ℕ)))
      (r : Client × Option (ℕ × List ℕ))
      → after_feed loop c rest seq x ≡ some r
      → after_feed loop' c rest seq x ≡ some r
  after_feed_more loop loop' ext c rest seq (d, ok (some complete)) r e = e
  after_feed_more loop loop' ext c rest seq (d, ok none) r e = ext _ r e
  after_feed_more loop loop' ext c rest seq (d, err x) r e = ext _ r e

  after_decode_more :
      (loop loop' : Client → Popped) (ext : Extends loop loop') (c : Client) (rest : List ℕ)
      (x : Result FrameError (FrameHeader × List ℕ)) (r : Client × Option (ℕ × List ℕ))
      → after_decode V loop c rest x ≡ some r
      → after_decode V loop' c rest x ≡ some r
  after_decode_more loop loop' ext c rest (err x) r e = ext _ r e
  after_decode_more loop loop' ext c rest (ok (h, p)) r e =
      after_feed_more loop loop' ext c rest h.seq (feed V max_message_len h p c.defrag) r e

  round_more :
      (loop loop' : Client → Popped) (ext : Extends loop loop') (c : Client)
      (x : Option (List ℕ × List ℕ)) (r : Client × Option (ℕ × List ℕ))
      → round V loop c x ≡ some r
      → round V loop' c x ≡ some r
  round_more loop loop' ext c none r e = e
  round_more loop loop' ext c (some ([], rest)) r e = ext _ r e
  round_more loop loop' ext c (some (b ∷ frame, rest)) r e =
      after_decode_more loop loop' ext c rest (decode_frame (b ∷ frame) (replicate 520 0)) r e

  -- More fuel changes nothing.
  pop_loop_more : (n m : ℕ) → n ≤ m → Extends (pop_loop V n) (pop_loop V m)
  unfolding pop_loop
  pop_loop_more zero m h c r e = cc
  pop_loop_more (suc n) zero h c r e = absurd (omega arith)
  pop_loop_more (suc n) (suc m) h c r e =
      round_more (pop_loop V n) (pop_loop V m) (pop_loop_more n m (omega arith)) c
        (split_frame c.rx) r e

  skip_junk :
      (fuel : ℕ) (c : Client) (junk rest : List ℕ)
      → All (λ b. b ≢ 0) junk
      → junk ≢ []
      → (e : FrameError) → decode_frame junk (replicate 520 0) ≡ err e
      → c.rx ≡ junk ++ (0 ∷ rest)
      → pop_loop V (suc fuel) c ≡ pop_loop V fuel (record c { rx = rest })
  unfolding pop_loop
  skip_junk fuel c [] rest nz ne e bad eq = absurd (ne refl)
  skip_junk fuel c (b ∷ junk) rest nz ne e bad eq =
      ap (round V (pop_loop V fuel) c) (ap split_frame eq ∙ split_frame_lem (b ∷ junk) rest nz)
      ∙ ap (after_decode V (pop_loop V fuel) c rest) bad

  -- Bytes up to the next delimiter that do not decode as a frame are skipped as if they had not been
  -- received: the receiver goes on with what follows them, in the same state.
  pub pop_message_resync :
      (c : Client) (junk rest : List ℕ) (e : FrameError)
      → All (λ b. b ≢ 0) junk
      → junk ≢ []
      → decode_frame junk (replicate 520 0) ≡ err e
      → pop_message V (record c { rx = junk ++ (0 ∷ rest) })
        ≡ pop_message V (record c { rx = rest })
  pop_message_resync c junk rest e nz ne bad =
      let after : Client = record c { rx = rest } in
      let before : Client = record c { rx = junk ++ (0 ∷ rest) } in
      let (r, run) = pop_loop_runs V after in
      pop_message_eq V before r (
        ap (λ n. pop_loop V n before) (omega arith)
        ∙ skip_junk (length before.rx) before junk rest nz ne e bad refl
        ∙ pop_loop_more (length rest + 1) (length before.rx)
            (omega (arith, length-append junk (0 ∷ rest), some_junk)) after r run)
      ∙ sym (pop_message_eq V after r run)
    where
      some_junk : 0 < length junk
      some_junk = nonempty junk ne
        where
          nonempty : (xs : List ℕ) → xs ≢ [] → 0 < length xs
          nonempty [] h = absurd (h refl)
          nonempty (x ∷ xs) h = omega arith
