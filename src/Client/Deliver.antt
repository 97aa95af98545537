-- ===== src/Client/Deliver.antt =====
-- What one end writes with `encode_message`, the other takes out with `pop_message`.
use rust_ems.Base.{
  ℕ, zero, suc, ◌+◌, ◌≤◌, ◌<◌, ◌≡◌, refl, sym, ap, ◌∙◌, List, [], ◌∷◌, ◌++◌, length, replicate,
  length-replicate, append_assoc, append-nil, length-append, All, none, some, arith, true, false,
}
use rust_ems.Heapless.{HeaplessVec}
use rust_ems.DeviceApi.Frame.{
  FrameHeader, Flags, new_header, has, fragment, last_fragment, with_bit, fragment_flags,
  decode_frame,
}
use rust_ems.DeviceApi.Frame.Flag.{has-with_fragment, has-with_last, with_fragment-lt}
use rust_ems.DeviceApi.Frame.Stream.{wire, decode_frame_lem}
use rust_ems.DeviceApi.Frame.Fragments.{frames, flatten}
use rust_ems.DeviceApi.Cobs.Stuff.{stuff_nonzero, stuff_head}
use rust_ems.DeviceApi.Frame.Raw.{raw_frame}
use rust_ems.DeviceApi.Defrag.{Defragmenter, feed}
use rust_ems.DeviceApi.Defrag.Reassemble.{Holds, feed_whole, feed_part-Holds, feed_last-Holds}
use rust_ems.Client.{Client, Popped, split_frame, after_feed, after_decode, round, pop_loop}
use rust_ems.Client.Receive.{split_frame_lem}

-- The flag byte of a message that its sender does not mark as a fragment.
abbrev pub IsPlain : Flags → Type 0
IsPlain f = (f < 256) × (has f fragment ≡ false) × (has f last_fragment ≡ false)

fragment_flags-fragment :
    (f : Flags) (cs : List (List ℕ)) → f < 256 → has (fragment_flags f cs) fragment ≡ true
fragment_flags-fragment f [] h =
    (has-with_last (with_bit f fragment) (with_fragment-lt f h)).1 ∙ (has-with_fragment f h).0
fragment_flags-fragment f (c ∷ cs) h = (has-with_fragment f h).0

fragment_flags_last : (f : Flags) → f < 256 → has (fragment_flags f []) last_fragment ≡ true
fragment_flags_last f h = (has-with_last (with_bit f fragment) (with_fragment-lt f h)).0

frames_front :
    (w more rest : List ℕ) → ((w ++ (0 ∷ [])) ++ more) ++ rest ≡ w ++ (0 ∷ (more ++ rest))
frames_front w more rest =
    append_assoc (w ++ (0 ∷ [])) more rest ∙ append_assoc w (0 ∷ []) (more ++ rest)

pub length-le-frames :
    (f : Flags) (seq : ℕ) (cs : List (List ℕ)) → length cs ≤ length (frames f seq cs)
length-le-frames f seq [] = omega arith
length-le-frames f seq (c ∷ cs) =
    let w : List ℕ = wire (new_header (fragment_flags f cs) seq) c in
    omega (
      arith,
      length-append (w ++ (0 ∷ [])) (frames f seq cs),
      length-append w (0 ∷ []),
      length-le-frames f seq cs,
    )

module _ (V : HeaplessVec ℕ) where
  -- A frame at the front of the buffer is decoded and fed.
  pop_loop_frame :
      (fuel : ℕ) (c : Client) (rest : List ℕ) (h : FrameHeader) (payload : List ℕ)
      → h.version ≡ 1
      → h.seq < 65536
      → length payload ≤ 512
      → c.rx ≡ wire h payload ++ (0 ∷ rest)
      → pop_loop V (suc fuel) c
        ≡ after_feed (pop_loop V fuel) c rest h.seq (feed V 4096 h payload c.defrag)
  unfolding pop_loop
  pop_loop_frame fuel c rest h payload v s small e =
      let (y, ys, head) = stuff_head [] (raw_frame h payload) in
      ap (round V (pop_loop V fuel) c) (
        ap split_frame e
        ∙ split_frame_lem (wire h payload) rest (stuff_nonzero [] (raw_frame h payload) tt)
        ∙ ap (λ zs. some (zs, rest)) head)
      ∙ ap (λ zs. after_decode V (pop_loop V fuel) c rest (decode_frame zs (replicate 520 0)))
          (sym head)
      ∙ ap (after_decode V (pop_loop V fuel) c rest) (
          decode_frame_lem h payload (replicate 520 0) v s small
            (omega (arith, length-replicate {A = ℕ} 520 0)))

  abbrev pub Delivered : Client → List ℕ → ℕ → List ℕ → Popped → Type 0
  Delivered c rest seq text p =
      (d : Defragmenter) × (p ≡ some (record c { rx = rest; defrag = d }, some (seq, text)))
      × (d.current_seq ≡ none)

  -- The fragments of a message, from whatever part of it came before.
  pub pop_loop_fragments :
      (cs : List (List ℕ)) (chunk : List ℕ) (fuel : ℕ) (c : Client) (f : Flags) (seq : ℕ)
      (text rest : List ℕ)
      → IsPlain f
      → seq < 65536
      → All (λ k. length k ≤ 512) (chunk ∷ cs)
      → Holds c.defrag seq text
      → length text + length (flatten (chunk ∷ cs)) ≤ 4096
      → c.rx ≡ frames f seq (chunk ∷ cs) ++ rest
      → length cs < fuel
      → Delivered c rest seq (text ++ flatten (chunk ∷ cs)) (pop_loop V fuel c)
  pop_loop_fragments cs chunk zero c f seq text rest plain s small holds fits e h =
      absurd (omega arith)
  pop_loop_fragments [] chunk (suc fuel) c f seq text rest plain s small holds fits e h =
      let head = new_header (fragment_flags f []) seq in
      let (d, fed, idle_after) =
        feed_last-Holds V 4096 head chunk (fragment_flags-fragment f [] plain.0) c.defrag text
          (fragment_flags_last f plain.0) holds (omega (arith, ap length (append-nil chunk))) in
      (
        d,
        pop_loop_frame fuel c rest head chunk refl s small.0
              (e ∙ frames_front (wire head chunk) [] rest)
            ∙ ap (after_feed (pop_loop V fuel) c rest seq) fed
            ∙ ap (λ zs. some (record c { rx = rest; defrag = d }, some (seq, text ++ zs)))
                (sym (append-nil chunk)),
        idle_after,
      )
  pop_loop_fragments (next ∷ cs) chunk (suc fuel) c f seq text rest plain s small holds fits e h =
      let head = new_header (fragment_flags f (next ∷ cs)) seq in
      let more : List ℕ = frames f seq (next ∷ cs) ++ rest in
      let (d, fed, holds') =
        feed_part-Holds V 4096 head chunk (fragment_flags-fragment f (next ∷ cs) plain.0) c.defrag
          text ((has-with_fragment f plain.0).1 ∙ plain.2) holds
          (omega (arith, length-append chunk (flatten (next ∷ cs)))) in
      let (d', run, idle_after) =
        pop_loop_fragments cs next fuel (record c { rx = more; defrag = d }) f seq (text ++ chunk)
          rest plain s small.1 holds'
          (omega (arith, length-append chunk (flatten (next ∷ cs)), length-append text chunk)) refl
          (omega arith) in
      (
        d',
        pop_loop_frame fuel c more head chunk refl s small.0
              (e ∙ frames_front (wire head chunk) (frames f seq (next ∷ cs)) rest)
            ∙ ap (after_feed (pop_loop V fuel) c more seq) fed
            ∙ run
            ∙ ap (λ zs. some (record c { rx = rest; defrag = d' }, some (seq, zs)))
                (append_assoc text chunk (flatten (next ∷ cs))),
        idle_after,
      )

  -- A message that one frame holds.
  pub pop_loop_whole :
      (fuel : ℕ) (c : Client) (f : Flags) (seq : ℕ) (payload rest : List ℕ)
      → IsPlain f
      → seq < 65536
      → length payload ≤ 512
      → c.rx ≡ (wire (new_header f seq) payload ++ (0 ∷ [])) ++ rest
      → Delivered c rest seq payload (pop_loop V (suc fuel) c)
  pop_loop_whole fuel c f seq payload rest plain s small e = (
    record { buffer = []; current_seq = none },
    pop_loop_frame fuel c rest (new_header f seq) payload refl s small
          (e ∙ append_assoc (wire (new_header f seq) payload) (0 ∷ []) rest)
        ∙ ap (after_feed (pop_loop V fuel) c rest seq)
            (feed_whole V 4096 (new_header f seq) payload c.defrag plain.1),
    refl,
  )
