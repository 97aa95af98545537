-- ===== src/DeviceApi/Defrag/Reassemble.antt =====
-- What `feed` does with each kind of frame.
use rust_ems.Base.{
  ℕ, ◌+◌, ◌≤◌, ◌<◌, ◌≡◌, ◌≢◌, refl, ap, Bool-cases, inl, inr, List, [], ◌++◌, length, none, some,
  ok, err, true, false, arith, eq→==, ne→==,
}
use rust_ems.Heapless.{HeaplessVec}
use rust_ems.DeviceApi.Message.{fragmentation}
use rust_ems.DeviceApi.Frame.{FrameHeader, has, fragment, last_fragment}
use rust_ems.DeviceApi.Defrag.{
  Defragmenter, new, begin_part, begin_last, feed_part, feed_last, feed,
}

-- What a run of fragments with number `seq` has built up: nothing yet, or the bytes so far.
pub data Holds (d : Defragmenter) (seq : ℕ) (text : List ℕ) : Type 0 where
  idle : d.current_seq ≡ none → text ≡ [] → Holds d seq text
  active : d.current_seq ≡ some seq → d.buffer ≡ text → Holds d seq text

module _ (V : HeaplessVec ℕ) (cap : ℕ) (h : FrameHeader) (payload : List ℕ) where
  -- A frame that is no fragment passes through, and drops what was built up.
  pub feed_whole :
      (d : Defragmenter)
      → has h.flags fragment ≡ false
      → feed V cap h payload d ≡ (new, ok (some payload))
  unfolding feed
  feed_whole d f = rw f

  module _ (f : has h.flags fragment ≡ true) where
    pub feed_part-Holds :
        (d : Defragmenter) (text : List ℕ)
        → has h.flags last_fragment ≡ false
        → Holds d h.seq text
        → length text + length payload ≤ cap
        → (d' : Defragmenter) × (feed V cap h payload d ≡ (d', ok none))
          × Holds d' h.seq (text ++ payload)
    unfolding feed begin_part feed_part
    feed_part-Holds d text l (idle e g) room = (
      record { buffer = payload; current_seq = some h.seq },
      rw (f, l, e, V.extend_fits cap [] payload (omega (arith, ap length g))),
      active refl (rw g),
    )
    feed_part-Holds d text l (active e g) room = (
      record { buffer = text ++ payload; current_seq = some h.seq },
      rw (f, l, e, eq→== h.seq h.seq refl, g, V.extend_fits cap text payload room),
      active refl refl,
    )

    pub feed_last-Holds :
        (d : Defragmenter) (text : List ℕ)
        → has h.flags last_fragment ≡ true
        → Holds d h.seq text
        → length text + length payload ≤ cap
        → (d' : Defragmenter) × (feed V cap h payload d ≡ (d', ok (some (text ++ payload))))
          × (d'.current_seq ≡ none)
    unfolding feed begin_last feed_last
    feed_last-Holds d text l (idle e g) room = (
      record { buffer = payload; current_seq = none },
      rw (f, l, e, V.extend_fits cap [] payload (omega (arith, ap length g)), g),
      refl,
    )
    feed_last-Holds d text l (active e g) room = (
      record { buffer = text ++ payload; current_seq = none },
      rw (f, l, e, eq→== h.seq h.seq refl, g, V.extend_fits cap text payload room),
      refl,
    )

    -- A fragment of another message, last or not, is refused, and what was built up is dropped.
    pub feed_mismatch :
        (d : Defragmenter) (seq : ℕ)
        → d.current_seq ≡ some seq
        → seq ≢ h.seq
        → feed V cap h payload d ≡ (new, err fragmentation)
    unfolding feed begin_part begin_last feed_part feed_last
    feed_mismatch d seq e ne = elim (Bool-cases (has h.flags last_fragment)) [
      | inl l ↦ rw (f, l, e, ne→== seq h.seq ne)
      | inr l ↦ rw (f, l, e, ne→== seq h.seq ne)
    ]

    -- A fragment that is not the last and that the buffer has no room for is refused, and what was built
    -- up is dropped.
    pub feed_overflow :
        (d : Defragmenter) (text : List ℕ)
        → Holds d h.seq text
        → cap < length text + length payload
        → feed V cap h payload d ≡ (new, err fragmentation)
    unfolding feed begin_part begin_last feed_part feed_last
    feed_overflow d text (idle e g) room = elim (Bool-cases (has h.flags last_fragment)) [
      | inl l ↦ rw (f, l, e, V.extend_overflows cap [] payload (omega (arith, ap length g)))
      | inr l ↦ rw (f, l, e, V.extend_overflows cap [] payload (omega (arith, ap length g)))
    ]
    feed_overflow d text (active e g) room = elim (Bool-cases (has h.flags last_fragment)) [
      | inl l ↦ rw (f, l, e, eq→== h.seq h.seq refl, g, V.extend_overflows cap text payload room)
      | inr l ↦ rw (f, l, e, eq→== h.seq h.seq refl, g, V.extend_overflows cap text payload room)
    ]
