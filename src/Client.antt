-- ===== src/Client.antt =====
-- client/src/rdp.rs, the host's end of the device protocol: the sequence numbers and frames that it
-- sends, and the messages that it takes out of the bytes received. The byte stream is what a call
-- writes and what `rx` holds; the queues of telemetry and events are not modelled.
pub mod Receive
pub mod Deliver
pub mod Link
pub mod Resync
mod Tests
use rust_ems.Base.{
  ℕ, zero, suc, ◌+◌, ◌*◌, ◌/◌, ◌%◌, max, List, [], ◌∷◌, length, take, replicate, Option, none, some,
  Result, ok, err, ◌>>=◌, ◌==◌, if◌then◌else◌, true, false,
}
use rust_ems.Heapless.{HeaplessVec}
use rust_ems.DeviceApi.Cobs.{is_empty}
use rust_ems.DeviceApi.Message.{ErrorCode}
use rust_ems.DeviceApi.Frame.{
  FrameHeader, FrameError, encode_message, decode_frame, max_raw_frame_len,
}
use rust_ems.DeviceApi.Defrag.{Defragmenter, feed}

abbrev pub max_message_len : ℕ
max_message_len = 4096

pub record Client : Type 0 where
  pub next_seq : ℕ
  pub rx : List ℕ
  pub defrag : Defragmenter

-- The sequence number after `seq`; zero is left out.
pub following : ℕ → ℕ
following seq = let next = (seq + 1) % 65536 in if next == 0 then 1 else next

-- `n` bytes of room for what is written, and the bytes that go to the stream.
pub send_payload : Client → List ℕ → Client × Result FrameError (ℕ × List ℕ)
unfolding following
send_payload c payload =
    let c' = record c { next_seq = following c.next_seq } in
    let frames = max ((length payload + 511) / 512) 1 in
    (
      c',
      (do
        (n, out) ← encode_message 0 c.next_seq payload (replicate (frames * 600 + 16) 0)
        ok (c.next_seq, take n out)),
    )

-- The bytes before the first zero, and those behind it.
pub split_frame : List ℕ → Option (List ℕ × List ℕ)
split_frame [] = none
split_frame (b ∷ rx) =
    let later = split_frame rx in
    if b == 0
    then some ([], rx)
    else elim later [ none ↦ none | some (frame, rest) ↦ some (b ∷ frame, rest) ]

-- The outcome of a loop that may run out of fuel.
abbrev pub Popped : Type 0
Popped = Option (Client × Option (ℕ × List ℕ))

-- The match on what the defragmenter returns; `loop` is `continue`.
abbrev pub after_feed :
    (Client → Popped)
    → Client
    → List ℕ
    → ℕ
    → Defragmenter × Result ErrorCode (Option (List ℕ))
    → Popped
after_feed loop c rest seq (d, ok (some complete)) =
    some (record c { rx = rest; defrag = d }, some (seq, complete))
after_feed loop c rest seq (d, ok none) = loop (record c { rx = rest; defrag = d })
after_feed loop c rest seq (d, err e) = loop (record c { rx = rest; defrag = d })

module _ (V : HeaplessVec ℕ) where
  -- A frame that does not decode is skipped.
  abbrev pub after_decode :
      (Client → Popped) → Client → List ℕ → Result FrameError (FrameHeader × List ℕ) → Popped
  after_decode loop c rest (err e) = loop (record c { rx = rest })
  after_decode loop c rest (ok (header, payload)) =
      after_feed loop c rest header.seq (feed V max_message_len header payload c.defrag)

  -- One round: a stray delimiter is skipped, a frame is decoded.
  abbrev pub round : (Client → Popped) → Client → Option (List ℕ × List ℕ) → Popped
  round loop c none = some (c, none)
  round loop c (some ([], rest)) = loop (record c { rx = rest })
  round loop c (some (b ∷ frame, rest)) =
      after_decode loop c rest (decode_frame (b ∷ frame) (replicate max_raw_frame_len 0))

  -- `while let Some(pos) = …`; the outer `none` is running out of fuel.
  pub pop_loop : ℕ → Client → Popped
  pop_loop zero c = none
  pop_loop (suc fuel) c = round (pop_loop fuel) c (split_frame c.rx)

  -- Each round drops a byte at least, so the fuel is enough (`Receive.pop_loop_total`) and the
  -- default stands for no run.
  pub pop_message : Client → Client × Option (ℕ × List ℕ)
  pop_message c = elim (pop_loop (length c.rx + 1) c) [ none ↦ (c, none) | some r ↦ r ]
