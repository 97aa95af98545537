-- ===== src/DeviceApi/Defrag.antt =====
-- device-api/src/defrag.rs: a message is put together from the fragments that share its sequence
-- number. A method returns the new state beside its result; `cap` is the const parameter `N`.
pub mod Reassemble
use rust_ems.Base.{ℕ, List, [], Option, none, some, Result, ok, err, not, ◌==◌, if◌then◌else◌}
use rust_ems.Heapless.{HeaplessVec}
use rust_ems.DeviceApi.Message.{ErrorCode, fragmentation}
use rust_ems.DeviceApi.Frame.{FrameHeader, has, fragment, last_fragment}

pub record Defragmenter : Type 0 where
  pub buffer : List ℕ
  pub current_seq : Option ℕ

abbrev pub new : Defragmenter
new = record { buffer = []; current_seq = none }

abbrev pub reset : Defragmenter → Defragmenter
reset d = record { buffer = []; current_seq = none }

-- The match on `current_seq`: `none` is a sequence number that differs. At the start of a stream an
-- intermediate fragment sets the number, a last fragment only clears the buffer.
pub begin_part : Option ℕ → ℕ → Defragmenter → Option Defragmenter
begin_part (some seq) s d = if not (seq == s) then none else some d
begin_part none s d = some (record { buffer = []; current_seq = some s })

pub begin_last : Option ℕ → ℕ → Defragmenter → Option Defragmenter
begin_last (some seq) s d = if not (seq == s) then none else some d
begin_last none s d = some (record d { buffer = [] })

module _ (V : HeaplessVec ℕ) (cap : ℕ) where
  pub feed_part : Option Defragmenter → List ℕ → Defragmenter × Result ErrorCode (Option (List ℕ))
  feed_part none payload = (new, err fragmentation)
  feed_part (some d) payload = elim (V.extend_from_slice cap d.buffer payload) [
    | none ↦ (reset d, err fragmentation)
    | some buffer ↦ (record d { buffer = buffer }, ok none)
  ]

  pub feed_last : Option Defragmenter → List ℕ → Defragmenter × Result ErrorCode (Option (List ℕ))
  feed_last none payload = (new, err fragmentation)
  feed_last (some d) payload = elim (V.extend_from_slice cap d.buffer payload) [
    | none ↦ (reset d, err fragmentation)
    | some buffer ↦ (record { buffer = buffer; current_seq = none }, ok (some buffer))
  ]

  pub feed : FrameHeader → List ℕ → Defragmenter → Defragmenter × Result ErrorCode (Option (List ℕ))
  unfolding begin_part begin_last feed_part feed_last
  feed header payload d =
      if not (has header.flags fragment)
      then (reset d, ok (some payload))
      else if not (has header.flags last_fragment)
      then feed_part (begin_part d.current_seq header.seq d) payload
      else feed_last (begin_last d.current_seq header.seq d) payload
