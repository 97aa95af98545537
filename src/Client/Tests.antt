-- ===== src/Client/Tests.antt =====
-- The client's theorems at concrete inputs.
use rust_ems.Base.{
  ℕ, ◌+◌, ◌≤◌, ◌≡◌, ◌≢◌, refl, List, [], ◌∷◌, ◌++◌, length, replicate, none, some, ok, err, arith,
}
use rust_ems.Heapless.{list_vec}
use rust_ems.DeviceApi.Cobs.{truncated}
use rust_ems.DeviceApi.Cobs.Tests.{decode_cut}
use rust_ems.DeviceApi.Frame.{decode_frame, cobs}
use rust_ems.DeviceApi.Defrag.{Defragmenter, new}
use rust_ems.Client.{Client, split_frame, pop_loop, pop_message, send_payload, following}
use rust_ems.Client.Receive.{pop_message_drains, pop_loop_total}
use rust_ems.Client.Link.{pop_message-send_payload}
use rust_ems.Client.Resync.{pop_message_resync}

abbrev fresh : Client
fresh = record { next_seq = 1; rx = []; defrag = new }

-- A message of 600 bytes, which takes two frames.
abbrev long : List ℕ
long = replicate 600 7

pop_message-send_payload_example :
    (bytes : List ℕ) × (d : Defragmenter) × (send_payload fresh long
      ≡ (record fresh { next_seq = following 1 }, ok (1, bytes)))
    × (pop_message list_vec (record fresh { rx = bytes ++ (5 ∷ []) })
        ≡ (record fresh { rx = 5 ∷ []; defrag = d }, some (1, long)))
    × (d.current_seq ≡ none)
pop_message-send_payload_example =
    pop_message-send_payload list_vec fresh fresh long (5 ∷ []) (omega arith) refl (omega arith)

pop_message_drains_example :
    (length (pop_message list_vec (record fresh { rx = 0 ∷ (3 ∷ []) })).0.rx ≤ 2)
    × ((pop_message list_vec (record fresh { rx = 0 ∷ (3 ∷ []) })).1 ≡ none
        → split_frame (pop_message list_vec (record fresh { rx = 0 ∷ (3 ∷ []) })).0.rx ≡ none)
pop_message_drains_example = pop_message_drains list_vec (record fresh { rx = 0 ∷ (3 ∷ []) })

pop_loop_total_example : pop_loop list_vec (2 + 1) (record fresh { rx = 0 ∷ (3 ∷ []) }) ≢ none
pop_loop_total_example = pop_loop_total list_vec (record fresh { rx = 0 ∷ (3 ∷ []) })

junk_refused : decode_frame (5 ∷ (1 ∷ [])) (replicate 520 0) ≡ err (cobs truncated)
unfolding decode_frame
junk_refused = rw decode_cut

pop_message_resync_example :
    pop_message list_vec (record fresh { rx = 5 ∷ (1 ∷ (0 ∷ (5 ∷ []))) })
    ≡ pop_message list_vec (record fresh { rx = 5 ∷ [] })
pop_message_resync_example =
    pop_message_resync list_vec fresh (5 ∷ (1 ∷ [])) (5 ∷ []) (cobs truncated) (omega arith)
      (λ e. cc) junk_refused
