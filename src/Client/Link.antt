-- ===== src/Client/Link.antt =====
-- The link from one end to the other: nothing that is sent is refused, lost or changed.
use rust_ems.Base.{
  ℕ, ◌+◌, ◌*◌, ◌/◌, ◌≤◌, ◌<◌, ◌≡◌, ◌≢◌, ◌⊎◌, inl, inr, refl, ap, ◌∙◌, List, [], ◌∷◌, ◌++◌, length,
  take, drop, take-append, replicate, length-replicate, length-append, All, none, some, ok, arith,
  max,
}
use rust_ems.Base.Buffer.{over}
use rust_ems.Heapless.{HeaplessVec}
use rust_ems.DeviceApi.Frame.{Flags, new_header, encode_message, chunks, has}
use rust_ems.DeviceApi.Frame.Stream.{wire}
use rust_ems.DeviceApi.Frame.Fragments.{
  frames, flatten, flatten-chunks, chunks_small, encode_message_long, encode_message_short,
}
use rust_ems.DeviceApi.Defrag.{Defragmenter}
use rust_ems.DeviceApi.Defrag.Reassemble.{idle}
use rust_ems.Client.{Client, pop_loop, pop_message, send_payload, following}
use rust_ems.Client.Receive.{pop_message_eq}
use rust_ems.Client.Deliver.{IsPlain, length-le-frames, pop_loop_fragments, pop_loop_whole}

-- The room that `encode_message` needs: twelve bytes for each frame, of which there is at least one.
abbrev pub needs : List ℕ → ℕ
needs payload = length payload + 12 * max ((length payload + 511) / 512) 1

short-or-long : (xs : List ℕ) → (length xs ≤ 512) ⊎ (512 < length xs)
short-or-long xs = omega arith

module _ (V : HeaplessVec ℕ) (c : Client) (f : Flags) (seq : ℕ) (payload rest : List ℕ)
    (plain : IsPlain f) (s : seq < 65536) (quiet : c.defrag.current_seq ≡ none) where
  Received : List ℕ → Type 0
  Received bytes =
      (d : Defragmenter) × (pop_message V (record c { rx = bytes ++ rest })
        ≡ (record c { rx = rest; defrag = d }, some (seq, payload)))
      × (d.current_seq ≡ none)

  short-Received : length payload ≤ 512 → Received (wire (new_header f seq) payload ++ (0 ∷ []))
  unfolding Received
  short-Received small =
      let bytes : List ℕ = wire (new_header f seq) payload ++ (0 ∷ []) in
      let c' : Client = record c { rx = bytes ++ rest } in
      let (d, run, done) =
        pop_loop_whole V (length c'.rx) c' f seq payload rest plain s small refl in
      (d, pop_message_eq V c' _ (ap (λ n. pop_loop V n c') (omega arith) ∙ run), done)

  -- `cs` stands for the chunks of the payload.
  long-Received :
      (cs : List (List ℕ))
      → All (λ k. length k ≤ 512) cs
      → flatten cs ≡ payload
      → 0 < length payload
      → length payload ≤ 4096
      → Received (frames f seq cs)
  unfolding Received
  long-Received [] small e h fits = absurd (omega (arith, ap length e))
  long-Received (k ∷ cs) small e h fits =
      let bytes : List ℕ = frames f seq (k ∷ cs) in
      let c' : Client = record c { rx = bytes ++ rest } in
      let (d, run, done) =
        pop_loop_fragments V cs k (length c'.rx + 1) c' f seq [] rest plain s small
          (idle quiet refl) (omega (arith, ap length e)) refl
          (omega (arith, length-append bytes rest, length-le-frames f seq (k ∷ cs))) in
      (
        d,
        pop_message_eq V c' _
            (run ∙ ap (λ zs. some (record c { rx = rest; defrag = d }, some (seq, zs))) e),
        done,
      )

  pub pop_message-encode_message :
      (out : List ℕ)
      → length payload ≤ 4096
      → needs payload ≤ length out
      → (n : ℕ) × (out' : List ℕ) × (d : Defragmenter) × (encode_message f seq payload out
          ≡ ok (n, out'))
        × (pop_message V (record c { rx = take n out' ++ rest })
            ≡ (record c { rx = rest; defrag = d }, some (seq, payload)))
        × (d.current_seq ≡ none)
  unfolding Received
  pop_message-encode_message out fits room = elim (short-or-long payload) [
    | inl small ↦
        let bytes : List ℕ = wire (new_header f seq) payload ++ (0 ∷ []) in
        let (d, run, done) = short-Received small in
        (
          length bytes,
          over bytes out,
          d,
          encode_message_short f seq payload out small (omega arith)
              ∙ ap (λ n. ok (n, over bytes out))
                  (omega (arith, length-append (wire (new_header f seq) payload) (0 ∷ []))),
          rw (take-append (length bytes) bytes (drop (length bytes) out) refl) run,
          done,
        )
    | inr large ↦
        let bytes : List ℕ = frames f seq (chunks payload) in
        let (d, run, done) =
          long-Received (chunks payload) (chunks_small payload) (flatten-chunks payload)
            (omega arith) fits in
        (
          length bytes,
          over bytes out,
          d,
          encode_message_long f seq payload out large (omega arith),
          rw (take-append (length bytes) bytes (drop (length bytes) out) refl) run,
          done,
        )
  ]

IsPlain-none : IsPlain 0
unfolding has
IsPlain-none = (omega arith, refl, refl)

module _ (V : HeaplessVec ℕ) where
  -- `send_payload` never runs out of the buffer that it allocates: any payload of at most 4096 bytes
  -- goes out under the client's sequence number, which is below 2 ^ 16, and a receiver that is between
  -- two messages takes it out again, unchanged and under that number, whatever follows it.
  pub pop_message-send_payload :
      (sender receiver : Client) (payload rest : List ℕ)
      → sender.next_seq < 65536
      → receiver.defrag.current_seq ≡ none
      → length payload ≤ 4096
      → (bytes : List ℕ) × (d : Defragmenter) × (send_payload sender payload
          ≡ (record sender { next_seq = following sender.next_seq }, ok (sender.next_seq, bytes)))
        × (pop_message V (record receiver { rx = bytes ++ rest })
            ≡ (record receiver { rx = rest; defrag = d }, some (sender.next_seq, payload)))
        × (d.current_seq ≡ none)
  unfolding send_payload
  pop_message-send_payload sender receiver payload rest s quiet fits =
      let frames = max ((length payload + 511) / 512) 1 in
      let blank : List ℕ = replicate (frames * 600 + 16) 0 in
      let (n, out, d, sent, popped, done) =
        pop_message-encode_message V receiver 0 sender.next_seq payload rest IsPlain-none s quiet
          blank fits (omega (arith, length-replicate {A = ℕ} (frames * 600 + 16) 0)) in
      (take n out, d, rw sent, popped, done)

-- The sequence numbers of two messages in a row differ, and none of them is zero.
pub following_fresh :
    (seq : ℕ)
    → 0 < seq
    → seq < 65536
    → (0 < following seq) × (following seq < 65536) × (following seq ≢ seq)
unfolding following
following_fresh seq p h = ground arith
