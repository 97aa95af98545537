-- ===== src/EngineCore/Telemetry/Streams.antt =====
-- engine-core/src/comms/telemetry.rs: the streams that a host has subscribed to.
use rust_ems.Base.{
  ℕ, zero, suc, ◌+◌, ◌/◌, List, [], ◌∷◌, length, replicate, get_or, set, Bool, true, false, Option,
  none, some, Result, ok, err, ltb, if◌then◌else◌, max, min,
}
use rust_ems.F32.{F32}
use rust_ems.Heapless.{HeaplessVec}
use rust_ems.EngineCore.Telemetry.{channel_meta}

abbrev pub max_streams : ℕ
max_streams = 4

abbrev pub max_stream_channels : ℕ
max_stream_channels = 16

abbrev pub max_rate_hz : ℕ
max_rate_hz = 100

pub record Stream : Type 0 where
  pub channels : List ℕ
  pub interval_ms : ℕ
  pub next_due_ms : ℕ
  pub seq : ℕ

pub data SubscribeError : Type 0 where
  no_free_stream too_many_channels : SubscribeError
  bad_channel : ℕ → SubscribeError

-- `TelemetryStreams` is its array of slots.
abbrev pub TelemetryStreams : Type 0
TelemetryStreams = List (Option Stream)

pub new_streams : TelemetryStreams
new_streams = replicate max_streams none

-- The first slot that is free, with its index counted from `idx`.
pub find_free : TelemetryStreams → ℕ → Option ℕ
find_free [] idx = none
find_free (slot ∷ slots) idx =
    let later = find_free slots (suc idx) in elim slot [ none ↦ some idx | some _ ↦ later ]

module _ {F : Type 0} (f : F32 F) (V : HeaplessVec ℕ) where
  -- The layout of the channels asked for, on top of `layout`.
  pub collect : List ℕ → List ℕ → Result SubscribeError (List ℕ)
  collect layout [] = ok layout
  collect layout (ch ∷ later) =
      let rest =
        collect (elim (V.push max_stream_channels layout ch) [ none ↦ layout | some l ↦ l ])
          later in
      elim (channel_meta f ch) [ none ↦ err (bad_channel ch) | some _ ↦ rest ]

  pub place_stream :
      TelemetryStreams → List ℕ → ℕ → ℕ → TelemetryStreams × Result SubscribeError (ℕ × ℕ)
  unfolding find_free
  place_stream slots layout rate now_ms = elim (find_free slots 0) [
    | none ↦ (slots, err no_free_stream)
    | some idx ↦ (
      set slots idx (
          some (record {
            channels = layout;
            interval_ms = 1000 / rate;
            next_due_ms = now_ms;
            seq = 0;
          })),
      ok (idx + 1, rate),
    )
  ]

  pub subscribe :
      TelemetryStreams → List ℕ → ℕ → ℕ → TelemetryStreams × Result SubscribeError (ℕ × ℕ)
  unfolding collect place_stream
  subscribe slots channels rate_hz now_ms =
      if ltb max_stream_channels (length channels)
      then (slots, err too_many_channels)
      else elim (collect [] channels) [
        | err e ↦ (slots, err e)
        | ok layout ↦ place_stream slots layout (min (max rate_hz 1) max_rate_hz) now_ms
      ]

-- Stream identifiers begin at 1.
pub unsubscribe : TelemetryStreams → ℕ → TelemetryStreams × Bool
unsubscribe slots zero = (slots, false)
unsubscribe slots (suc idx) = elim (get_or slots idx none) [
  | none ↦ (slots, false)
  | some _ ↦ (set slots idx none, true)
]

pub clear : TelemetryStreams → TelemetryStreams
clear [] = []
clear (slot ∷ slots) = none ∷ clear slots

pub active : TelemetryStreams → ℕ
active [] = 0
active (slot ∷ slots) = let rest = active slots in elim slot [ none ↦ rest | some _ ↦ rest + 1 ]
