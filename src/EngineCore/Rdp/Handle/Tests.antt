-- ===== src/EngineCore/Rdp/Handle/Tests.antt =====
-- The theorems on the server at concrete runs: a parameter is set, a knock is reported, and the configuration is
-- saved; a bench test is asked for, and another one while the engine runs. Numbers have three decimals, and a
-- request's body decodes as one parameter or one bench test.
use rust_ems.Base.{ℕ, ◌≡◌, refl, [], ◌∷◌, replicate, none, some, true, false}
use rust_ems.F32.{fixed_point}
use rust_ems.Heapless.{list_vec, list_deque, list_retain}
use rust_ems.DeviceApi.Message.{f32, read_message_header}
use rust_ems.DeviceApi.Cbor.{Cbor}
use rust_ems.EngineCore.Config.{default_4cyl}
use rust_ems.EngineCore.Telemetry.{zeroed}
use rust_ems.EngineCore.Rdp.{Externals, Device, RdpContext, sim_identity, new, note_knock}
use rust_ems.EngineCore.Rdp.Report.{knocked}
use rust_ems.EngineCore.Rdp.Handle.{handle}
use rust_ems.EngineCore.Rdp.Handle.Gate.{handle_bench_gated}
use rust_ems.EngineCore.Rdp.Handle.Clean.{
  IsClean, persisted, booted, handled, reported, Reachable-IsClean,
}

abbrev one_parameter : Cbor ℕ
one_parameter = record {
  encode_to_slice = λ body slice. (slice, some 0);
  decode_ping = λ bytes. none;
  decode_reboot = λ bytes. none;
  decode_enter_bootloader = λ bytes. none;
  decode_get_catalog = λ bytes. none;
  decode_param_get = λ bytes. none;
  decode_param_set = λ bytes. some (record {
    entries =
        record { id = 0x120; value = record { vtype = f32; raw = 0 ∷ (0 ∷ (1 ∷ (0 ∷ []))) } } ∷ [];
  });
  decode_table_get = λ bytes. none;
  decode_table_set_cell = λ bytes. none;
  decode_table_set_axis = λ bytes. none;
  decode_config_reset_defaults = λ bytes. none;
  decode_subscribe = λ bytes. none;
  decode_unsubscribe = λ bytes. none;
  decode_read_once = λ bytes. none;
  decode_bench_test = λ bytes. none;
  decode_set_override = λ bytes. none;
  decode_clear_override = λ bytes. none;
  decode_calibrate = λ bytes. none;
  decode_clear_faults = λ bytes. none;
}

abbrev lists : Externals ℕ
lists = record {
  f = fixed_point;
  cbor = one_parameter;
  vec = λ A. list_vec;
  deque = list_deque;
  retain = list_retain;
  as_bytes = λ text. [];
  config_bytes = 4000;
}

abbrev context : RdpContext ℕ
context = record {
  flash = default_4cyl fixed_point list_vec;
  defaults = default_4cyl fixed_point list_vec;
  outputs = zeroed fixed_point;
  now_ms = 1000;
  engine_running = false;
}

abbrev started : Device ℕ
started = record { server = new lists (sim_identity 4) context.flash; ram = context.flash }

abbrev edited_device : Device ℕ
edited_device = (handle lists (0 ∷ (2 ∷ (3 ∷ []))) context started (replicate 16 0)).device

abbrev knocked_device : Device ℕ
knocked_device = record edited_device { server = note_knock lists edited_device.server 1 1500 990 }

Reachable-IsClean_example :
    IsClean lists
      (persisted lists context
        (handle lists (0 ∷ (6 ∷ (3 ∷ []))) context knocked_device (replicate 16 0)))
      (handle lists (0 ∷ (6 ∷ (3 ∷ []))) context knocked_device (replicate 16 0)).device
unfolding handle default_4cyl read_message_header
Reachable-IsClean_example = Reachable-IsClean lists (
    handled context (0 ∷ (6 ∷ (3 ∷ []))) (replicate 16 0) (
      reported (knocked 1 1500 990) (
        handled context (0 ∷ (2 ∷ (3 ∷ []))) (replicate 16 0)
          (booted (sim_identity 4) context.flash))))

abbrev one_bench_test : Externals ℕ
one_bench_test = record lists {
  cbor = record one_parameter {
    decode_bench_test =
        λ bytes. some (record { target = 0; index = 1; on_ms = 5; off_ms = 20; count = 3 });
  };
}

abbrev bench_device : Device ℕ
bench_device = (handle one_bench_test (0 ∷ (1 ∷ (5 ∷ []))) context started (replicate 16 0)).device

handle_bench_gated_example :
    (handle one_bench_test
      (0 ∷ (1 ∷ (5 ∷ [])))
      (record context { engine_running = true })
      bench_device
      (replicate 16 0)).device.server.pending_bench
    ≡ bench_device.server.pending_bench
handle_bench_gated_example =
    handle_bench_gated one_bench_test (record context { engine_running = true })
      (0 ∷ (1 ∷ (5 ∷ []))) bench_device (replicate 16 0) refl
