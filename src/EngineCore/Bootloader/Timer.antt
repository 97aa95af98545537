-- ===== src/EngineCore/Bootloader/Timer.antt =====
-- The auto-boot timer.
use rust_ems.Base.{
  sum, le_or_lt, ℕ, ◌+◌, ◌-◌, ◌≤◌, ◌<◌, ◌≡◌, inl, inr, ap, ◌∙◌, List, [], ◌∷◌, true, false, leb,
  le→leb, lt→leb, eq→==, ne→==, if◌then◌else◌, arith,
}
use rust_ems.EngineCore.Bootloader.{normal, bootloader, Bootloader, tick, update, is_bootloader}

-- Calls of `update` in a row.
pub run : Bootloader → List ℕ → Bootloader
run b [] = b
run b (dt_ms ∷ later) = run (update b dt_ms).0 later

update_elsewhere :
    (b : Bootloader) (dt_ms : ℕ) → is_bootloader b.state ≡ false → (update b dt_ms).0 ≡ b
unfolding update tick
update_elsewhere b dt_ms e = rw (e, tick)

update_booted :
    (b : Bootloader) (dt_ms : ℕ)
    → b.state ≡ bootloader
    → b.boot_timer_ms ≤ dt_ms
    → (update b dt_ms).0.state ≡ normal
unfolding update tick
update_booted b dt_ms e h =
    let on : is_bootloader b.state ≡ true = ap is_bootloader e in
    rw (on, tick, eq→== (b.boot_timer_ms - dt_ms) 0 (omega arith))

update_waiting :
    (b : Bootloader) (dt_ms : ℕ)
    → b.state ≡ bootloader
    → dt_ms < b.boot_timer_ms
    → (update b dt_ms).0 ≡ record b { boot_timer_ms = b.boot_timer_ms - dt_ms }
unfolding update tick
update_waiting b dt_ms e h =
    let on : is_bootloader b.state ≡ true = ap is_bootloader e in
    rw (on, tick, ne→== (b.boot_timer_ms - dt_ms) 0 (omega arith))

run_booted : (b : Bootloader) (dts : List ℕ) → b.state ≡ normal → (run b dts).state ≡ normal
unfolding run
run_booted b [] e = e
run_booted b (dt_ms ∷ later) e =
    let same = update_elsewhere b dt_ms (ap is_bootloader e) in
    ap (λ b'. (run b' later).state) same ∙ run_booted b later e

same_test : (t d s : ℕ) → d < t → leb (t - d) s ≡ leb t (d + s)
same_test t d s h = ground arith

-- A bootloader that waits and is left alone but for calls of `update`, one at least, has booted the
-- application exactly when the times of the calls add up to what was left on its timer.
pub run-boots :
    (b : Bootloader) (dt_ms : ℕ) (later : List ℕ)
    → b.state ≡ bootloader
    → (run b (dt_ms ∷ later)).state
      ≡ (if leb b.boot_timer_ms (sum (dt_ms ∷ later)) then normal else bootloader)
unfolding run
run-boots b dt_ms [] e = elim (le_or_lt b.boot_timer_ms dt_ms) [
  | inl h ↦ rw (le→leb b.boot_timer_ms (dt_ms + 0) (omega arith)) (update_booted b dt_ms e h)
  | inr h ↦
      ap (λ (b' : Bootloader). b'.state) (update_waiting b dt_ms e h)
      ∙ rw (lt→leb b.boot_timer_ms (dt_ms + 0) (omega arith)) e
]
run-boots b dt_ms (d ∷ ds) e =
    let rest = run-boots (record b { boot_timer_ms = b.boot_timer_ms - dt_ms }) d ds e in
    elim (le_or_lt b.boot_timer_ms dt_ms) [
      | inl h ↦
          rw (le→leb b.boot_timer_ms (dt_ms + (d + sum ds)) (omega arith))
            (run_booted (update b dt_ms).0 (d ∷ ds) (update_booted b dt_ms e h))
      | inr h ↦
          ap (λ b'. (run b' (d ∷ ds)).state) (update_waiting b dt_ms e h)
          ∙ rest
          ∙ ap (λ c. if c then normal else bootloader)
              (same_test b.boot_timer_ms dt_ms (d + sum ds) h)
    ]
