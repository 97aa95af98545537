-- ===== src/EngineCore/Trigger/Counting.antt =====
-- Counting the teeth of one revolution, apart from the decoders.
use rust_ems.Base.{
  ℕ, ◌+◌, ◌≤◌, ◌<◌, ◌≡◌, ◌⊎◌, inl, inr, refl, Bool-cases, true, false, not, ◌&&◌, none, some, leb,
  ◌==◌, eq→==, ne→==, lt→leb, lt→ltb, arith,
}
use rust_ems.Base.Words.{u32_wrapping_add, u32_saturating_add}
use rust_ems.EngineCore.Trigger.{
  SyncState, unsynced, crank_synced, is_unsynced, too_few_teeth, Cycle, at_sync_point, at_tooth,
}

-- Without sync, or with no more teeth than a revolution has.
abbrev pub IsCounted : ℕ → Cycle → Type 0
IsCounted expected c = (c.sync ≡ unsynced) ⊎ (c.tooth_count ≤ expected)

unsynced_true : (s : SyncState) → is_unsynced s ≡ true → s ≡ unsynced
unsynced_true s e = ground arith

pub at_sync_point-IsCounted :
    (expected : ℕ) (c : Cycle) → IsCounted expected (at_sync_point expected c).0
unfolding at_sync_point
at_sync_point-IsCounted expected c =
    elim (Bool-cases (not (is_unsynced c.sync) && not (c.tooth_count == expected))) [
      | inl e ↦ rw (e, at_sync_point) (inl refl)
      | inr e ↦ rw (e, at_sync_point) (inr (omega arith))
    ]

pub at_tooth-IsCounted :
    (expected : ℕ) (c : Cycle) → expected < 4294967296 → IsCounted expected (at_tooth expected c).0
unfolding at_tooth
at_tooth-IsCounted expected c small = elim (Bool-cases (is_unsynced c.sync)) [
  | inl e ↦ rw (e, at_tooth) (inl (unsynced_true c.sync e))
  | inr e ↦ elim (Bool-cases (leb expected c.tooth_count)) [
    | inl l ↦ rw (e, at_tooth, l) (inl refl)
    | inr g ↦ rw (e, at_tooth, g) (inr (ground arith))
  ]
]

-- A tooth within the revolution of a synchronised wheel.
pub at_tooth_lem :
    (expected : ℕ) (c : Cycle)
    → is_unsynced c.sync ≡ false
    → c.tooth_count < expected
    → expected < 4294967296
    → at_tooth expected c ≡ (record c { tooth_count = c.tooth_count + 1 }, none)
unfolding at_tooth
at_tooth_lem expected c e h small =
    let next : u32_wrapping_add c.tooth_count 1 ≡ c.tooth_count + 1 = omega arith in
    rw (e, lt→leb expected c.tooth_count h, next)

-- The gap of a synchronised wheel, after too few teeth or after all of them.
pub at_sync_point_early :
    (expected : ℕ) (c : Cycle)
    → is_unsynced c.sync ≡ false
    → c.tooth_count < expected
    → at_sync_point expected c ≡ (record c { sync = unsynced; tooth_count = 0 }, some too_few_teeth)
unfolding at_sync_point
at_sync_point_early expected c e h =
    rw (e, ne→== c.tooth_count expected (omega arith), lt→ltb c.tooth_count expected h)

pub at_sync_point_complete :
    (expected : ℕ) (c : Cycle)
    → is_unsynced c.sync ≡ false
    → c.tooth_count ≡ expected
    → at_sync_point expected c ≡ (
      record {
        sync = crank_synced;
        sync_counter = u32_saturating_add c.sync_counter 1;
        tooth_count = 0;
      },
      none,
    )
unfolding at_sync_point
at_sync_point_complete expected c e h = rw (e, eq→== c.tooth_count expected h)
