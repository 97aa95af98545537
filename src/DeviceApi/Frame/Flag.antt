-- ===== src/DeviceApi/Frame/Flag.antt =====
-- The flag bits are independent of one another.
use rust_ems.Base.{
  ℕ, zero, suc, ◌<◌, ◌≡◌, refl, Bool, true, ◌&&◌, not, arith, if◌then◌else◌, ltb, ltb→lt,
}
use rust_ems.DeviceApi.Frame.{Flags, has, with_bit, fragment, last_fragment}

-- `p` of every number below the bound, by counting down.
holds_below : (ℕ → Bool) → ℕ → Bool
holds_below p zero = true
holds_below p (suc bound) = holds_below p bound && p bound

read_off : (p : ℕ → Bool) (bound f : ℕ) → f < bound → holds_below p bound ≡ true → p f ≡ true
unfolding holds_below
read_off p zero f small table = absurd (omega arith)
read_off p (suc bound) f small table = ground (arith, read_off p bound f)

-- Over every flag byte: the fragment bit is set by `with`, and the last-fragment bit stays as it is.
fragment_table :
    holds_below
      (λ f.
        has (with_bit f fragment) fragment
        && (if has f last_fragment
            then has (with_bit f fragment) last_fragment
            else not (has (with_bit f fragment) last_fragment)))
      256
    ≡ true
unfolding holds_below has with_bit
fragment_table = refl

last_table :
    holds_below
      (λ f.
        has (with_bit f last_fragment) last_fragment
        && (if has f fragment
            then has (with_bit f last_fragment) fragment
            else not (has (with_bit f last_fragment) fragment)))
      256
    ≡ true
unfolding holds_below has with_bit
last_table = refl

pub has-with_fragment :
    (f : Flags)
    → f < 256
    → (has (with_bit f fragment) fragment ≡ true)
      × (has (with_bit f fragment) last_fragment ≡ has f last_fragment)
has-with_fragment f h = let t = read_off _ 256 f h fragment_table in ground arith

pub has-with_last :
    (f : Flags)
    → f < 256
    → (has (with_bit f last_fragment) last_fragment ≡ true)
      × (has (with_bit f last_fragment) fragment ≡ has f fragment)
has-with_last f h = let t = read_off _ 256 f h last_table in ground arith

width_table : holds_below (λ f. ltb (with_bit f fragment) 256) 256 ≡ true
unfolding holds_below with_bit
width_table = refl

pub with_fragment-lt : (f : Flags) → f < 256 → with_bit f fragment < 256
with_fragment-lt f h = ltb→lt _ _ (read_off _ 256 f h width_table)
