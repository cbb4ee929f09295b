-- ===== src/ConfigEntries/Lifecycle/Delay.antt =====
-- `calculate_retry_delay` of state_machine.rs, in seconds, less its random fraction of 0.1 s.
use Prim.Native.Nat.{min}
use homeassistant_rs.Base.{ℕ, zero, suc, ◌*◌, ◌^◌, ◌≤◌, ◌<◌, ◌≡◌, refl, arith}

-- `2_u32.pow(tries.min(4)) * 5`.
unfoldable pub base_delay : ℕ → ℕ
base_delay tries = 2 ^ min tries 4 * 5

doubling : (tries : ℕ) → tries < 4 → base_delay (suc tries) ≡ 2 * base_delay tries
unfolding base_delay
doubling zero h = refl
doubling (suc zero) h = refl
doubling (suc (suc zero)) h = refl
doubling (suc (suc (suc zero))) h = refl
doubling (suc (suc (suc (suc n)))) h = absurd (omega arith)

min_four : (n : ℕ) → 4 ≤ n → min n 4 ≡ 4
min_four n h = omega arith

capped : (tries : ℕ) → 4 ≤ tries → base_delay tries ≡ 80
unfolding base_delay
capped tries h = rw (min_four tries h)

below_80 : (tries : ℕ) → (5 ≤ base_delay tries) × (base_delay tries ≤ 80)
unfolding base_delay
below_80 zero = omega arith
below_80 (suc zero) = omega arith
below_80 (suc (suc zero)) = omega arith
below_80 (suc (suc (suc zero))) = omega arith
below_80 (suc (suc (suc (suc n)))) =
    rw (min_four (suc (suc (suc (suc n)))) (omega arith)) (omega arith)

-- The delay starts at 5 s, doubles with each of the first four tries and stays at 80 s from then on;
-- so it lies between 5 s and 80 s, and the `u32` arithmetic does not overflow.
pub base_delay_backoff :
    (tries : ℕ)
    → (base_delay 0 ≡ 5)
      × (tries < 4 → base_delay (suc tries) ≡ 2 * base_delay tries)
      × (4 ≤ tries → base_delay tries ≡ 80)
      × (5 ≤ base_delay tries)
      × (base_delay tries ≤ 80)
unfolding base_delay
base_delay_backoff tries =
    (refl, doubling tries, capped tries, (below_80 tries).0, (below_80 tries).1)
