-- ===== src/Mtu/Search/Bounds.antt =====
-- The conversions between payloads and MTUs, and the choice of the next payload, in range.
use verkkokyyla.Mtu.Search.{payload_to_mtu, mtu_to_payload, next_refine_payload, confirm_attempts}
use verkkokyyla.Mtu.Types.{MtuConfig, IsValid}
use verkkokyyla.Prelude.Machine.{u32_max, clamp, saturate}
use verkkokyyla.Prelude.{ℕ, ◌+◌, ◌≤◌, ◌<◌, ◌≡◌, Option, none, some, arith}

pub payload_to_mtu_fits : (p : ℕ) → p + 28 ≤ u32_max → payload_to_mtu p ≡ p + 28
unfolding payload_to_mtu saturate
payload_to_mtu_fits p h = ground arith

pub mtu_to_payload_inside :
    (c : MtuConfig) (mtu : ℕ)
    → IsValid c
    → c.floor_mtu ≤ mtu
    → mtu ≤ c.ceiling_mtu
    → mtu_to_payload c mtu + 28 ≡ mtu
unfolding mtu_to_payload clamp
mtu_to_payload_inside c mtu v h k = ground arith

-- A refinement probe stays in the bracket, and strictly inside if there is room.
pub next_refine_payload_bounds :
    (c : MtuConfig) (low high : ℕ) (hint : Option ℕ)
    → low < high
    → (low ≤ next_refine_payload c low high hint)
      × (next_refine_payload c low high hint < high)
      × (low + 2 ≤ high → low < next_refine_payload c low high hint)
unfolding next_refine_payload
next_refine_payload_bounds c low high none h = omega arith
next_refine_payload_bounds c low high (some mtu) h = ground arith

pub confirm_attempts_pos : (c : MtuConfig) → 1 ≤ confirm_attempts c
unfolding confirm_attempts
confirm_attempts_pos c = omega arith
