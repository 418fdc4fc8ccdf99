-- ===== src/StorageItem/Rounding.antt =====
-- The weight that `storage_weight_from_max_stack_size` of storage_item.py gives is rounded up.
use native.Mathlib.Nat.{div-add-mod', mod-lt}
use endstone_blockdata_api.Base.{ℕ, ◌+◌, ◌-◌, ◌*◌, ◌/◌, ◌≤◌, ◌<◌, ◌≡◌, zero, suc, subst, ok, arith}
use endstone_blockdata_api.Base.Int.{pos}
use endstone_blockdata_api.StorageItem.Weight.{storage_weight_from_max_stack_size}

weight_parts :
    (size most weight : ℕ)
    → storage_weight_from_max_stack_size (pos size) (pos most) ≡ ok (pos weight)
    → (0 < size) × (0 < most) × ((most + size - 1) / size ≡ weight)
unfolding storage_weight_from_max_stack_size
weight_parts size most weight h = ground (arith, h)

quotient_least :
    (size most q r : ℕ)
    → 0 < most
    → q * size + r ≡ most + size - 1
    → r < size
    → (most ≤ q * size) × (q * size < most + size) × (1 ≤ q)
quotient_least size most zero r positive whole small = absurd (omega (arith, whole))
quotient_least size most (suc q) r positive whole small = (omega arith, omega arith, omega arith)

-- The unit weight for a maximum stack size and a maximum weight is positive; a full stack then
-- weighs at least the maximum weight, and less than the maximum weight and the stack size
-- together, so that no smaller unit weight would do.
pub storage_weight_least :
    (size most weight : ℕ)
    → storage_weight_from_max_stack_size (pos size) (pos most) ≡ ok (pos weight)
    → (most ≤ weight * size) × (weight * size < most + size) × (1 ≤ weight)
storage_weight_least size most weight h =
    let (sized, positive, same) = weight_parts size most weight h in
    subst (λ w. (most ≤ w * size) × (w * size < most + size) × (1 ≤ w)) same
      (quotient_least size most _ _ positive (div-add-mod' (most + size - 1) size)
        (mod-lt (most + size - 1) sized))
