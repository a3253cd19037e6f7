-- ===== src/Gamepad/Mask.antt =====
-- The bits of the controller mask, and the A/B swap, bit by bit.
use moonlight_scarlet.Prelude.{
  ℕ, zero, suc, ◌+◌, ◌-◌, ◌^◌, ◌≤◌, ◌<◌, ◌⊎◌, inl, inr, bit_and, bit_or, ◌≡◌, refl, ◌∙◌, Bool, true,
  false, not, ◌&&◌, ◌||◌, Option, none, some, List, [], ◌∷◌, if◌then◌else◌, ◌==◌, leb, is_some, set,
  get_or-set_self, get_or-set_ne, length, arith,
}
use moonlight_scarlet.Prelude.Bits.{
  test_bit, test_bit-zero, test_bit-bit_or, test_bit-bit_and, test_bit-pow, test_bit-complement,
  bit_and-pow, bit_or-lt, pow-lt,
}
use native.Mathlib.Decide.{ℕ_discrete}
use native.Mathlib.Nat.{one-le-pow}
use moonlight_scarlet.Sys.Buttons.{button_bits}
use moonlight_scarlet.Gamepad.Defs.{Device, slot_at, mask_from, mask, swap_buttons}

-- The slots from `slot` on, read by their absolute number.
abbrev from_slot : ℕ → List (Option Device) → ℕ → Bool
from_slot slot ds k = leb slot k && is_some (slot_at ds (k - slot))

slot_at-cons :
    (d : Option Device) (ds : List (Option Device)) (i : ℕ)
    → slot_at (d ∷ ds) i ≡ (if i == 0 then d else slot_at ds (i - 1))
slot_at-cons d ds zero = refl
slot_at-cons d ds (suc i) = ground arith

from_slot-cons :
    (d : Option Device) (ds : List (Option Device)) (slot k : ℕ)
    → from_slot slot (d ∷ ds) k ≡ ((is_some d && slot == k) || from_slot (slot + 1) ds k)
from_slot-cons d ds slot k = elim (slot_cases slot k) [
  | inl lt ↦ ground arith
  | inr ge ↦
      let e : k - slot - 1 ≡ k - (slot + 1) = omega arith in
      rw (slot_at-cons d ds (k - slot), e) (ground arith)
]
  where
    slot_cases : (s n : ℕ) → (n < s) ⊎ (s ≤ n)
    slot_cases s n = grind arith

add_slot :
    (d : Option Device) (slot acc k : ℕ)
    → test_bit (bit_or acc (if is_some d then 2 ^ slot else 0)) k
      ≡ (test_bit acc k || (is_some d && slot == k))
add_slot none slot acc k = ground (arith, test_bit-bit_or k acc 0, test_bit-zero k)
add_slot (some d) slot acc k = ground (arith, test_bit-bit_or k acc (2 ^ slot), test_bit-pow slot k)

test_bit-mask_from :
    (ds : List (Option Device)) (slot acc k : ℕ)
    → test_bit (mask_from slot acc ds) k ≡ (test_bit acc k || from_slot slot ds k)
unfolding mask_from
test_bit-mask_from [] slot acc k = ground arith
test_bit-mask_from (d ∷ ds) slot acc k =
    test_bit-mask_from ds (slot + 1) _ k
    ∙ ground (arith, add_slot d slot acc k, from_slot-cons d ds slot k)

-- Bit `k` of a mask tells whether slot `k` holds a device.
pub test_bit-mask :
    (ds : List (Option Device)) (k : ℕ) → test_bit (mask ds) k ≡ is_some (slot_at ds k)
unfolding mask
test_bit-mask ds k = ground (arith, test_bit-mask_from ds 0 0 k, test_bit-zero k)

test_bit-choice : (c : Bool) (j k : ℕ) → test_bit (if c then 2 ^ j else 0) k ≡ (c && j == k)
test_bit-choice true j k = test_bit-pow j k
test_bit-choice false j k = test_bit-zero k

-- The bits of A and B together.
test_bit_pair : (k : ℕ) → test_bit 0x3000 k ≡ (12 == k || 13 == k)
test_bit_pair k =
    test_bit-bit_or k 0x1000 0x2000 ∙ ground (arith, test_bit-pow 12 k, test_bit-pow 13 k)

-- The swap exchanges bits 12 and 13 of a 32-bit button map and keeps the others.
pub test_bit-swap_buttons :
    (buttons k : ℕ)
    → k < 32
    → test_bit (swap_buttons buttons) k ≡ (
        if k == 12
        then test_bit buttons 13
        else if k == 13
        then test_bit buttons 12
        else test_bit buttons k)
unfolding swap_buttons button_bits
test_bit-swap_buttons buttons k h =
    rw
      (
        test_bit-bit_or,
        test_bit-bit_or,
        test_bit-bit_and,
        test_bit-complement 32 k 0x3000 h (omega arith),
        bit_and-pow buttons 12,
        bit_and-pow buttons 13,
        test_bit_pair,
        test_bit-choice (not (not (test_bit buttons 12))) 13 k,
        test_bit-choice (not (not (test_bit buttons 13))) 12 k,
      )
      (ground arith)

mask_from-lt :
    (n : ℕ) (ds : List (Option Device)) (slot acc : ℕ)
    → slot + length ds ≤ n
    → acc < 2 ^ n
    → mask_from slot acc ds < 2 ^ n
unfolding mask_from
mask_from-lt n [] slot acc fits h = h
mask_from-lt n (none ∷ ds) slot acc fits h =
    mask_from-lt n ds (slot + 1) (bit_or acc 0) (omega arith)
      (bit_or-lt n acc 0 h (omega (arith, one-le-pow n 2 (omega arith))))
mask_from-lt n (some d ∷ ds) slot acc fits h =
    mask_from-lt n ds (slot + 1) (bit_or acc (2 ^ slot)) (omega arith)
      (bit_or-lt n acc (2 ^ slot) h (pow-lt n slot (omega arith)))

-- Sixteen slots fit the `u16` of the protocol.
pub mask-lt : (ds : List (Option Device)) → length ds ≤ 16 → mask ds < 2 ^ 16
unfolding mask
mask-lt ds h = mask_from-lt 16 ds 0 0 (omega arith) (omega arith)

-- The mask of a release has the slot's own bit clear, that of an arrival has it set.
pub test_bit-release :
    (ds : List (Option Device)) (slot k : ℕ)
    → slot < 16
    → k < 16
    → test_bit (bit_and (mask ds) (2 ^ 16 - 1 - 2 ^ slot)) k
      ≡ (is_some (slot_at ds k) && not (slot == k))
test_bit-release ds slot k hs hk = rw (
  test_bit-bit_and,
  test_bit-mask,
  test_bit-complement 16 k (2 ^ slot) hk (pow-lt 16 slot hs),
  test_bit-pow,
)

pub test_bit-arrival :
    (ds : List (Option Device)) (slot k : ℕ)
    → test_bit (bit_or (mask ds) (2 ^ slot)) k ≡ (is_some (slot_at ds k) || slot == k)
test_bit-arrival ds slot k = rw (test_bit-bit_or, test_bit-mask, test_bit-pow)

pub slot_at-set :
    (ds : List (Option Device)) (slot k : ℕ) (v : Option Device)
    → length ds ≡ 16
    → slot < 16
    → slot_at (set ds slot v) k ≡ (if slot == k then v else slot_at ds k)
slot_at-set ds slot k v e h = elim (ℕ_discrete slot k) [
  | yes p ↦ rw (← p) (ground (arith, get_or-set_self ds slot v none))
  | no p ↦ ground (arith, get_or-set_ne ds slot k v none)
]
