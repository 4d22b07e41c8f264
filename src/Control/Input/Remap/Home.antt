-- ===== src/Control/Input/Remap/Home.antt =====
-- The remap's buttons: which bits of the flags come out, in every state.
use moonshine.Common.{
  ℕ, zero, suc, ◌<◌, min, max, ◌≡◌, refl, ap, ◌∙◌, Bool, true, false, not, ◌&&◌, some, bit_and,
  bit_or, ◌==◌, leb, if◌then◌else◌, arith, Bool-cases, inl, inr, ==_iff,
}
use moonshine.Common.Bits.{not_32, bit, bit-or, bit-and}
use moonshine.Control.Input.Remap.{
  back_flag, special_flag, State, inactive, pending, home_held, tapping, HoldToHome,
  passthrough_flags, apply_state, apply_with, apply,
}

all_below : ℕ → (ℕ → Bool) → Bool
all_below zero p = true
all_below (suc n) p = p n && all_below n p

both_left : (a b : Bool) → (a && b) ≡ true → a ≡ true
both_left true b e = refl
both_left false b e = cc

both_right : (a b : Bool) → (a && b) ≡ true → b ≡ true
both_right true b e = e
both_right false b e = cc

all_below_lem : (n : ℕ) (p : ℕ → Bool) (k : ℕ) → all_below n p ≡ true → k < n → p k ≡ true
unfolding all_below
all_below_lem zero p k e h = absurd (omega arith)
all_below_lem (suc n) p k e h = elim (Bool-cases (k == n)) [
  | inl here ↦ rw ((==_iff k n).0 here) (both_left (p n) (all_below n p) e)
  | inr there ↦ all_below_lem n p k (both_right (p n) (all_below n p) e) (ground arith)
]

-- Bits 5 and 10 are Back and Home.
masks_ok : ℕ → Bool
masks_ok k =
    (bit (not_32 back_flag) k == (if k == 5 then 0 else 1))
    && (bit (not_32 special_flag) k == (if k == 10 then 0 else 1))
    && (bit back_flag k == (if k == 5 then 1 else 0))
    && (bit special_flag k == (if k == 10 then 1 else 0))

masks_checked : all_below 32 masks_ok ≡ true
unfolding all_below masks_ok
masks_checked = refl

masks_at : (k : ℕ) → k < 32 → masks_ok k ≡ true
masks_at k h = all_below_lem 32 masks_ok k masks_checked h

unfoldable pub one_at : ℕ → ℕ → ℕ
one_at j k = if k == j then 1 else 0

unfoldable zero_at : ℕ → ℕ → ℕ
zero_at j k = if k == j then 0 else 1

tests :
    (a b c d : Bool) → (a && b && c && d) ≡ true → (a ≡ true) × (b ≡ true) × (c ≡ true) × (d ≡ true)
tests true true true true e = (refl, refl, refl, refl)
tests false b c d e = cc
tests true false c d e = cc
tests true true false d e = cc
tests true true true false e = cc

masks :
    (k : ℕ)
    → k < 32
    → (bit (not_32 back_flag) k ≡ zero_at 5 k)
      × (bit (not_32 special_flag) k ≡ zero_at 10 k)
      × (bit back_flag k ≡ one_at 5 k)
      × (bit special_flag k ≡ one_at 10 k)
unfolding masks_ok zero_at one_at
masks k h =
    let four =
      tests (bit (not_32 back_flag) k == zero_at 5 k) (bit (not_32 special_flag) k == zero_at 10 k)
        (bit back_flag k == one_at 5 k) (bit special_flag k == one_at 10 k) (masks_at k h) in
    (
      (==_iff (bit (not_32 back_flag) k) (zero_at 5 k)).0 (four.0),
      (==_iff (bit (not_32 special_flag) k) (zero_at 10 k)).0 (four.1),
      (==_iff (bit back_flag k) (one_at 5 k)).0 (four.2),
      (==_iff (bit special_flag k) (one_at 10 k)).0 (four.3),
    )

-- Bit `k` of what the client sent once the remap has taken its bits out.
unfoldable pub passed : Bool → ℕ → ℕ → ℕ
passed suppress flags k = if k == 5 then 0 else if (k == 10) && suppress then 0 else bit flags k

bit_small : (x k : ℕ) → bit x k < 2
bit_small x k = omega arith

pick_home :
    (b k : ℕ)
    → b < 2
    → min (min b (zero_at 5 k)) (zero_at 10 k)
      ≡ (if k == 5 then 0 else if (k == 10) && true then 0 else b)
unfolding zero_at
pick_home b k h = ground arith

pick :
    (b k : ℕ)
    → b < 2
    → min b (zero_at 5 k) ≡ (if k == 5 then 0 else if (k == 10) && false then 0 else b)
unfolding zero_at
pick b k h = ground arith

pub bit-passthrough :
    (suppress : Bool) (flags k : ℕ)
    → k < 32
    → bit (passthrough_flags suppress back_flag flags) k ≡ passed suppress flags k
unfolding passthrough_flags passed
bit-passthrough true flags k h =
    let at = masks k h in
    bit-and k (bit_and flags (not_32 back_flag)) (not_32 special_flag)
    ∙ ap (λ (t : ℕ). min t (bit (not_32 special_flag) k)) (bit-and k flags (not_32 back_flag))
    ∙ ap (λ (t : ℕ). min (min (bit flags k) t) (bit (not_32 special_flag) k)) (at.0)
    ∙ ap (λ (t : ℕ). min (min (bit flags k) (zero_at 5 k)) t) (at.1)
    ∙ pick_home (bit flags k) k (bit_small flags k)
bit-passthrough false flags k h =
    bit-and k flags (not_32 back_flag)
    ∙ ap (λ (t : ℕ). min (bit flags k) t) ((masks k h).0)
    ∙ pick (bit flags k) k (bit_small flags k)

-- The bit that a state adds to what is passed through: Back in a tap, Home in a hold.
unfoldable pub emitted : State → ℕ → ℕ
emitted inactive k = 0
emitted (pending deadline) k = 0
emitted home_held k = one_at 10 k
emitted (tapping release_at) k = one_at 5 k

pub or_back : (p k : ℕ) → k < 32 → bit (bit_or p back_flag) k ≡ max (bit p k) (one_at 5 k)
or_back p k h = bit-or k p back_flag ∙ ap (λ (t : ℕ). max (bit p k) t) ((masks k h).2)

pub or_home : (p k : ℕ) → k < 32 → bit (bit_or p special_flag) k ≡ max (bit p k) (one_at 10 k)
or_home p k h = bit-or k p special_flag ∙ ap (λ (t : ℕ). max (bit p k) t) ((masks k h).3)

max-zero : (n : ℕ) → n ≡ max n 0
max-zero n = omega arith

apply_state_bits :
    (s : State) (pressed : Bool) (p hold now k : ℕ)
    → k < 32
    → bit ((apply_state s pressed back_flag p hold now).1) k
      ≡ max (bit p k) (emitted ((apply_state s pressed back_flag p hold now).0) k)
unfolding apply_state emitted
apply_state_bits inactive true p hold now k h = max-zero (bit p k)
apply_state_bits inactive false p hold now k h = max-zero (bit p k)
apply_state_bits (pending deadline) false p hold now k h = or_back p k h
apply_state_bits (pending deadline) true p hold now k h = elim (Bool-cases (leb deadline now)) [
  | inl due ↦ rw due (or_home p k h)
  | inr early ↦ rw early (max-zero (bit p k))
]
apply_state_bits home_held true p hold now k h = or_home p k h
apply_state_bits home_held false p hold now k h = max-zero (bit p k)
apply_state_bits (tapping release_at) pressed p hold now k h =
    elim (Bool-cases (leb release_at now)) [
      | inl due ↦ rw due (max-zero (bit p k))
      | inr early ↦ rw early (or_back p k h)
    ]

-- With the remap on, every bit of the flags that `apply` returns is the client's bit, Back left out
-- and Home left out where it is suppressed, joined with the bit that the state reached emits: Back
-- in a tap, Home in a hold, nothing else.
pub apply_bits :
    (h : HoldToHome) (flags now k : ℕ)
    → h.source_mask ≡ some back_flag
    → k < 32
    → bit ((apply h flags now).1) k
      ≡ max (passed h.suppress_home flags k) (emitted (((apply h flags now).0).state) k)
unfolding apply apply_with
apply_bits h flags now k on small =
    rw (on, ← (bit-passthrough h.suppress_home flags k small))
      (apply_state_bits h.state (not (bit_and flags back_flag == 0))
        (passthrough_flags h.suppress_home back_flag flags) h.hold now k small)
