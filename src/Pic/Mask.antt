-- ===== src/Pic/Mask.antt =====
-- The masks of the first controller.
use csc.Base.{
  ℕ, ◌-◌, ◌%◌, ◌≤◌, ◌<◌, ◌≡◌, refl, sym, ◌∙◌, Bool, true, false, not, ◌==◌, ltb, List, ◌∷◌,
  if◌then◌else◌, arith, ap,
}
use csc.Base.Bits.{all_below, all_below_sound}
use csc.Base.Ints.{ℤ, pos}
use csc.Base.Ports.{Access, sent, Device, inb}
use csc.Pic.{
  pic_set_mask, pic_clear_mask, pic_get_mask, with_bit, without_bit, only_bit, pic1_data,
  mask_place, is_pic_irq,
}

-- A data port reads as it was last written.
abbrev pub KeepsMask : Device → ℕ → Type 0
KeepsMask dev port = (io : List Access) (v : ℕ) → dev (sent port v ∷ io) port ≡ v

abbrev same_bool : Bool → Bool → Bool
same_bool true b = b
same_bool false b = not b

same_bool-eq : (a b : Bool) → same_bool a b ≡ true → a ≡ b
same_bool-eq true true h = refl
same_bool-eq true false h = sym h
same_bool-eq false true h = h
same_bool-eq false false h = refl

abbrev set_bits : Bool
set_bits = all_below 8 λ i. all_below 8 λ j. all_below 256 λ m.
    same_bool (ltb 0 (only_bit (with_bit m i) j)) (if i == j then true else ltb 0 (only_bit m j))

set_bits-all : set_bits ≡ true
unfolding all_below
set_bits-all = refl

abbrev clear_bits : Bool
clear_bits = all_below 8 λ i. all_below 8 λ j. all_below 256 λ m.
    same_bool (ltb 0 (only_bit (without_bit m i) j))
      (if i == j then false else ltb 0 (only_bit m j))

clear_bits-all : clear_bits ≡ true
unfolding all_below
clear_bits-all = refl

module _ (m i j : ℕ) (byte : m < 256) (low : i < 8) (low_too : j < 8) where
  with_bit_lem : ltb 0 (only_bit (with_bit m i) j) ≡ (if i == j then true else ltb 0 (only_bit m j))
  with_bit_lem = same_bool-eq _ _ (
      all_below_sound 256 _ m
        (all_below_sound 8 _ j (all_below_sound 8 _ i set_bits-all low) low_too) byte)

  without_bit_lem :
      ltb 0 (only_bit (without_bit m i) j) ≡ (if i == j then false else ltb 0 (only_bit m j))
  without_bit_lem = same_bool-eq _ _ (
      all_below_sound 256 _ m
        (all_below_sound 8 _ j (all_below_sound 8 _ i clear_bits-all low) low_too) byte)

abbrev pub answer : Bool → ℤ
answer b = if b then pos 1 else pos 0

-- One access to an interrupt of the first controller.
module _ (dev : Device) (i : ℕ) (io : List Access) (low : 32 ≤ i) (high : i < 40) where
  abbrev pub old_mask : ℕ
  old_mask = dev io pic1_data % 256

  place : mask_place i ≡ (pic1_data, i - 32)
  unfolding mask_place
  place = ground arith

  in_pic : is_pic_irq i ≡ true
  in_pic = ground arith

  set_mask_lem :
      (pic_set_mask dev i io).1
      ≡ sent pic1_data (with_bit old_mask (i - 32)) ∷ (inb dev pic1_data io).1
  unfolding pic_set_mask
  set_mask_lem =
      rw (in_pic, place) (ap (λ t. sent pic1_data t ∷ (inb dev pic1_data io).1) (omega arith))

  clear_mask_lem :
      (pic_clear_mask dev i io).1
      ≡ sent pic1_data (without_bit old_mask (i - 32)) ∷ (inb dev pic1_data io).1
  unfolding pic_clear_mask
  clear_mask_lem =
      rw (in_pic, place) (ap (λ t. sent pic1_data t ∷ (inb dev pic1_data io).1) (omega arith))

  pub get_mask_lem : (pic_get_mask dev i io).0 ≡ answer (ltb 0 (only_bit old_mask (i - 32)))
  unfolding pic_get_mask
  get_mask_lem = rw (in_pic, place) refl

answer-if : (e a b : Bool) → answer (if e then a else b) ≡ (if e then answer a else answer b)
answer-if true a b = refl
answer-if false a b = refl

same_line : (i j : ℕ) → 32 ≤ i → 32 ≤ j → (i - 32 == j - 32) ≡ (i == j)
same_line i j a b = ground arith

module _ (dev : Device) (keeps : KeepsMask dev pic1_data) where
  -- What PIC_get_mask answers after a byte is written.
  pub get_mask-sent :
      (j m : ℕ) (io : List Access)
      → 32 ≤ j
      → j < 40
      → m < 256
      → (pic_get_mask dev j (sent pic1_data m ∷ io)).0 ≡ answer (ltb 0 (only_bit m (j - 32)))
  get_mask-sent j m io a b small =
      get_mask_lem dev j (sent pic1_data m ∷ io) a b
      ∙ ap (λ t. answer (ltb 0 (only_bit t (j - 32)))) (omega (arith, keeps io m))

  -- On a mask register that keeps what is written, after PIC_set_mask of an interrupt of the first
  -- controller PIC_get_mask answers 1 for it, after PIC_clear_mask 0, and in both cases what it
  -- answered before for the other interrupts of that controller.
  pub pic_set_mask-get :
      (i j : ℕ) (io : List Access)
      → 32 ≤ i
      → i < 40
      → 32 ≤ j
      → j < 40
      → ((pic_get_mask dev j (pic_set_mask dev i io).1).0
          ≡ (if i == j then pos 1 else (pic_get_mask dev j io).0))
        × ((pic_get_mask dev j (pic_clear_mask dev i io).1).0
            ≡ (if i == j then pos 0 else (pic_get_mask dev j io).0))
  pic_set_mask-get i j io a b c d =
      let m = dev io pic1_data % 256 in
      (
        rw (set_mask_lem dev i io a b, get_mask_lem dev j io c d, sym (same_line i j a c))
            (get_mask-sent j _ _ c d (omega arith)
              ∙ ap answer
                  (with_bit_lem m (i - 32) (j - 32) (omega arith) (omega arith) (omega arith))
              ∙ answer-if _ _ _),
        rw (clear_mask_lem dev i io a b, get_mask_lem dev j io c d, sym (same_line i j a c))
            (get_mask-sent j _ _ c d (omega arith)
              ∙ ap answer
                  (without_bit_lem m (i - 32) (j - 32) (omega arith) (omega arith) (omega arith))
              ∙ answer-if _ _ _),
      )
