-- ===== src/Pic/Second.antt =====
-- The masks of the second controller.
use csc.Base.{ℕ, ◌+◌, ◌-◌, ◌%◌, ◌≤◌, ◌<◌, ◌≡◌, refl, ap, Bool, true, ◌==◌, ◌&&◌, List, ◌∷◌, arith}
use csc.Base.Bits.{all_below, all_below_sound}
use csc.Base.Ints.{pos}
use csc.Base.Ports.{Access, sent, Device, inb}
use csc.Pic.{
  pic_set_mask, pic_clear_mask, pic_get_mask, with_bit, without_bit, only_bit, pic1_data,
  mask_place, is_pic_irq,
}

-- A bit above the byte is lost.
abbrev high_bits : Bool
high_bits = all_below 8 λ i.
    all_below 256
      λ m. (with_bit m (i + 8) == m) && (without_bit m (i + 8) == m) && (only_bit m (i + 8) == 0)

high_bits-all : high_bits ≡ true
unfolding all_below
high_bits-all = refl

high_bits_lem :
    (i m : ℕ)
    → i < 8
    → m < 256
    → (with_bit m (i + 8) ≡ m) × (without_bit m (i + 8) ≡ m) × (only_bit m (i + 8) ≡ 0)
high_bits_lem i m low byte =
    let h = all_below_sound 256 _ m (all_below_sound 8 _ i high_bits-all low) byte in
    ground (arith, h)

place_lem : (irq : ℕ) → 40 ≤ irq → irq < 48 → mask_place irq ≡ (pic1_data, irq - 40 + 8)
unfolding mask_place
place_lem irq low high = ground arith

-- For an interrupt of the second controller PIC_set_mask and PIC_clear_mask report success and
-- only write the mask that they read of the first controller back to it; PIC_get_mask answers 0.
pub pic_set_mask-second :
    (dev : Device) (irq : ℕ) (io : List Access)
    → 40 ≤ irq
    → irq < 48
    → (pic_set_mask dev irq io
        ≡ (pos 0, sent pic1_data (dev io pic1_data % 256) ∷ (inb dev pic1_data io).1))
      × (pic_clear_mask dev irq io ≡ pic_set_mask dev irq io)
      × (pic_get_mask dev irq io ≡ (pos 0, (inb dev pic1_data io).1))
unfolding pic_set_mask pic_clear_mask pic_get_mask
pic_set_mask-second dev irq io low high =
    let m = dev io pic1_data % 256 in
    let (a, b, c) = high_bits_lem (irq - 40) m (omega arith) (omega arith) in
    let place : mask_place irq ≡ (pic1_data, irq - 40 + 8) = place_lem irq low high in
    let valid : is_pic_irq irq ≡ true = ground arith in
    rw (valid, place, a, b, c)
      (ap (λ t. (pos 0, sent pic1_data t ∷ (inb dev pic1_data io).1)) (omega arith), refl, refl)
