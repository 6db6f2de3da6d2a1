-- ===== src/Pic.antt =====
-- The two interrupt controllers, Bric_OS/src/ISR/pic.c and pic.h.
-- The state is the list of port accesses. The messages are left out.
pub mod Mask
pub mod Second
use Prim.Native.Nat.{bit_and, bit_or}
use csc.Base.{
  ℕ, zero, suc, ◌+◌, ◌-◌, ◌%◌, ◌^◌, Bool, true, false, ◌&&◌, ◌||◌, not, ltb, leb, List, ◌∷◌,
  if◌then◌else◌,
}
use csc.Base.Ints.{ℤ, pos, negsuc, minus_one}
use csc.Base.Ports.{Access, Device, inb, outb, io_wait}

abbrev pub pic1_offset : ℕ
pic1_offset = 0x20

abbrev pub pic2_offset : ℕ
pic2_offset = pic1_offset + 8

abbrev pub pic1_min_irq : ℕ
pic1_min_irq = pic1_offset

abbrev pub pic1_max_irq : ℕ
pic1_max_irq = pic1_offset + 7

abbrev pub pic2_max_irq : ℕ
pic2_max_irq = pic2_offset + 7

abbrev pub pic1_command : ℕ
pic1_command = 0x20

abbrev pub pic1_data : ℕ
pic1_data = 0x21

abbrev pub pic2_command : ℕ
pic2_command = 0xA0

abbrev pub pic2_data : ℕ
pic2_data = 0xA1

-- IS_PIC_IRQ( irq ).
abbrev pub is_pic_irq : ℕ → Bool
is_pic_irq irq = leb pic1_min_irq irq && leb irq pic2_max_irq

-- The data port, and the bit of the mask. `irq` is a `uint16_t`, and at least PIC1_OFFSET.
unfoldable pub mask_place : ℕ → ℕ × ℕ
mask_place irq =
    let line = irq - pic1_offset in
    if ltb line pic1_min_irq then (pic1_data, line) else (pic2_data, (line + 2 ^ 16 - 8) % 2 ^ 16)

-- The bytes that the three functions make of a mask and a bit.
abbrev pub with_bit : ℕ → ℕ → ℕ
with_bit mask i = bit_or mask (2 ^ i) % 256

abbrev pub without_bit : ℕ → ℕ → ℕ
without_bit mask i = bit_and mask (2 ^ 32 - 1 - 2 ^ i) % 256

abbrev pub only_bit : ℕ → ℕ → ℕ
only_bit mask i = bit_and mask (2 ^ i) % 256

unfoldable pub pic_set_mask : Device → ℕ → List Access → ℤ × List Access
unfolding mask_place
pic_set_mask dev irq io =
    let (port, i) = mask_place irq in
    let (mask, io1) = inb dev port io in
    if not (is_pic_irq irq) then (minus_one, io) else (pos 0, outb port (with_bit mask i) io1)

unfoldable pub pic_clear_mask : Device → ℕ → List Access → ℤ × List Access
unfolding mask_place
pic_clear_mask dev irq io =
    let (port, i) = mask_place irq in
    let (mask, io1) = inb dev port io in
    if not (is_pic_irq irq) then (minus_one, io) else (pos 0, outb port (without_bit mask i) io1)

unfoldable pub pic_get_mask : Device → ℕ → List Access → ℤ × List Access
unfolding mask_place
pic_get_mask dev irq io =
    let (port, i) = mask_place irq in
    let (mask, io1) = inb dev port io in
    if not (is_pic_irq irq)
    then (minus_one, io)
    else ((if ltb 0 (only_bit mask i) then pos 1 else pos 0), io1)

unfoldable pub pic_disable : List Access → List Access
pic_disable io = outb pic2_data 0xFF (outb pic1_data 0xFF io)

unfoldable pub pic_send_eoi : ℕ → List Access → List Access
pic_send_eoi irq io =
    let to_second = if ltb pic1_max_irq irq then outb pic2_command 0x20 io else io in
    if ltb irq pic1_min_irq || ltb pic2_max_irq irq then io else outb pic1_command 0x20 to_second

-- The saved masks are written back at the end.
unfoldable pub pic_remap : Device → ℕ → ℕ → List Access → List Access
pic_remap dev offset1 offset2 io =
    let (a1, io) = inb dev pic1_data io in
    let (a2, io) = inb dev pic2_data io in
    let io = io_wait (outb pic1_command 0x11 io) in
    let io = io_wait (outb pic2_command 0x11 io) in
    let io = io_wait (outb pic1_data offset1 io) in
    let io = io_wait (outb pic2_data offset2 io) in
    let io = io_wait (outb pic1_data 0x04 io) in
    let io = io_wait (outb pic2_data 0x02 io) in
    let io = io_wait (outb pic1_data 0x01 io) in
    let io = io_wait (outb pic2_data 0x01 io) in outb pic2_data a2 (outb pic1_data a1 io)

-- The masks of `n` interrupts from `irq` on.
unfoldable pub mask_from : Device → ℕ → ℕ → List Access → List Access
unfolding pic_set_mask
mask_from dev zero irq io = io
mask_from dev (suc n) irq io = mask_from dev n (irq + 1) (pic_set_mask dev irq io).1

unfoldable pub pic_init : Device → List Access → List Access
unfolding pic_remap mask_from
pic_init dev io =
    mask_from dev (pic2_max_irq - pic1_min_irq) pic1_min_irq
      (pic_remap dev pic1_offset pic2_offset io)
