-- ===== src/Boot/Masked.antt =====
-- The interrupts after IRQ_init.
use csc.Base.{
  ℕ, zero, suc, ◌+◌, ◌%◌, ◌≤◌, ◌<◌, ◌≡◌, refl, sym, ap, ◌∙◌, ◌==◌, false, if◌then◌else◌, List, ltb,
  Bool-cases, if_both, inl, inr, arith, ==→ne,
}
use csc.Base.Ints.{pos}
use csc.Base.Ports.{Access, Device}
use csc.Pic.{pic1_data, pic_set_mask, pic_get_mask, pic_init, mask_from}
use csc.Pic.Mask.{KeepsMask, pic_set_mask-get, get_mask_lem, get_mask-sent}
use csc.Pic.Second.{pic_set_mask-second}
use csc.Irq.{Irq, irq_disable, irq_set_handler}
use csc.Timer.{timer_irq, timer_init}
use csc.Boot.{Setting, Machine, irq_of, irq_init}

module _ (dev : Device) (keeps : KeepsMask dev pic1_data) (j : ℕ) (low : 32 ≤ j)
    (high : j < 40) where
  -- Setting a mask of either controller leaves the others of the first one as they are.
  set_mask-get :
      (i : ℕ) (io : List Access)
      → 32 ≤ i
      → i < 48
      → (pic_get_mask dev j (pic_set_mask dev i io).1).0
        ≡ (if i == j then pos 1 else (pic_get_mask dev j io).0)
  set_mask-get i io a b = elim (Bool-cases (ltb i 40)) [
    | inl e ↦ (pic_set_mask-get dev keeps i j io a (ground arith) low high).0
    | inr e ↦
        let second = (pic_set_mask-second dev i io (ground arith) b).0 in
        let other : (i == j) ≡ false = ground arith in
        rw other (
          ap (λ t. (pic_get_mask dev j t.1).0) second
          ∙ get_mask-sent dev keeps j (dev io pic1_data % 256) _ low high (omega arith)
          ∙ sym (get_mask_lem dev j io low high))
  ]

  mask_from-get :
      (n i : ℕ) (io : List Access)
      → 32 ≤ i
      → i + n ≤ 48
      → (j < i → (pic_get_mask dev j io).0 ≡ pos 1)
      → j < i + n
      → (pic_get_mask dev j (mask_from dev n i io)).0 ≡ pos 1
  unfolding mask_from
  mask_from-get zero i io a b before inside = before (omega arith)
  mask_from-get (suc n) i io a b before inside =
      mask_from-get n (i + 1) (pic_set_mask dev i io).1 (omega arith) (omega arith)
        (λ near. set_mask-get i io a (omega arith) ∙ here near) (omega arith)
    where
      here : j < i + 1 → (if i == j then pos 1 else (pic_get_mask dev j io).0) ≡ pos 1
      here near = elim (Bool-cases (i == j)) [
        | inl e ↦ rw e refl
        | inr e ↦ rw e (before (let ne = ==→ne i j e in omega arith))
      ]

  pic_init-get : (io : List Access) → (pic_get_mask dev j (pic_init dev io)).0 ≡ pos 1
  unfolding pic_init
  pic_init-get io =
      mask_from-get 15 32 _ (omega arith) (omega arith) (λ below. absurd (omega arith))
        (omega arith)

timer_init_io :
    (dev : Device) (isr : ℕ) (q : Irq)
    → (timer_init dev isr false q).1.io ≡ (pic_set_mask dev timer_irq q.io).1
unfolding timer_init irq_set_handler
timer_init_io dev isr q = refl

irq_init_io :
    (e : Setting) (m : Machine)
    → (irq_of (irq_init e m)).io
      ≡ (pic_set_mask e.dev timer_irq (pic_init e.dev (irq_disable (irq_of m)).io)).1
unfolding irq_init
irq_init_io e m =
    let q = irq_disable (irq_of m) in
    timer_init_io e.dev e.timer_isr (record q { io = pic_init e.dev q.io })

-- On a mask register that keeps what is written, after IRQ_init PIC_get_mask answers 1 for every
-- interrupt of the first controller, whichever of them were let in before.
pub irq_init-masked :
    (e : Setting) (m : Machine) (j : ℕ)
    → KeepsMask e.dev pic1_data
    → 32 ≤ j
    → j < 40
    → (pic_get_mask e.dev j (irq_of (irq_init e m)).io).0 ≡ pos 1
irq_init-masked e m j keeps low high =
    let io = pic_init e.dev (irq_disable (irq_of m)).io in
    ap (λ io. (pic_get_mask e.dev j io).0) (irq_init_io e m)
    ∙ set_mask-get e.dev keeps j low high timer_irq io (omega arith) (omega arith)
    ∙ if_both (λ z. z ≡ pos 1) (timer_irq == j) refl
        (pic_init-get e.dev keeps j low high (irq_disable (irq_of m)).io)
