-- ===== src/Descriptors/Gates.antt =====
-- The gates of the interrupts, as the processor reads them.
use csc.Base.{
  ℕ, zero, suc, ◌+◌, ◌*◌, ◌/◌, ◌%◌, ◌^◌, ◌≤◌, ◌<◌, ◌≡◌, refl, sym, ap, ◌∙◌, inl, inr, ◌==◌,
  if◌then◌else◌, arith, update, update_self, update_ne, Bool-cases, ==→eq, ==→ne,
}
use mathlib.Core.Path.{subst}
use csc.Irq.{idt_max_irq}
use csc.Descriptors.{
  Gate, Idt, idt_set_descriptor, idt_set_ist, set_descriptors, idt_init, gp_ist, df_ist, pf_ist,
}

-- The address that a gate leads to.
abbrev pub gate_address : Gate → ℕ
gate_address g = g.isr_low + g.isr_mid * 2 ^ 16 + g.isr_high * 2 ^ 32

-- A gate of the kernel's code segment that is present and an interrupt gate.
pub record LeadsTo (isr ist : ℕ) (g : Gate) : Type 0 where
  pub address : gate_address g ≡ isr
  pub selector : g.kernel_cs ≡ 0x08
  pub attributes : g.attributes ≡ 0x8E
  pub stack : g.ist ≡ ist

set_descriptors-before :
    (n irq : ℕ) (stub : ℕ → ℕ) (idt : Idt) (j : ℕ)
    → j < irq
    → set_descriptors n irq stub idt j ≡ idt j
unfolding set_descriptors idt_set_descriptor
set_descriptors-before zero irq stub idt j below = refl
set_descriptors-before (suc n) irq stub idt j below =
    set_descriptors-before n (irq + 1) stub _ j (omega arith) ∙ update_ne idt irq _ j (omega arith)

new_gate :
    (isr : ℕ)
    → isr < 2 ^ 64
    → LeadsTo isr 0 (record {
      isr_low = isr % 2 ^ 16;
      kernel_cs = 0x08;
      ist = 0;
      attributes = 0x8E;
      isr_mid = isr / 2 ^ 16 % 2 ^ 16;
      isr_high = isr / 2 ^ 32 % 2 ^ 32;
      reserved = 0;
    })
new_gate isr small = record {
  address = omega arith;
  selector = refl;
  attributes = refl;
  stack = refl;
}

first_gate :
    (n irq : ℕ) (stub : ℕ → ℕ) (idt : Idt)
    → stub irq < 2 ^ 64
    → LeadsTo (stub irq) 0 (set_descriptors (suc n) irq stub idt irq)
unfolding set_descriptors idt_set_descriptor
first_gate n irq stub idt small =
    subst (LeadsTo (stub irq) 0)
      (sym (set_descriptors-before n (irq + 1) stub _ irq (omega arith) ∙ update_self idt irq _))
      (new_gate (stub irq) small)

set_descriptors-LeadsTo :
    (n irq : ℕ) (stub : ℕ → ℕ) (idt : Idt) (j : ℕ)
    → irq ≤ j
    → j < irq + n
    → stub j < 2 ^ 64
    → LeadsTo (stub j) 0 (set_descriptors n irq stub idt j)
unfolding set_descriptors idt_set_descriptor
set_descriptors-LeadsTo zero irq stub idt j low high small = absurd (omega arith)
set_descriptors-LeadsTo (suc n) irq stub idt j low high small = elim (Bool-cases (j == irq)) [
  | inl e ↦
      subst (λ (k : ℕ). LeadsTo (stub j) 0 (set_descriptors (suc n) irq stub idt k))
        (sym (==→eq j irq e))
        (rw (==→eq j irq e) (first_gate n irq stub idt (rw (← ==→eq j irq e) small)))
  | inr e ↦
      set_descriptors-LeadsTo n (irq + 1) stub _ j (omega (arith, ==→ne j irq e)) (omega arith)
        small
]

with_ist : (isr x ist : ℕ) (g : Gate) → LeadsTo isr x g → LeadsTo isr ist (record g { ist = ist })
with_ist isr x ist g l = record {
  address = l.address;
  selector = l.selector;
  attributes = l.attributes;
  stack = refl;
}

idt_set_ist-LeadsTo :
    (i ist isr x : ℕ) (f : Idt) (irq : ℕ)
    → LeadsTo isr x (f irq)
    → LeadsTo isr (if irq == i then ist else x) (idt_set_ist i ist f irq)
unfolding idt_set_ist
idt_set_ist-LeadsTo i ist isr x f irq l = elim (Bool-cases (irq == i)) [
  | inl e ↦
      let here : f irq ≡ f i = ap f (==→eq irq i e) in
      rw e (
        subst (LeadsTo isr ist) (sym (ap (update f i _) (==→eq irq i e) ∙ update_self f i _))
          (with_ist isr x ist (f i) (subst (LeadsTo isr x) here l)))
  | inr e ↦ rw e (subst (LeadsTo isr x) (sym (update_ne f i _ irq (==→ne irq i e))) l)
]

-- The stack of a gate: each of the three faults has its own.
abbrev pub ist_of : ℕ → ℕ
ist_of irq =
    if irq == 14 then pf_ist else if irq == 13 then df_ist else if irq == 8 then gp_ist else 0

-- After idt_init the gate of every interrupt leads to its stub, through the code segment of the
-- kernel, as a present interrupt gate; the double fault has the stack of number 1, the page fault
-- that of number 2, the general protection fault that of number 3, and no other gate has one. The
-- stub lies below 2^64.
pub idt_init-LeadsTo :
    (stub : ℕ → ℕ) (idt : Idt) (irq : ℕ)
    → irq < idt_max_irq
    → stub irq < 2 ^ 64
    → LeadsTo (stub irq) (ist_of irq) (idt_init stub idt irq)
unfolding idt_init
idt_init-LeadsTo stub idt irq inside small = idt_set_ist-LeadsTo 14 pf_ist (stub irq) _ _ irq (
    idt_set_ist-LeadsTo 13 df_ist (stub irq) _ _ irq (
      idt_set_ist-LeadsTo 8 gp_ist (stub irq) 0 (set_descriptors idt_max_irq 0 stub idt) irq
        (set_descriptors-LeadsTo idt_max_irq 0 stub idt irq (omega arith) inside small)))
