-- ===== src/Descriptors.antt =====
-- The descriptor tables, Bric_OS/src/ISR/gdt.c and idt.c: segments, the task state and the gates.
-- The loading of the tables into the processor is left out; a descriptor of the first table is its
-- eight bytes.
pub mod Decode
pub mod Gates
mod Tests
use Prim.Native.Nat.{bit_or}
use csc.Base.{
  ℕ, zero, suc, ◌+◌, ◌-◌, ◌*◌, ◌/◌, ◌%◌, ◌^◌, ◌==◌, List, [], ◌∷◌, ◌++◌, if◌then◌else◌, update,
  take,
}
use csc.Irq.{idt_max_irq}

-- `gdt_entry_t`.
pub record GdtEntry : Type 0 where
  pub base : ℕ
  pub limit : ℕ
  pub access_byte : ℕ
  pub flags : ℕ

-- The fields of `tss_t` that are set.
pub record Tss : Type 0 where
  pub rsp0 : ℕ
  pub rsp1 : ℕ
  pub rsp2 : ℕ
  pub ist1 : ℕ
  pub ist2 : ℕ
  pub ist3 : ℕ
  pub ist4 : ℕ
  pub ist5 : ℕ
  pub ist6 : ℕ
  pub ist7 : ℕ
  pub iomap_base : ℕ

pub record Gdt : Type 0 where
  pub gdt : ℕ → List ℕ
  pub tss : Tss

abbrev pub tss_idx : ℕ
tss_idx = 5

abbrev pub tss_size : ℕ
tss_size = 104

-- gdt_ptr.limit: the seven descriptors.
abbrev pub gdt_limit : ℕ
gdt_limit = 7 * 8

unfoldable pub encode_gdt_entry : GdtEntry → List ℕ
encode_gdt_entry e =
    e.limit % 256
    ∷ e.limit / 2 ^ 8 % 256
    ∷ e.base % 256
    ∷ e.base / 2 ^ 8 % 256
    ∷ e.base / 2 ^ 16 % 256
    ∷ e.access_byte
    ∷ bit_or (e.flags % 16 * 2 ^ 4) (e.limit / 2 ^ 16 % 16)
    ∷ e.base / 2 ^ 24 % 256
    ∷ []

abbrev pub put_entry : ℕ → GdtEntry → Gdt → Gdt
put_entry i e s = record s { gdt = update s.gdt i (encode_gdt_entry e) }

abbrev pub drop4 : List ℕ → List ℕ
drop4 (a ∷ b ∷ c ∷ d ∷ bs) = bs
drop4 bs = []

-- The 4 bytes of a word.
abbrev pub word_bytes : ℕ → List ℕ
word_bytes w = w % 256 ∷ w / 2 ^ 8 % 256 ∷ w / 2 ^ 16 % 256 ∷ w / 2 ^ 24 % 256 ∷ []

-- The addresses are those of `tss` and of the four stacks.
unfoldable pub tss_init : ℕ → (ℕ → ℕ) → Gdt → Gdt
tss_init tss stack s =
    let s1 = record s {
      tss = record {
        rsp0 = 0;
        rsp1 = 0;
        rsp2 = 0;
        ist1 = stack 1;
        ist2 = stack 2;
        ist3 = stack 3;
        ist4 = stack 4;
        ist5 = 0;
        ist6 = 0;
        ist7 = 0;
        iomap_base = 0;
      };
    } in
    let s2 =
      put_entry tss_idx
        (record { base = tss; limit = tss_size - 1; access_byte = 0x89; flags = 0x00 }) s1 in
    record s2 {
      gdt =
          update s2.gdt (tss_idx + 1)
            (word_bytes (tss / 2 ^ 32 % 2 ^ 32) ++ drop4 (s2.gdt (tss_idx + 1)));
    }

abbrev pub segment : ℕ → ℕ → GdtEntry
segment access_byte flags = record {
  base = 0;
  limit = 0xFFFFF;
  access_byte = access_byte;
  flags = flags;
}

unfoldable pub gdt_init : ℕ → (ℕ → ℕ) → Gdt → Gdt
gdt_init tss stack s =
    let s0 = put_entry 0 (record { base = 0; limit = 0; access_byte = 0; flags = 0 }) s in
    let s1 = put_entry 1 (segment 0x9A 0x0A) s0 in
    let s2 = put_entry 2 (segment 0x92 0x0C) s1 in
    let s3 = put_entry 3 (segment 0xFA 0x0A) s2 in
    let s4 = put_entry 4 (segment 0xF2 0x0C) s3 in tss_init tss stack s4

-- `idt_entry_t`.
pub record Gate : Type 0 where
  pub isr_low : ℕ
  pub kernel_cs : ℕ
  pub ist : ℕ
  pub attributes : ℕ
  pub isr_mid : ℕ
  pub isr_high : ℕ
  pub reserved : ℕ

abbrev pub Idt : Type 0
Idt = ℕ → Gate

unfoldable pub idt_set_descriptor : ℕ → ℕ → ℕ → Idt → Idt
idt_set_descriptor irq isr_addr flags idt = update idt irq (record {
  isr_low = isr_addr % 2 ^ 16;
  kernel_cs = 0x08;
  ist = 0;
  attributes = flags;
  isr_mid = isr_addr / 2 ^ 16 % 2 ^ 16;
  isr_high = isr_addr / 2 ^ 32 % 2 ^ 32;
  reserved = 0;
})

unfoldable pub idt_set_ist : ℕ → ℕ → Idt → Idt
idt_set_ist irq ist idt = update idt irq (record (idt irq) { ist = ist })

-- The loop of idt_init: `n` gates from `irq` on.
unfoldable pub set_descriptors : ℕ → ℕ → (ℕ → ℕ) → Idt → Idt
set_descriptors zero irq isr_stub_table idt = idt
set_descriptors (suc n) irq isr_stub_table idt =
    set_descriptors n (irq + 1) isr_stub_table
      (idt_set_descriptor irq (isr_stub_table irq) (bit_or 0x80 0x0E) idt)

-- GP_IST, PF_IST and DF_IST.
abbrev pub gp_ist : ℕ
gp_ist = 1

abbrev pub pf_ist : ℕ
pf_ist = 2

abbrev pub df_ist : ℕ
df_ist = 3

unfoldable pub idt_init : (ℕ → ℕ) → Idt → Idt
idt_init isr_stub_table idt = idt_set_ist 14 pf_ist (
    idt_set_ist 13 df_ist (idt_set_ist 8 gp_ist (set_descriptors idt_max_irq 0 isr_stub_table idt)))

-- idt_ptr.limit.
abbrev pub idt_limit : ℕ
idt_limit = 16 * (idt_max_irq - 1)
