-- ===== src/Descriptors/Tests.antt =====
-- The theorems on the descriptor tables at empty tables.
use csc.Base.{◌+◌, ◌*◌, ◌%◌, ◌^◌, ◌≡◌, [], arith}
use csc.Descriptors.{Gdt, Gate, segment, gdt_init, idt_init}
use csc.Descriptors.Decode.{decode, system_base, gdt_init-decode}
use csc.Descriptors.Gates.{LeadsTo, idt_init-LeadsTo}

abbrev tables : Gdt
tables = record {
  gdt = λ i. [];
  tss = record {
    rsp0 = 0;
    rsp1 = 0;
    rsp2 = 0;
    ist1 = 0;
    ist2 = 0;
    ist3 = 0;
    ist4 = 0;
    ist5 = 0;
    ist6 = 0;
    ist7 = 0;
    iomap_base = 0;
  };
}

gdt_init-decode_example :
    let s' = gdt_init 0x500001234 (λ i. i * 4096) tables in
    (decode (s'.gdt 1) ≡ segment 0x9A 0x0A)
    × (decode (s'.gdt 2) ≡ segment 0x92 0x0C)
    × (decode (s'.gdt 3) ≡ segment 0xFA 0x0A)
    × (decode (s'.gdt 4) ≡ segment 0xF2 0x0C)
    × (decode (s'.gdt 5)
        ≡ record { base = 0x500001234 % 2 ^ 32; limit = 103; access_byte = 0x89; flags = 0 })
    × (system_base (s'.gdt 5) (s'.gdt 6) ≡ 0x500001234)
gdt_init-decode_example = gdt_init-decode 0x500001234 (λ i. i * 4096) tables (omega arith)

abbrev no_gate : Gate
no_gate = record {
  isr_low = 0;
  kernel_cs = 0;
  ist = 0;
  attributes = 0;
  isr_mid = 0;
  isr_high = 0;
  reserved = 0;
}

-- The double fault has the stack of the general protection fault.
idt_init-LeadsTo_example :
    LeadsTo (4096 + 8 * 16) 1 (idt_init (λ i. 4096 + i * 16) (λ i. no_gate) 8)
idt_init-LeadsTo_example =
    idt_init-LeadsTo (λ i. 4096 + i * 16) (λ i. no_gate) 8 (omega arith) (omega arith)
