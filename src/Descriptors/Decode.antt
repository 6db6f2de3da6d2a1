-- ===== src/Descriptors/Decode.antt =====
-- Segment descriptors as the processor reads them.
use csc.Base.{ℕ, ◌+◌, ◌*◌, ◌/◌, ◌%◌, ◌^◌, ◌<◌, ◌≡◌, refl, ap, ◌∙◌, List, arith, get_or, update}
use Prim.Native.Nat.{bit_or}
use csc.Base.Bits.{bit_or_fields}
use csc.Descriptors.{GdtEntry, Gdt, encode_gdt_entry, segment, gdt_init, tss_init}

abbrev pub byte_at : List ℕ → ℕ → ℕ
byte_at bs i = get_or bs i 0

-- The fields of eight bytes.
abbrev pub decode : List ℕ → GdtEntry
decode bs = record {
  base = byte_at bs 2 + byte_at bs 3 * 2 ^ 8 + byte_at bs 4 * 2 ^ 16 + byte_at bs 7 * 2 ^ 24;
  limit = byte_at bs 0 + byte_at bs 1 * 2 ^ 8 + byte_at bs 6 % 16 * 2 ^ 16;
  access_byte = byte_at bs 5;
  flags = byte_at bs 6 / 16;
}

-- The base of a system descriptor, of which the second eight bytes hold the upper half.
abbrev pub system_base : List ℕ → List ℕ → ℕ
system_base low high =
    (decode low).base
    + (byte_at high 0 + byte_at high 1 * 2 ^ 8 + byte_at high 2 * 2 ^ 16 + byte_at high 3 * 2 ^ 24)
      * 2 ^ 32

-- The byte that two fields share.
shared_byte :
    (flags high : ℕ) → high < 16 → bit_or (flags % 16 * 2 ^ 4) high ≡ flags % 16 * 16 + high
shared_byte flags high small = bit_or_fields 4 (flags % 16) high small

abbrev made : ℕ → ℕ → ℕ → ℕ → GdtEntry
made b l a f = record { base = b; limit = l; access_byte = a; flags = f }

same_fields : (b b' l l' a f f' : ℕ) → b ≡ b' → l ≡ l' → f ≡ f' → made b l a f ≡ made b' l' a f'
same_fields b b' l l' a f f' same_b same_l same_f =
    ap (λ (x : ℕ). made x l a f) same_b
    ∙ ap (λ (x : ℕ). made b' x a f) same_l
    ∙ ap (λ (x : ℕ). made b' l' a x) same_f

-- A descriptor gives back what was put in, but for the upper half of the base.
pub encode-decode :
    (e : GdtEntry)
    → e.limit < 2 ^ 20
    → e.flags < 16
    → decode (encode_gdt_entry e) ≡ record e { base = e.base % 2 ^ 32 }
unfolding encode_gdt_entry
encode-decode e small flags =
    let byte = shared_byte e.flags (e.limit / 2 ^ 16 % 16) (omega arith) in
    same_fields _ _ _ _ e.access_byte _ _ (omega arith) (omega (arith, byte)) (omega (arith, byte))

-- The descriptors that gdt_init makes, read as the processor reads them, are two segments of the
-- kernel and two of the user with base 0 and the greatest limit, and a task state of 104 bytes,
-- whose two halves give the address that was put in, below 2^64.
pub gdt_init-decode :
    (tss : ℕ) (stack : ℕ → ℕ) (s : Gdt)
    → tss < 2 ^ 64
    → let s' = gdt_init tss stack s in
      (decode (s'.gdt 1) ≡ segment 0x9A 0x0A)
      × (decode (s'.gdt 2) ≡ segment 0x92 0x0C)
      × (decode (s'.gdt 3) ≡ segment 0xFA 0x0A)
      × (decode (s'.gdt 4) ≡ segment 0xF2 0x0C)
      × (decode (s'.gdt 5)
          ≡ record { base = tss % 2 ^ 32; limit = 103; access_byte = 0x89; flags = 0 })
      × (system_base (s'.gdt 5) (s'.gdt 6) ≡ tss)
unfolding gdt_init tss_init update encode_gdt_entry
gdt_init-decode tss stack s below = (
  refl,
  refl,
  refl,
  refl,
  encode-decode (made tss 103 0x89 0) (omega arith) (omega arith),
  omega arith,
)
