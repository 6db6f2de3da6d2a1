-- ===== src/Multiboot/Names.antt =====
-- The name of the type of a section, print_elf_type of Bric_OS/src/boot/multiboot2.c.
use csc.Base.{ℕ, ◌≡◌, refl, true, ◌==◌, List, [], if◌then◌else◌, if_both}
use csc.Base.Ports.{Device}
use csc.Base.Outcome.{Outcome, Returns}
use csc.Base.Text.{codes}
use csc.Strings.{Memory}
use csc.Printk.Format.{Console, printk}
use csc.Printk.Safe.{IsSound}
use csc.Vga.Bounds.{OnScreen}
use csc.Serial.Ring.{IsRing}
use csc.Exceptions.Report.{is_plain, plain-IsSound}

-- The switch.
elf_type_name : ℕ → List ℕ
elf_type_name type =
    if type == 0
    then codes "  NULL\n\n"
    else if type == 0x1
    then codes "  PROGBITS: Program data\n"
    else if type == 0x2
    then codes "  SYMTAB: Symbol table\n"
    else if type == 0x3
    then codes "  STRTAB: String table\n"
    else if type == 0x4
    then codes "  RELA: Relocation entries with addends\n"
    else if type == 0x5
    then codes "  HASH: Symbol hash table\n"
    else if type == 0x6
    then codes "  DYNAMIC: Dynamic linking information\n"
    else if type == 0x7
    then codes "  NOTE: Note sections\n"
    else if type == 0x8
    then codes "  NOBITS: BSS\n"
    else if type == 0x9
    then codes "  REL: Relocation entries, no addends\n"
    else if type == 10
    then codes "  SHLIB: Reserved\n"
    else if type == 11
    then codes "  DYNSYM: Dynamic linker symbol table\n"
    else if type == 14
    then codes "  INIT_ARRAY: Array of constructors\n"
    else if type == 15
    then codes "  FINI_ARRAY: Array of destructors\n"
    else if type == 0x10
    then codes "  PREINIT_ARRAY: Array of pre-constructors\n"
    else if type == 0x11
    then codes "  GROUP: Section group\n"
    else if type == 0x12
    then codes "  SYMTAB_SHNDX: Extended section indeces\n"
    else if type == 0x13
    then codes "  NUM: Number of defined types\n"
    else if type == 0x60000000
    then codes "  LOOS: Start of OS-specific\n"
    else codes "  UNKNOWN\n"

pub print_elf_type : Device → Memory → ℕ → Console → Outcome Console
unfolding elf_type_name printk
print_elf_type dev mem type s = printk dev mem (elf_type_name type) [] s

elf_type_name-plain : (type : ℕ) → is_plain (elf_type_name type) ≡ true
unfolding elf_type_name
elf_type_name-plain type =
    let P = λ (cs : List ℕ). is_plain cs ≡ true in
    if_both P (type == 0) refl (
      if_both P (type == 0x1) refl (
        if_both P (type == 0x2) refl (
          if_both P (type == 0x3) refl (
            if_both P (type == 0x4) refl (
              if_both P (type == 0x5) refl (
                if_both P (type == 0x6) refl (
                  if_both P (type == 0x7) refl (
                    if_both P (type == 0x8) refl (
                      if_both P (type == 0x9) refl (
                        if_both P (type == 10) refl (
                          if_both P (type == 11) refl (
                            if_both P (type == 14) refl (
                              if_both P (type == 15) refl (
                                if_both P (type == 0x10) refl (
                                  if_both P (type == 0x11) refl (
                                    if_both P (type == 0x12) refl (
                                      if_both P (type == 0x13) refl
                                        (if_both P (type == 0x60000000) refl refl))))))))))))))))))

-- The name of a type comes out whole, whatever the type is, and leaves the screen and the serial
-- port sound.
pub print_elf_type-IsSound :
    (dev : Device) (mem : Memory) (type : ℕ) (s : Console)
    → OnScreen s.vga
    → IsRing s.serial
    → Returns (print_elf_type dev mem type s) (IsSound s)
unfolding print_elf_type
print_elf_type-IsSound dev mem type s on ring =
    plain-IsSound dev mem (elf_type_name type) s s (elf_type_name-plain type)
      (on, ring, λ x out. refl)
