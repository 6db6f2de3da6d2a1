-- ===== src/Base/Ports.antt =====
-- The input and output ports, `inb`, `outb`, the wider accesses and `io_wait` of
-- Bric_OS/lib/common.c.
-- A device is what answers a read. It sees every access before, the latest first.
use Prim.Native.Nat.{ℕ, zero, suc, ◌%◌, ◌^◌}
use mathlib.Core.List.{List, ◌∷◌}

pub data Access : Type 0 where
  -- the port and the value
  got : ℕ → ℕ → Access
  sent : ℕ → ℕ → Access

abbrev pub Device : Type 0
Device = List Access → ℕ → ℕ

abbrev pub inb : Device → ℕ → List Access → ℕ × List Access
inb dev port io = (dev io port % 256, got port (dev io port % 256) ∷ io)

abbrev pub outb : ℕ → ℕ → List Access → List Access
outb port val io = sent port (val % 256) ∷ io

abbrev pub io_wait : List Access → List Access
io_wait io = outb 0x80 0 io

abbrev pub io_wait_n : ℕ → List Access → List Access
io_wait_n zero io = io
io_wait_n (suc t) io = io_wait_n t (io_wait io)

abbrev pub inw : Device → ℕ → List Access → ℕ × List Access
inw dev port io = (dev io port % 2 ^ 16, got port (dev io port % 2 ^ 16) ∷ io)

abbrev pub inl : Device → ℕ → List Access → ℕ × List Access
inl dev port io = (dev io port % 2 ^ 32, got port (dev io port % 2 ^ 32) ∷ io)

abbrev pub outw : ℕ → ℕ → List Access → List Access
outw port val io = sent port (val % 2 ^ 16) ∷ io

abbrev pub outl : ℕ → ℕ → List Access → List Access
outl port val io = sent port (val % 2 ^ 32) ∷ io
