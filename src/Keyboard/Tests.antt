-- ===== src/Keyboard/Tests.antt =====
-- The keyboard's theorems at its first state.
use csc.Base.{
  ℕ, ◌≡◌, ◌≢◌, refl, true, false, ◌+◌, ◌%◌, ◌==◌, ◌&&◌, List, [], ◌∷◌, if◌then◌else◌, if_both,
  replicate, arith,
}
use csc.Base.Ports.{Access, got, sent, Device}
use csc.Base.Outcome.{ok, ◌>>=◌, Returns}
use csc.Printk.Format.{Console}
use csc.Irq.{Irq, no_handler, idt_max_irq}
use csc.Keyboard.Start.{ps2_keyboard_driver_init}
use csc.Keyboard.Ready.{IsReady, Started, ps2_keyboard_driver_init-Started}
use csc.Base.Ints.{pos, minus_one}
use csc.Keyboard.{initial, process_scan_code, poll_input, poll_output}
use csc.Keyboard.Keys.{TablesMatch, process_scan_code-modifiers}
use csc.Keyboard.Case.{process_scan_code-meaning}

initial-TablesMatch : TablesMatch initial
initial-TablesMatch = (refl, refl)

process_scan_code-modifiers_example :
    let (key, down) = process_scan_code 0x2A initial in
    let (none, up) = process_scan_code (0x2A + 128) initial in
    TablesMatch down
    × TablesMatch up
    × (down.shift_state ≡ true)
    × (down.caps_state ≡ false)
    × (down.ctrl_state ≡ false)
    × (down.alt_state ≡ false)
    × (up.shift_state ≡ false)
    × (up.caps_state ≡ false)
    × (up.ctrl_state ≡ false)
    × (up.alt_state ≡ false)
    × (none ≡ minus_one)
process_scan_code-modifiers_example =
    process_scan_code-modifiers 0x2A initial (omega arith) initial-TablesMatch

-- The key `q`.
process_scan_code-meaning_example : (process_scan_code 0x10 initial).0 ≡ pos 113
process_scan_code-meaning_example =
    process_scan_code-meaning 0x10 initial (omega arith) refl initial-TablesMatch

-- A keyboard that takes every byte, passes the tests and uses the second set of scan codes.
abbrev answer : List Access → ℕ
answer [] = 0
answer (got p v ∷ io) = if (p == 0x60) && (v == 0xFA) then 0x41 else answer io
answer (sent p v ∷ io) =
    if p == 0x60 then 0xFA else if p == 0x64 then (if v == 0xAA then 0x55 else 0) else answer io

abbrev keyboard : Device
keyboard io port = if port == 0x64 then 1 else answer io

answer-ne : (io : List Access) → answer io % 256 ≢ 0xFE
answer-ne [] = λ e. omega arith
answer-ne (got p v ∷ io) =
    if_both (λ n. n % 256 ≢ 0xFE) ((p == 0x60) && (v == 0xFA)) (λ e. omega arith) (answer-ne io)
answer-ne (sent p v ∷ io) =
    if_both (λ n. n % 256 ≢ 0xFE) (p == 0x60) (λ e. omega arith)
      (if_both (λ n. n % 256 ≢ 0xFE) (p == 0x64)
        (if_both (λ n. n % 256 ≢ 0xFE) (v == 0xAA) (λ e. omega arith) (λ e. omega arith))
        (answer-ne io))

keyboard-IsReady : IsReady keyboard
keyboard-IsReady = record { full = λ io e. omega arith; taken = λ io. refl; no_resend = answer-ne }

abbrev irq : Irq
irq = record {
  irq_handler_table = replicate idt_max_irq no_handler;
  status_prev = false;
  status_curr = false;
  interrupt_flag = false;
  io = [];
}

abbrev console : Console
console = record {
  vga = record { cells = λ i. 0; row = 0; col = 0; irq = irq };
  serial = record {
    buff = replicate 16 0;
    prod = 0;
    cons = 0;
    count = 0;
    idle_flag = true;
    irq = irq;
  };
}

ps2_keyboard_driver_init-Started_example :
    Returns
      (ps2_keyboard_driver_init keyboard (λ a. 0) 4096 1 1 8192 true console)
      (Started 8192 true console)
ps2_keyboard_driver_init-Started_example =
    ps2_keyboard_driver_init-Started keyboard (λ a. 0) 4096 0 0 8192 true console keyboard-IsReady
      (omega arith, omega arith)
      (record { full_length = refl; cons_in = omega arith; room = omega arith; prod_at = refl })

starts :
    (ps2_keyboard_driver_init keyboard (λ a. 0) 4096 1 1 8192 true console >>= λ (done, s). ok done)
    ≡ ok true
unfolding ps2_keyboard_driver_init poll_input poll_output
starts = refl
