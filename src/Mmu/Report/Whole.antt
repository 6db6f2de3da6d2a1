-- ===== src/Mmu/Report/Whole.antt =====
-- The report of a page fault that cannot be handled comes out whole.
use Prim.Native.String.{String}
use mathlib.Core.Path.{subst}
use csc.Base.{
  ℕ, ◌+◌, ◌%◌, ◌^◌, ◌≤◌, ◌≡◌, refl, ap, ◌∙◌, true, false, ◌&&◌, arith, ◌==◌, List, [], ◌∷◌, ◌++◌,
  length, if_both, not, Bool, if◌then◌else◌,
}
use csc.Base.Ports.{Device}
use csc.Base.Outcome.{Outcome, Returns, Returns-bind}
use csc.Base.Words.{get_field}
use csc.Base.Text.{codes}
use csc.Strings.{Memory}
use csc.Printk.Format.{Console, printk, string_at}
use csc.Printk.Pieces.{
  Piece, plain_char, percent, char, pointer, string, number, plain, decimal, format, arguments,
  IsPiece, ArePieces,
}
use csc.Printk.Safe.{IsSound}
use csc.Vga.Bounds.{OnScreen}
use csc.Serial.Ring.{IsRing}
use csc.Exceptions.{say}
use csc.Exceptions.Report.{
  pieces-IsSound, is_plain, plain_text, plain_text-ArePieces, plain-IsSound, ArePieces-append,
}
use csc.Mmu.{
  Mmu, present, alloc, read_frame_addr, entry_at, page_map_index, page_dir_ptr_index,
  page_dir_index, page_tbl_index,
}
use csc.Mmu.Report.{
  walk_frame, walk_pt, walk_pd, walk_pdpt, flag, decode_error_flags, show_entry, show_level,
  walk_virt_addr, os_error_halt, fault_report,
}

-- Texts, each with what follows it, and a text at the end.
abbrev pub fields : List (List ℕ × Piece) → List ℕ → List Piece
fields [] end = plain_text end
fields ((text, p) ∷ rest) end = plain_text text ++ p ∷ fields rest end

abbrev pub AreFields : Memory → List (List ℕ × Piece) → List ℕ → Type 0
AreFields mem [] end = is_plain end ≡ true
AreFields mem ((text, p) ∷ rest) end =
    (is_plain text ≡ true) × IsPiece mem p × AreFields mem rest end

fields-ArePieces :
    (mem : Memory) (ts : List (List ℕ × Piece)) (end : List ℕ)
    → AreFields mem ts end
    → ArePieces mem (fields ts end)
fields-ArePieces mem [] end h = plain_text-ArePieces mem end h
fields-ArePieces mem ((text, p) ∷ rest) end (h, is, k) =
    ArePieces-append mem (plain_text text) (p ∷ fields rest end) (plain_text-ArePieces mem text h)
      (is, fields-ArePieces mem rest end k)

format-behind :
    (text : List ℕ) (ps : List Piece) → format (plain_text text ++ ps) ≡ text ++ format ps
format-behind [] ps = refl
format-behind (c ∷ cs) ps = ap (λ r. c ∷ r) (format-behind cs ps)

arguments-behind :
    (text : List ℕ) (ps : List Piece) → arguments (plain_text text ++ ps) ≡ arguments ps
arguments-behind [] ps = refl
arguments-behind (c ∷ cs) ps = arguments-behind cs ps

-- Plain texts, each with a number or a pointer behind it.
abbrev is_number : Piece → Bool
is_number (pointer p) = true
is_number (number size kind a) = true
is_number _ = false

abbrev are_numbers : List (List ℕ × Piece) → List ℕ → Bool
are_numbers [] end = is_plain end
are_numbers ((text, p) ∷ rest) end = is_plain text && is_number p && are_numbers rest end

is_number-IsPiece : (mem : Memory) (p : Piece) → is_number p ≡ true → IsPiece mem p
is_number-IsPiece mem (pointer p) h = tt
is_number-IsPiece mem (number size kind a) h = tt
is_number-IsPiece mem (plain_char c) h = absurd (ground arith)
is_number-IsPiece mem percent h = tt
is_number-IsPiece mem (char a) h = tt
is_number-IsPiece mem (string p) h = absurd (ground arith)

and_both : (a b c : Bool) → (a && b && c) ≡ true → (a ≡ true) × (b ≡ true) × (c ≡ true)
and_both a b c h = ground arith

numbers-AreFields :
    (mem : Memory) (ts : List (List ℕ × Piece)) (end : List ℕ)
    → are_numbers ts end ≡ true
    → AreFields mem ts end
numbers-AreFields mem [] end h = h
numbers-AreFields mem ((text, p) ∷ rest) end h =
    let (is_text, is_p, rest_h) = and_both (is_plain text) (is_number p) (are_numbers rest end) h in
    (is_text, is_number-IsPiece mem p is_p, numbers-AreFields mem rest end rest_h)

abbrev pub int : ℕ → Piece
int a = number plain decimal a

module _ (dev : Device) (mem : Memory) (s : Console) where
  -- What comes out whole from a console that is sound since `s`.
  abbrev pub Whole : (Console → Outcome Console) → Type 0
  Whole f = (t : Console) → IsSound s t → Returns (f t) (IsSound s)

  -- Fields behind a text.
  pub fields-Whole :
      (text : List ℕ) (ts : List (List ℕ × Piece)) (end fmt args : List ℕ)
      → is_plain text ≡ true
      → AreFields mem ts end
      → format (fields ts end) ≡ fmt
      → arguments (fields ts end) ≡ args
      → Whole (printk dev mem (text ++ fmt) args)
  fields-Whole text ts end fmt args h are is_fmt is_args t sound =
      let ps = plain_text text ++ fields ts end in
      let all =
        ArePieces-append mem (plain_text text) (fields ts end) (plain_text-ArePieces mem text h)
          (fields-ArePieces mem ts end are) in
      subst (λ a. Returns (printk dev mem (text ++ fmt) a t) (IsSound s))
        (arguments-behind text (fields ts end) ∙ is_args)
        (subst (λ f. Returns (printk dev mem f (arguments ps) t) (IsSound s))
          (format-behind text (fields ts end) ∙ ap (λ r. text ++ r) is_fmt)
          (pieces-IsSound dev mem ps s t all sound))

  numbers-Whole :
      (text : List ℕ) (ts : List (List ℕ × Piece)) (end fmt args : List ℕ)
      → is_plain text ≡ true
      → are_numbers ts end ≡ true
      → format (fields ts end) ≡ fmt
      → arguments (fields ts end) ≡ args
      → Whole (printk dev mem (text ++ fmt) args)
  numbers-Whole text ts end fmt args h are =
      fields-Whole text ts end fmt args h (numbers-AreFields mem ts end are)

  say-Whole : (text : String) → is_plain (codes text) ≡ true → Whole (say dev mem text [])
  say-Whole text h t sound = plain-IsSound dev mem (codes text) s t h sound

  if_Whole :
      (b : Bool) (f g : Console → Outcome Console)
      → Whole f
      → Whole g
      → Whole (λ t. if b then f t else g t)
  if_Whole b f g is_f is_g t sound =
      if_both (λ (m : Outcome Console). Returns m (IsSound s)) b (is_f t sound) (is_g t sound)

  flags-Whole :
      (err : ℕ)
      → Whole (
          say dev mem
            "Error Flags:\n------------\nPresent: %d \nR/W:     %d \nUser:    %d \n------------\nRSVD:    %d \nI/D:     %d \nPK:      %d \nSS:      %d \nSGX:     %d \n\n"
            (flag 0 err
              ∷ flag 1 err
              ∷ flag 2 err
              ∷ flag 3 err
              ∷ flag 4 err
              ∷ flag 5 err
              ∷ flag 6 err
              ∷ flag 15 err
              ∷ []))
  flags-Whole err =
      numbers-Whole []
        ((codes "Error Flags:\n------------\nPresent: ", int (flag 0 err))
          ∷ (codes " \nR/W:     ", int (flag 1 err))
          ∷ (codes " \nUser:    ", int (flag 2 err))
          ∷ (codes " \n------------\nRSVD:    ", int (flag 3 err))
          ∷ (codes " \nI/D:     ", int (flag 4 err))
          ∷ (codes " \nPK:      ", int (flag 5 err))
          ∷ (codes " \nSS:      ", int (flag 6 err))
          ∷ (codes " \nSGX:     ", int (flag 15 err))
          ∷ [])
        (codes " \n\n") _ _ refl refl refl refl

  decode_error_flags-Whole : (err : ℕ) → Whole (decode_error_flags dev mem err)
  unfolding decode_error_flags
  decode_error_flags-Whole err t sound =
      Returns-bind {P = IsSound s} (flags-Whole err t sound) λ t1 s1.
        Returns-bind {P = IsSound s}
          (if_Whole (not (flag 2 err == 0)) _ _ (say-Whole "User process " refl)
            (say-Whole "Supervisory process " refl) t1 s1)
          λ t2 s2. Returns-bind {P = IsSound s} (say-Whole "tried to " refl t2 s2) λ t3 s3.
            Returns-bind {P = IsSound s}
              (if_Whole (not (flag 1 err == 0)) _ _ (say-Whole "write " refl)
                (say-Whole "read " refl) t3 s3)
              λ t4 s4.
                if_Whole (not (flag 0 err == 0)) _ _
                  (say-Whole "a page and caused a protection fault\n" refl)
                  (say-Whole "to a non-present page entry\n" refl) t4 s4

  show_entry-Whole :
      (level : String) (entry : ℕ) (m : Mmu)
      → is_plain (codes level) ≡ true
      → Whole (show_entry dev mem level entry m)
  unfolding show_entry
  show_entry-Whole level entry m h =
      let w = m.word entry in
      numbers-Whole (codes level)
        ((codes "    Address: ", pointer entry)
          ∷ (codes "  \n    Present: ", int (present w))
          ∷ (codes "  \n    Writable: ", int (flag 1 w))
          ∷ (codes " \n    User: ", int (flag 2 w))
          ∷ (codes "     \n    Accessed: ", int (flag 5 w))
          ∷ (codes " \n    Dirty: ", int (flag 9 w))
          ∷ (codes "    \n    Alloc: ", int (alloc w))
          ∷ (codes "    \n    Frame: ", pointer (read_frame_addr w))
          ∷ [])
        (codes "    \n    \n") _ _ h refl refl refl

  show_level-Whole :
      (level missing : String) (entry : ℕ) (m : Mmu) (on : Console → Outcome Console)
      → is_plain (codes level) ≡ true
      → is_plain (codes missing) ≡ true
      → Whole on
      → Whole (show_level dev mem level missing entry m on)
  unfolding show_level
  show_level-Whole level missing entry m on h k is_on t sound =
      Returns-bind {P = IsSound s} (show_entry-Whole level entry m h t sound)
        (if_Whole (present (m.word entry) == 0) _ _ (say-Whole missing k) is_on)

  walk_pt-Whole : (v entry : ℕ) (m : Mmu) → Whole (walk_pt dev mem v entry m)
  unfolding walk_pt walk_frame
  walk_pt-Whole v entry m t sound =
      let at = read_frame_addr (m.word entry) + v % 4096 in
      let shown =
        numbers-Whole [] ((codes "Physical Address: ", pointer at) ∷ []) (codes "\n\n") _ _ refl
          refl refl refl in
      show_level-Whole "PT Entry:        \n" "PT entry is not present!\n" entry m _ refl refl shown
        t sound

  walk_pd-Whole : (v entry : ℕ) (m : Mmu) → Whole (walk_pd dev mem v entry m)
  unfolding walk_pd
  walk_pd-Whole v entry m t sound =
      let next = entry_at (read_frame_addr (m.word entry)) (page_tbl_index v) in
      show_level-Whole "PD Entry:        \n" "PT entry is not present!\n" entry m _ refl refl
        (walk_pt-Whole v next m) t sound

  walk_pdpt-Whole : (v entry : ℕ) (m : Mmu) → Whole (walk_pdpt dev mem v entry m)
  unfolding walk_pdpt
  walk_pdpt-Whole v entry m t sound =
      let next = entry_at (read_frame_addr (m.word entry)) (page_dir_index v) in
      show_level-Whole "PDPT Entry:      \n" "PD entry is not present!\n" entry m _ refl refl
        (walk_pd-Whole v next m) t sound

  walk_virt_addr-Whole : (v : ℕ) (m : Mmu) → Whole (walk_virt_addr dev mem v m)
  unfolding walk_virt_addr
  walk_virt_addr-Whole v m t sound =
      let top = entry_at m.pml4 (page_map_index v) in
      let next = entry_at (read_frame_addr (m.word top)) (page_dir_ptr_index v) in
      Returns-bind {P = IsSound s} (say-Whole "\n" refl t sound) λ t1 s1.
        Returns-bind {P = IsSound s}
          (numbers-Whole [] ((codes "INFO: Walking virtual address: ", pointer v) ∷ []) (codes "\n")
            _ _ refl refl refl refl t1 s1)
          λ t2 s2.
            show_level-Whole "PML4 Entry:      \n" "PDPT entry in PML4 is not present!\n" top m _
              refl refl (walk_pdpt-Whole v next m) t2 s2

  os_error_halt-Whole :
      (file line : ℕ) (ts : List (List ℕ × Piece)) (end fmt args : List ℕ)
      → length (string_at file mem) ≤ 31
      → are_numbers ts end ≡ true
      → format (fields ts end) ≡ fmt
      → arguments (fields ts end) ≡ args
      → Whole (os_error_halt dev mem file line fmt args)
  unfolding os_error_halt
  os_error_halt-Whole file line ts end fmt args few are is_fmt is_args t sound =
      Returns-bind {P = IsSound s} (say-Whole "\n" refl t sound) λ t1 s1.
        Returns-bind {P = IsSound s}
          (numbers-Whole (codes "ERROR: ") ts end fmt args refl are is_fmt is_args t1 s1)
          λ t2 s2.
            Returns-bind {P = IsSound s}
              (fields-Whole []
                ((codes "ERROR: This error has occurred at ", string file)
                  ∷ (codes ":", int line)
                  ∷ [])
                (codes "\n") _ _ refl (refl, few, (refl, tt, refl)) refl refl t2 s2)
              (say-Whole "ERROR: The system will now halt.\n" refl)

  fault_report-Whole :
      (file line cr2 err entry : ℕ) (m : Mmu)
      → length (string_at file mem) ≤ 31
      → Whole (fault_report dev mem file line cr2 err entry m)
  unfolding fault_report
  fault_report-Whole file line cr2 err entry m few t sound =
      let w = m.word entry in
      Returns-bind {P = IsSound s} (walk_virt_addr-Whole cr2 m t sound) λ t1 s1.
        Returns-bind {P = IsSound s} (decode_error_flags-Whole (err % 2 ^ 16) t1 s1) λ t2 s2.
          os_error_halt-Whole file line
            ((codes "Page fault at virtual address ", pointer cr2)
              ∷ (codes " cannot be recovered!\npt_entry->present ......... ", int (present w))
              ∷ (codes "\npt_entry->writable ........ ", int (flag 1 w))
              ∷ (codes "\npt_entry->user ............ ", int (flag 2 w))
              ∷ (codes "\npt_entry->write_through ... ", int (flag 3 w))
              ∷ (codes "\npt_entry->cache_disabled .. ", int (flag 4 w))
              ∷ (codes "\npt_entry->accessed ........ ", int (flag 5 w))
              ∷ (codes "\npt_entry->bit_6 ........... ", int (flag 6 w))
              ∷ (codes "\npt_entry->bit_7 ........... ", int (flag 7 w))
              ∷ (codes "\npt_entry->bit_8 ........... ", int (flag 8 w))
              ∷ (codes "\npt_entry->dirty ........... ", int (flag 9 w))
              ∷ (codes "\npt_entry->alloc ........... ", int (alloc w))
              ∷ (codes "\npt_entry->bit_B ........... ", int (flag 11 w))
              ∷ (codes "\npt_entry->frame_addr ...... ", pointer (read_frame_addr w))
              ∷ (codes "\npt_entry->unused .......... ", int (get_field 52 11 w))
              ∷ (codes "\npt_entry->no_execute ...... ", int (flag 63 w))
              ∷ [])
            (codes "\n\n") _ _ few refl refl refl t2 s2

-- The report of a page fault that cannot be handled, whatever the tables hold, with the walk of
-- its address and the flags of its error: it gets to the halt without writing behind the buffer of
-- printk; the cursor of the screen is still on it, no cell behind the screen has changed, and the
-- ring of the serial port is well formed. The cursor is on the screen and the ring well formed
-- before, and the name of the source file has 31 characters at most.
pub fault_report-IsSound :
    (dev : Device) (mem : Memory) (file line cr2 err entry : ℕ) (m : Mmu) (s : Console)
    → length (string_at file mem) ≤ 31
    → OnScreen s.vga
    → IsRing s.serial
    → Returns (fault_report dev mem file line cr2 err entry m s) (IsSound s)
fault_report-IsSound dev mem file line cr2 err entry m s few on ring =
    fault_report-Whole dev mem s file line cr2 err entry m few s (on, ring, λ x out. refl)
