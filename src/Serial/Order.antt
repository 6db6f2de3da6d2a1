-- ===== src/Serial/Order.antt =====
-- The bytes that were sent, and those that wait: none is lost, sent twice or sent out of order.
use csc.Base.{
  ℕ, suc, ◌+◌, ◌-◌, ◌%◌, ◌≤◌, ◌≡◌, refl, sym, ap, ◌∙◌, true, false, not, ◌==◌, List, [], ◌∷◌, ◌++◌,
  map, take, length, if◌then◌else◌, arith, ◌⊎◌, ◌&&◌, get_or, Bool-cases, inl, inr, ==→eq, ==→ne,
}
use Prim.Native.Nat.{bit_and}
use mathlib.Core.List.{append_assoc, append-nil}
use csc.Base.Ints.{pos, minus_one}
use csc.Base.Ports.{Access, got, sent, Device}
use csc.Irq.{Irq, irq_enable, irq_disable, irq_reenable}
use csc.Serial.{
  Serial, serial_buff_size, serial_port, wrap, put, cons_get, hw_write, send_taken, prod_add,
  serial_write,
}
use csc.Serial.Ring.{bytes_from, IsRing, queued, put-queued}

-- The bytes that went out at the transmitter's port, the first one in front.
abbrev pub transmitted : List Access → List ℕ
transmitted [] = []
transmitted (got p v ∷ io) = transmitted io
transmitted (sent p v ∷ io) =
    if p == serial_port then transmitted io ++ (v ∷ []) else transmitted io

-- All bytes that were accepted.
abbrev pub stream : Serial → List ℕ
stream s = transmitted s.irq.io ++ queued s

irq_io : (s : Serial) → (irq_reenable (irq_disable s.irq)).io ≡ s.irq.io
unfolding irq_reenable irq_disable
irq_io s = elim (Bool-cases s.irq.status_curr) [ inl e ↦ rw e refl | inr e ↦ rw e refl ]

abbrev taken : Serial → Serial
taken s = record s {
  irq = irq_reenable (irq_disable s.irq);
  cons = wrap (s.cons + 1);
  count = s.count - 1;
  idle_flag = if s.count - 1 == 0 then true else s.idle_flag;
}

cons_get-taken :
    (s : Serial) → (s.count == 0) ≡ false → cons_get s ≡ (pos 0, get_or s.buff s.cons 0, taken s)
unfolding cons_get
cons_get-taken s e = rw e refl

cons_get-none : (s : Serial) → (s.count == 0) ≡ true → cons_get s ≡ (minus_one, 0, s)
unfolding cons_get
cons_get-none s e = rw e refl

taken-IsRing : (s : Serial) → IsRing s → (s.count == 0) ≡ false → IsRing (taken s)
taken-IsRing s ring e = record {
  full_length = ring.full_length;
  cons_in = ground (arith, ring.cons_in);
  room = omega (arith, ring.room);
  prod_at = ground (arith, ring.prod_at, ring.cons_in, ring.room);
}

-- Taking a byte and sending it.
send_taken-stream :
    (s : Serial)
    → IsRing s
    → IsRing (send_taken (cons_get s)) × (stream (send_taken (cons_get s)) ≡ stream s)
send_taken-stream s ring = elim (Bool-cases (s.count == 0)) [
  | inl e ↦ rw (cons_get-none s e) (ring, refl)
  | inr e ↦
      let one_less : suc (s.count - 1) ≡ s.count = ground arith in
      let first = get_or s.buff s.cons 0 % 256 in
      let behind = bytes_from s.buff (wrap (s.cons + 1)) (s.count - 1) in
      rw (cons_get-taken s e) (
        taken-IsRing s ring e,
        ap (λ io. (transmitted io ++ (first ∷ [])) ++ behind) (irq_io s)
            ∙ append_assoc (transmitted s.irq.io) (first ∷ []) behind
            ∙ ap (λ n. transmitted s.irq.io ++ bytes_from s.buff s.cons n) one_less,
      )
]

abbrev pub Kept : Serial → Serial → Type 0
Kept s s' = IsRing s' × (stream s' ≡ stream s)

pub hw_write-Kept : (dev : Device) (s : Serial) → IsRing s → Kept s (hw_write dev s)
unfolding hw_write
hw_write-Kept dev s ring = elim (Bool-cases s.idle_flag) [
  | inl e ↦ rw e (send_taken-stream (record s { idle_flag = false }) ring)
  | inr e ↦
      let line = dev s.irq.io (serial_port + 5) % 256 in
      elim (Bool-cases (bit_and line 0x20 == 0x20)) [
        | inl f ↦ rw (e, f) (ring, refl)
        | inr f ↦ rw (e, f) (ring, refl)
      ]
]

irq-stream : (s : Serial) (q : Irq) → q.io ≡ s.irq.io → stream (record s { irq = q }) ≡ stream s
irq-stream s q e = ap (λ io. transmitted io ++ queued s) e

disable_io : (q : Irq) → (irq_disable q).io ≡ q.io
unfolding irq_disable
disable_io q = refl

reenable_io : (q : Irq) → (irq_reenable q).io ≡ q.io
unfolding irq_reenable irq_enable
reenable_io q = elim (Bool-cases (q.status_prev && not q.status_curr)) [
  | inl e ↦ rw e refl
  | inr e ↦ rw e refl
]

-- The transmitter is started for the first byte.
start-Kept :
    (dev : Device) (s : Serial) → IsRing s → Kept s (if s.count == 1 then hw_write dev s else s)
start-Kept dev s ring = elim (Bool-cases (s.count == 1)) [
  | inl e ↦ rw e (hw_write-Kept dev s ring)
  | inr e ↦ rw e (ring, refl)
]

-- A byte is added, or the ring is full and nothing changes.
prod_add-stream :
    (dev : Device) (d : ℕ) (s : Serial)
    → IsRing s
    → let (r, s') = prod_add dev d s in
      IsRing s'
      × (((r ≡ pos 0) × (stream s' ≡ stream s ++ (d % 256 ∷ [])))
          ⊎ ((r ≡ minus_one) × (stream s' ≡ stream s) × (s.count ≡ serial_buff_size)))
unfolding prod_add
prod_add-stream dev d s ring =
    let s1 = record s { irq = irq_disable s.irq } in
    let s2 = put d s1 in
    let s3 = if s2.count == 1 then hw_write dev s2 else s2 in
    let quiet : stream s1 ≡ stream s = irq-stream s (irq_disable s.irq) (disable_io s.irq) in
    elim (Bool-cases (s.count == serial_buff_size)) [
      | inl full ↦ rw full (
        ring,
        inr (
          refl,
          irq-stream s1 (irq_reenable s1.irq) (reenable_io s1.irq) ∙ quiet,
          ==→eq _ _ full,
        ),
      )
      | inr space ↦
          let (put_ring, put_queue) = put-queued d s1 ring (==→ne _ _ space) in
          let (ring3, stream3) = start-Kept dev s2 put_ring in
          rw space (
            ring3,
            inl (
              refl,
              irq-stream s3 (irq_reenable s3.irq) (reenable_io s3.irq)
                  ∙ stream3
                  ∙ ap (λ q. transmitted s1.irq.io ++ q) put_queue
                  ∙ sym (append_assoc (transmitted s1.irq.io) (queued s) (d % 256 ∷ []))
                  ∙ ap (λ q. q ++ (d % 256 ∷ [])) quiet,
            ),
          )
    ]

abbrev pub bytes : List ℕ → List ℕ
bytes ds = map (λ d. d % 256) ds

-- On a well-formed ring, serial_write keeps it so, and puts the first bytes of the string, as many
-- as it reports, in order behind the bytes that were sent or waited before.
pub serial_write-stream :
    (dev : Device) (ds : List ℕ) (s : Serial)
    → IsRing s
    → let (n, s') = serial_write dev ds s in
      IsRing s' × (stream s' ≡ stream s ++ take n (bytes ds)) × (n ≤ length ds)
unfolding serial_write
serial_write-stream dev [] s ring = (ring, sym (append-nil (stream s)), omega arith)
serial_write-stream dev (d ∷ ds) s ring =
    let (ring1, added) = prod_add-stream dev d s ring in
    elim added [
      | inl (r, more) ↦
          let (ring2, rest, few) = serial_write-stream dev ds (prod_add dev d s).1 ring1 in
          rw r (
            ring2,
            rest
                ∙ ap (λ q. q ++ take (serial_write dev ds (prod_add dev d s).1).0 (bytes ds)) more
                ∙ append_assoc (stream s) (d % 256 ∷ []) _,
            omega (arith, few),
          )
      | inr (r, same, full) ↦ rw r (ring1, same ∙ sym (append-nil (stream s)), omega arith)
    ]
