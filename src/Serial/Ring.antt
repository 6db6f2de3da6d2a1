-- ===== src/Serial/Ring.antt =====
-- The ring of the serial port as a queue.
use csc.Base.{
  ℕ, zero, suc, ◌+◌, ◌-◌, ◌%◌, ◌<◌, ◌≤◌, ◌≡◌, ◌≢◌, refl, sym, ap, ◌∙◌, List, [], ◌∷◌, ◌++◌, length,
  get_or, set, arith, get_or-set_self, get_or-set_ne, length-set,
}
use csc.Serial.{Serial, serial_buff_size, wrap, put}

-- The n bytes of a ring from an index on.
abbrev pub bytes_from : List ℕ → ℕ → ℕ → List ℕ
bytes_from buff c zero = []
bytes_from buff c (suc n) = get_or buff c 0 % 256 ∷ bytes_from buff (wrap (c + 1)) n

pub record RingOf (buff : List ℕ) (prod cons count : ℕ) : Type 0 where
  pub full_length : length buff ≡ serial_buff_size
  pub cons_in : cons < serial_buff_size
  pub room : count ≤ serial_buff_size
  pub prod_at : prod ≡ (cons + count) % serial_buff_size

abbrev pub IsRing : Serial → Type 0
IsRing s = RingOf s.buff s.prod s.cons s.count

-- The bytes that wait, the first one to send in front.
abbrev pub queued : Serial → List ℕ
queued s = bytes_from s.buff s.cons s.count

pub bytes_from-last :
    (buff : List ℕ) (c n : ℕ)
    → c < serial_buff_size
    → bytes_from buff c (suc n)
      ≡ bytes_from buff c n ++ (get_or buff ((c + n) % serial_buff_size) 0 % 256 ∷ [])
bytes_from-last buff c zero low = ap (λ i. get_or buff i 0 % 256 ∷ []) (omega arith)
bytes_from-last buff c (suc n) low =
    ap (λ l. get_or buff c 0 % 256 ∷ l)
      (bytes_from-last buff (wrap (c + 1)) n (ground arith)
        ∙ ap (λ i. bytes_from buff (wrap (c + 1)) n ++ (get_or buff i 0 % 256 ∷ [])) (ground arith))

-- A write behind the bytes does not change them.
bytes_from-set :
    (buff : List ℕ) (c n p v : ℕ)
    → c < serial_buff_size
    → p < serial_buff_size
    → n ≤ (p + serial_buff_size - c) % serial_buff_size
    → bytes_from (set buff p v) c n ≡ bytes_from buff c n
bytes_from-set buff c zero p v low in_ring behind = refl
bytes_from-set buff c (suc n) p v low in_ring behind =
    let other : p ≢ c = λ e. omega arith in
    rw (get_or-set_ne buff v 0 other) (
      ap (λ l. get_or buff c 0 % 256 ∷ l)
        (bytes_from-set buff (wrap (c + 1)) n p v (ground arith) in_ring (ground arith)))

-- put appends a byte to the queue.
pub put-queued :
    (d : ℕ) (s : Serial)
    → IsRing s
    → s.count ≢ serial_buff_size
    → IsRing (put d s) × (queued (put d s) ≡ queued s ++ (d % 256 ∷ []))
unfolding put
put-queued d s ring space =
    let new = set s.buff s.prod (d % 256) in
    let at : s.prod ≡ (s.cons + s.count) % serial_buff_size = ring.prod_at in
    let inside : s.prod < serial_buff_size = omega (arith, at) in
    let kept : bytes_from new s.cons s.count ≡ bytes_from s.buff s.cons s.count =
      bytes_from-set s.buff s.cons s.count s.prod (d % 256) ring.cons_in inside
        (omega (arith, ring.room, ring.cons_in, at)) in
    let stored : get_or new s.prod 0 ≡ d % 256 =
      get_or-set_self s.buff s.prod (d % 256) 0 (omega (arith, inside, ring.full_length)) in
    let byte : get_or new ((s.cons + s.count) % serial_buff_size) 0 % 256 ≡ d % 256 =
      ap (λ i. get_or new i 0 % 256) (sym at) ∙ omega (arith, stored) in
    let one_more : s.count + 1 ≡ suc s.count = omega arith in
    (
      record {
        full_length = length-set s.buff s.prod (d % 256) ∙ ring.full_length;
        cons_in = ring.cons_in;
        room = omega (arith, ring.room, space);
        prod_at = ground (arith, at, ring.cons_in, ring.room);
      },
      ap (λ n. bytes_from new s.cons n) one_more
          ∙ bytes_from-last new s.cons s.count ring.cons_in
          ∙ ap (λ l. l ++ (get_or new ((s.cons + s.count) % serial_buff_size) 0 % 256 ∷ [])) kept
          ∙ ap (λ b. bytes_from s.buff s.cons s.count ++ (b ∷ [])) byte,
    )
