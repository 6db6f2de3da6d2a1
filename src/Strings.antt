-- ===== src/Strings.antt =====
-- Memory and strings, Bric_OS/lib/string.c: a memory is a function from addresses to bytes.
-- A loop that counts to a bound is a recursion on what is left of the bound; strchr, which has no
-- bound, takes fuel.
pub mod Blocks
pub mod Content
pub mod Compare
pub mod Copy
mod Tests
use csc.Base.{
  ℕ, zero, suc, ◌+◌, ◌-◌, ◌%◌, Bool, true, false, ◌&&◌, ◌||◌, not, ◌==◌, ltb, if◌then◌else◌, null,
  update,
}
use csc.Base.Ints.{ℤ, pos, minus_one, sub_int}
use csc.Base.Outcome.{Outcome, ok, out_of_fuel}

abbrev pub Memory : Type 0
Memory = ℕ → ℕ

abbrev pub max_str_len : ℕ
max_str_len = 65536

unfoldable pub memset : ℕ → ℕ → ℕ → Memory → Memory
memset d c zero mem = mem
memset d c (suc n) mem = memset (d + 1) c n (update mem d (c % 256))

unfoldable pub memcpy : ℕ → ℕ → ℕ → Memory → Memory
memcpy d s zero mem = mem
memcpy d s (suc n) mem = memcpy (d + 1) (s + 1) n (update mem d (mem s))

-- The loop of strnlen, with what is left of maxlen.
unfoldable pub count : ℕ → ℕ → Memory → ℕ
count s zero mem = 0
count s (suc k) mem = if mem s == 0 then 0 else suc (count (s + 1) k mem)

unfoldable pub strnlen : ℕ → ℕ → Memory → ℕ
unfolding count
strnlen s maxlen mem =
    if (s == null) || (maxlen == 0) || (mem s == 0) then 0 else count s maxlen mem

unfoldable pub strlen : ℕ → Memory → ℕ
unfolding strnlen
strlen s mem = strnlen s max_str_len mem

-- The loop of strncpy, with what is left of n. It looks for the end behind the byte it has copied.
copy : ℕ → ℕ → ℕ → Memory → Memory
copy d s zero mem = mem
copy d s (suc k) mem =
    let mem' = update mem d (mem s) in
    let on = copy (d + 1) (s + 1) k mem' in if mem' (s + 1) == 0 then mem' else on

-- The results are the pointer and the memory.
unfoldable pub strncpy : ℕ → ℕ → ℕ → Memory → ℕ × Memory
unfolding copy
strncpy dest src n mem =
    if (dest == null) || (src == null)
    then (null, mem)
    else if (mem src == 0) || (n == 0)
    then (dest, mem)
    else (dest, copy dest src n mem)

unfoldable pub strcpy : ℕ → ℕ → Memory → ℕ × Memory
unfolding strncpy strlen
strcpy dest src mem =
    if (dest == null) || (src == null)
    then (null, mem)
    else if mem src == 0
    then (dest, mem)
    else (dest, (strncpy dest src (strlen src mem) mem).1)

unfoldable pub strncat : ℕ → ℕ → ℕ → Memory → ℕ × Memory
unfolding strncpy strlen
strncat dest src n mem =
    if (dest == null) || (src == null)
    then (null, mem)
    else if (mem src == 0) || (n == 0)
    then (dest, mem)
    else (dest, (strncpy (dest + strlen dest mem) src n mem).1)

unfoldable pub strcat : ℕ → ℕ → Memory → ℕ × Memory
unfolding strncpy strlen
strcat dest src mem =
    if (dest == null) || (src == null)
    then (null, mem)
    else if mem src == 0
    then (dest, mem)
    else (dest, (strncpy (dest + strlen dest mem) src (strlen src mem) mem).1)

-- The loop of strncmp, with what is left of n.
compare_bytes : ℕ → ℕ → ℕ → Memory → ℤ
compare_bytes s1 s2 zero mem = pos 0
compare_bytes s1 s2 (suc k) mem =
    let on = compare_bytes (s1 + 1) (s2 + 1) k mem in
    if mem s1 == 0
    then sub_int (mem s1) (mem s2)
    else if mem s1 == mem s2
    then on
    else sub_int (mem s1) (mem s2)

unfoldable pub strncmp : ℕ → ℕ → ℕ → Memory → ℤ
unfolding compare_bytes
strncmp s1 s2 n mem = if (s1 == null) || (s2 == null) then minus_one else compare_bytes s1 s2 n mem

unfoldable pub strcmp : ℕ → ℕ → Memory → ℤ
unfolding strncmp strlen
strcmp s1 s2 mem =
    let len1 = strlen s1 mem in
    let len2 = strlen s2 mem in
    if (s1 == null) || (s2 == null)
    then minus_one
    else if ltb len2 len1
    then strncmp s1 s2 len1 mem
    else strncmp s1 s2 len2 mem

unfoldable pub strchr : ℕ → ℕ → ℕ → Memory → Outcome ℕ
strchr zero s c mem = out_of_fuel
strchr (suc k) s c mem =
    let on = strchr k (s + 1) c mem in
    if mem s == c then ok s else if mem s == 0 then ok null else on
