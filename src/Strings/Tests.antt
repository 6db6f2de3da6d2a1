-- ===== src/Strings/Tests.antt =====
-- The theorems on strings at a memory with two words.
use csc.Base.{◌+◌, ◌-◌, ◌≡◌, [], ◌∷◌, ltb, leb, ◌&&◌, if◌then◌else◌, arith, get_or}
use csc.Strings.{Memory, strnlen, strncpy}
use csc.Strings.Copy.{strncpy_lem}

-- "abc" at 100 and "abd" at 200; 120 is full of 7.
abbrev words : Memory
words a =
    if leb 200 a
    then get_or (97 ∷ 98 ∷ 100 ∷ []) (a - 200) 0
    else if leb 120 a
    then 7
    else if leb 100 a
    then get_or (97 ∷ 98 ∷ 99 ∷ []) (a - 100) 0
    else 0

strncpy_lem_example :
    ((strncpy 120 200 10 words).0 ≡ 120)
    × ((strncpy 120 200 10 words).1 121 ≡ (
        if leb 120 121 && ltb 121 (120 + strnlen 200 10 words)
        then words (200 + (121 - 120))
        else words 121))
    × ((strncpy 120 200 10 words).1 (120 + strnlen 200 10 words)
        ≡ words (120 + strnlen 200 10 words))
strncpy_lem_example =
    strncpy_lem 120 200 10 words 121 (λ e. omega arith) (λ e. omega arith) (omega arith)
