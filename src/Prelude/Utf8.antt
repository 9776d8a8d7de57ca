-- ===== src/Prelude/Utf8.antt =====
-- What `for _, c := range s` visits: the runes of a string, as Go decodes UTF-8. A byte that begins
-- no valid sequence stands for U+FFFD, and the next byte follows.
pub mod Ascii
use Prim.Native.Nat.{ℕ, zero, suc, ◌+◌, ◌*◌, ◌%◌}
use mathlib.Core.Bool.{Bool, ◌&&◌}
use mathlib.Core.List.{List, [], ◌∷◌}
use runtopo.Prelude.Tests.{leb, ◌==◌, if◌then◌else◌}
use runtopo.Prelude.Lists.{length, drop}
use runtopo.Prelude.Text.{Bytes}

abbrev pub rune_error : ℕ
rune_error = 0xFFFD

abbrev within : ℕ → ℕ → ℕ → Bool
within lo c hi = leb lo c && leb c hi

two_bytes : ℕ → ℕ → ℕ
two_bytes a b = a % 32 * 64 + b % 64

three_bytes : ℕ → ℕ → ℕ → ℕ
three_bytes a b c = a % 16 * 4096 + b % 64 * 64 + c % 64

four_bytes : ℕ → ℕ → ℕ → ℕ → ℕ
four_bytes a b c d = a % 8 * 262144 + b % 64 * 4096 + c % 64 * 64 + d % 64

-- The second byte of a sequence of three or of four, by the first one.
second_of_three : ℕ → ℕ → Bool
second_of_three a b =
    if a == 0xE0
    then within 0xA0 b 0xBF
    else if a == 0xED
    then within 0x80 b 0x9F
    else within 0x80 b 0xBF

second_of_four : ℕ → ℕ → Bool
second_of_four a b =
    if a == 0xF0
    then within 0x90 b 0xBF
    else if a == 0xF4
    then within 0x80 b 0x8F
    else within 0x80 b 0xBF

-- The rune and the number of bytes that it takes, where a valid sequence begins with `a`.
try_two : ℕ → Bytes → ℕ × ℕ
unfolding two_bytes
try_two a (b ∷ _) = if within 0x80 b 0xBF then (two_bytes a b, 2) else (rune_error, 1)
try_two a [] = (rune_error, 1)

try_three : ℕ → Bytes → ℕ × ℕ
unfolding three_bytes second_of_three
try_three a (b ∷ c ∷ _) =
    if second_of_three a b && within 0x80 c 0xBF then (three_bytes a b c, 3) else (rune_error, 1)
try_three a _ = (rune_error, 1)

try_four : ℕ → Bytes → ℕ × ℕ
unfolding four_bytes second_of_four
try_four a (b ∷ c ∷ d ∷ _) =
    if second_of_four a b && within 0x80 c 0xBF && within 0x80 d 0xBF
    then (four_bytes a b c d, 4)
    else (rune_error, 1)
try_four a _ = (rune_error, 1)

decode_rune : ℕ → Bytes → ℕ × ℕ
decode_rune a s =
    if leb a 0x7F
    then (a, 1)
    else if within 0xC2 a 0xDF
    then try_two a s
    else if within 0xE0 a 0xEF
    then try_three a s
    else if within 0xF0 a 0xF4
    then try_four a s
    else (rune_error, 1)

-- The fuel is the number of bytes; each rune takes one at least.
runes_loop : ℕ → Bytes → List ℕ
unfolding decode_rune try_two try_three try_four
runes_loop fuel [] = []
runes_loop zero (a ∷ s) = []
runes_loop (suc fuel) (a ∷ s) =
    let (r, width) = decode_rune a s in r ∷ runes_loop fuel (drop width (a ∷ s))

unfoldable pub runes : Bytes → List ℕ
unfolding runes_loop
runes s = runes_loop (length s) s
