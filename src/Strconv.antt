-- ===== src/Strconv.antt =====
-- What the program uses of Go's packages strconv and strings: `Atoi`, `ParseInt` with base 0 and
-- 64 bits, `strings.Compare`. A Go error of these functions is `none`: the callers only test it.
pub mod Decimal
pub mod Format
use Prim.Native.Nat.{bit_or}
use runtopo.Prelude.{
  ℕ, ◌+◌, ◌-◌, ◌*◌, ◌^◌, Bool, true, false, ◌&&◌, ◌||◌, not, Option, none, some, [], ◌∷◌, Bytes,
  ltb, leb, ◌==◌, if◌then◌else◌,
}
use runtopo.Prelude.Int.{ℤ, pos, negsuc}

unfoldable pub is_digit : ℕ → Bool
is_digit c = leb b'0' c && leb c b'9'

-- `lower` of strconv/atoi.go sets the bit that tells the cases of a letter apart.
unfoldable pub lower : ℕ → ℕ
lower c = bit_or c 0x20

-- The value of a digit or letter; `none` for any other byte.
unfoldable pub digit_value : ℕ → Option ℕ
unfolding is_digit lower
digit_value c =
    if is_digit c
    then some (c - b'0')
    else if leb b'a' (lower c) && leb (lower c) b'z'
    then some (lower c - b'a' + 10)
    else none

-- One digit below the base moves the number read so far.
unfoldable pub push_digit : ℕ → ℕ → ℕ → Option ℕ
unfolding digit_value
push_digit base n c = elim (digit_value c) [
  | none ↦ none
  | some d ↦ if ltb d base then some (n * base + d) else none
]

-- The loop of `ParseUint`, with no bound; the bounds are tested on its result.
unfoldable pub scan_digits : Bool → ℕ → ℕ → Bytes → Option ℕ
unfolding push_digit
scan_digits underscores base n [] = some n
scan_digits underscores base n (c ∷ s) =
    let skip = scan_digits underscores base n s in
    if underscores && c == b'_'
    then skip
    else elim (push_digit base n c) [ none ↦ none | some m ↦ scan_digits underscores base m s ]

-- The bounds of `int64`, by the sign.
unfoldable pub in_int64 : Bool → Option ℕ → Option ℤ
in_int64 neg none = none
in_int64 true (some n) =
    if n == 0 then some (pos 0) else if leb n (2 ^ 63) then some (negsuc (n - 1)) else none
in_int64 false (some n) = if ltb n (2 ^ 63) then some (pos n) else none

-- `ParseUint(s, 10, 64)` before its bounds: no digit at all is an error.
unfoldable pub scan_decimal : Bytes → Option ℕ
unfolding scan_digits
scan_decimal [] = none
scan_decimal (c ∷ s) = scan_digits false 10 0 (c ∷ s)

-- strconv.Atoi
unfoldable pub atoi : Bytes → Option ℤ
unfolding in_int64 scan_decimal
atoi [] = none
atoi (c ∷ s) =
    if c == b'-'
    then in_int64 true (scan_decimal s)
    else if c == b'+'
    then in_int64 false (scan_decimal s)
    else in_int64 false (scan_decimal (c ∷ s))

-- The last thing that `underscoreOK` saw: the beginning, a digit or a base prefix, an underscore,
-- or anything else.
pub data Saw : Type 0 where
  start digit underscore other : Saw

unfoldable pub underscores_end : Saw → Bool
underscores_end Saw.underscore = false
underscores_end _ = true

unfoldable pub may_underscore : Saw → Bool
may_underscore Saw.digit = true
may_underscore _ = false

unfoldable pub underscore_scan : Bool → Saw → Bytes → Bool
unfolding is_digit lower underscores_end may_underscore
underscore_scan hex saw [] = underscores_end saw
underscore_scan hex saw (c ∷ s) =
    let after_digit = underscore_scan hex Saw.digit s in
    let after_underscore = underscore_scan hex Saw.underscore s in
    let after_other = underscore_scan hex Saw.other s in
    if is_digit c || hex && leb b'a' (lower c) && leb (lower c) b'f'
    then after_digit
    else if c == b'_'
    then (if may_underscore saw then after_underscore else false)
    else if underscores_end saw
    then after_other
    else false

-- `underscoreOK`, behind the sign: an underscore stands between digits, or after the base prefix.
unfoldable pub underscore_ok : Bytes → Bool
unfolding underscore_scan
underscore_ok (a ∷ b ∷ s) =
    if a == b'0' && (lower b == b'b' || lower b == b'o' || lower b == b'x')
    then underscore_scan (lower b == b'x') Saw.digit s
    else underscore_scan false Saw.start (a ∷ b ∷ s)
underscore_ok s = underscore_scan false Saw.start s

unfoldable pub has_underscore : Bytes → Bool
has_underscore [] = false
has_underscore (c ∷ s) = c == b'_' || has_underscore s

-- `ParseUint(s, 0, 64)` before its bounds: the base prefix chooses the base.
unfoldable pub scan_prefix : Bytes → Option ℕ
unfolding scan_digits lower
scan_prefix [] = none
scan_prefix (a ∷ b ∷ c ∷ s) =
    if a == b'0'
    then (if lower b == b'b'
        then scan_digits true 2 0 (c ∷ s)
        else if lower b == b'o'
        then scan_digits true 8 0 (c ∷ s)
        else if lower b == b'x'
        then scan_digits true 16 0 (c ∷ s)
        else scan_digits true 8 0 (b ∷ c ∷ s))
    else scan_digits true 10 0 (a ∷ b ∷ c ∷ s)
scan_prefix (a ∷ s) = if a == b'0' then scan_digits true 8 0 s else scan_digits true 10 0 (a ∷ s)

unfoldable pub scan_uint : Bytes → Option ℕ
unfolding scan_prefix has_underscore underscore_ok
scan_uint s = if has_underscore s && not (underscore_ok s) then none else scan_prefix s

-- `strconv.ParseInt(s, 0, 64)`
unfoldable pub parse_int : Bytes → Option ℤ
unfolding in_int64 scan_uint
parse_int [] = none
parse_int (c ∷ s) =
    if c == b'-'
    then in_int64 true (scan_uint s)
    else if c == b'+'
    then in_int64 false (scan_uint s)
    else in_int64 false (scan_uint (c ∷ s))

-- `strings.Compare`
unfoldable pub strings_compare : Bytes → Bytes → ℤ
strings_compare [] [] = pos 0
strings_compare [] (d ∷ t) = negsuc 0
strings_compare (c ∷ s) [] = pos 1
strings_compare (c ∷ s) (d ∷ t) =
    if ltb c d then negsuc 0 else if ltb d c then pos 1 else strings_compare s t
