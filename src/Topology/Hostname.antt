-- ===== src/Topology/Hostname.antt =====
-- `isValidHostname` of topology/helper.go and the tests of characters that it uses.
use runtopo.Prelude.{
  ℕ, ◌≤◌, ◌≡◌, ◌↔◌, ◌⊎◌, Bool, true, false, ◌&&◌, ◌||◌, [], ◌∷◌, arith, Bytes, leb, ◌==◌,
  if◌then◌else◌, All,
}
use runtopo.Prelude.Utf8.{runes}
use runtopo.Prelude.Utf8.Ascii.{each, each-runes}

unfoldable pub is_ascii_alpha : ℕ → Bool
is_ascii_alpha c = leb b'A' c && leb c b'Z' || leb b'a' c && leb c b'z'

unfoldable pub is_ascii_alnum : ℕ → Bool
unfolding is_ascii_alpha
is_ascii_alnum c = is_ascii_alpha c || leb b'0' c && leb c b'9'

unfoldable pub is_ascii_alnum_hyp : ℕ → Bool
unfolding is_ascii_alnum
is_ascii_alnum_hyp c = is_ascii_alnum c || c == b'-'

-- `s[len(s)-1]` of the text `c ∷ s`.
unfoldable pub last_byte : ℕ → Bytes → ℕ
last_byte c [] = c
last_byte c (d ∷ s) = last_byte d s

-- The loop visits the runes of `s[1:]`; the first and the last test are of bytes.
unfoldable pub is_valid_hostname : Bytes → Bool
is_valid_hostname [] = false
is_valid_hostname (c ∷ s) =
    if is_ascii_alpha c
    then (if each is_ascii_alnum_hyp (runes s) then is_ascii_alnum (last_byte c s) else false)
    else false

-- Letters and digits of ASCII, by their ranges.
abbrev pub IsLetter : ℕ → Type 0
IsLetter c = ((b'A' ≤ c) × (c ≤ b'Z')) ⊎ ((b'a' ≤ c) × (c ≤ b'z'))

abbrev pub IsLetterOrDigit : ℕ → Type 0
IsLetterOrDigit c = IsLetter c ⊎ ((b'0' ≤ c) × (c ≤ b'9'))

abbrev pub IsHostname : Bytes → Type 0
IsHostname [] = ⊥
IsHostname (c ∷ s) =
    IsLetter c × All (λ d. IsLetterOrDigit d ⊎ (d ≡ b'-')) s × IsLetterOrDigit (last_byte c s)

alpha_iff : (c : ℕ) → (is_ascii_alpha c ≡ true) ↔ IsLetter c
unfolding is_ascii_alpha
alpha_iff c = ground arith

alnum_iff : (c : ℕ) → (is_ascii_alnum c ≡ true) ↔ IsLetterOrDigit c
unfolding is_ascii_alnum
alnum_iff c = ground arith

alnum_hyp_iff : (c : ℕ) → (is_ascii_alnum_hyp c ≡ true) ↔ (IsLetterOrDigit c ⊎ (c ≡ b'-'))
unfolding is_ascii_alnum_hyp
alnum_hyp_iff c = ground arith

alnum_hyp_ascii : (r : ℕ) → 0x80 ≤ r → is_ascii_alnum_hyp r ≡ false
unfolding is_ascii_alnum_hyp
alnum_hyp_ascii r h = ground arith

each_iff :
    (s : Bytes) → (each is_ascii_alnum_hyp s ≡ true) ↔ All (λ d. IsLetterOrDigit d ⊎ (d ≡ b'-')) s
unfolding each
each_iff [] = ground arith
each_iff (c ∷ s) = ground (arith, alnum_hyp_iff c, each_iff s)

-- A name is valid exactly when it begins with an ASCII letter, goes on with letters, digits and
-- hyphens byte by byte, and does not end in a hyphen. No sequence of UTF-8 passes the rune loop.
pub is_valid_hostname_iff : (s : Bytes) → (is_valid_hostname s ≡ true) ↔ IsHostname s
unfolding is_valid_hostname
is_valid_hostname_iff [] = ground arith
is_valid_hostname_iff (c ∷ s) =
    rw (each-runes is_ascii_alnum_hyp alnum_hyp_ascii s)
      (ground (arith, alpha_iff c, each_iff s, alnum_iff (last_byte c s)))
