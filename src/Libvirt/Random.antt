-- ===== src/Libvirt/Random.antt =====
-- `randomString` of runner/libvirt/helper.go, with what it uses of encoding/base64. What crypto/rand puts in
-- the buffer is an argument, none for an error. The length is not negative, as in both calls.
use runtopo.Prelude.{
  ℕ, zero, suc, ◌+◌, ◌-◌, ◌*◌, ◌/◌, ◌%◌, ◌≤◌, ◌≡◌, refl, true, ◌&&◌, ◌||◌, Bytes, Option, none,
  some, [], ◌∷◌, length, take, All, arith, leb, ltb, ◌==◌, if◌then◌else◌, Outcome, ok, panic,
}
use runtopo.Errors.{Error}

-- The alphabet of `base64.URLEncoding`.
unfoldable pub url_char : ℕ → ℕ
url_char i =
    if ltb i 26
    then b'A' + i
    else if ltb i 52
    then b'a' + (i - 26)
    else if ltb i 62
    then b'0' + (i - 52)
    else if i == 62
    then b'-'
    else b'_'

-- `base64.URLEncoding.EncodeToString`: four characters for three bytes, with padding at the end.
unfoldable pub encode_to_string : Bytes → Bytes
unfolding url_char
encode_to_string [] = []
encode_to_string (a ∷ []) = url_char (a / 4) ∷ url_char (a % 4 * 16) ∷ b'=' ∷ b'=' ∷ []
encode_to_string (a ∷ b ∷ []) =
    url_char (a / 4) ∷ url_char (a % 4 * 16 + b / 16) ∷ url_char (b % 16 * 4) ∷ b'=' ∷ []
encode_to_string (a ∷ b ∷ c ∷ p) =
    url_char (a / 4)
    ∷ url_char (a % 4 * 16 + b / 16)
    ∷ url_char (b % 16 * 4 + c / 64)
    ∷ url_char (c % 64)
    ∷ encode_to_string p

-- `s[:n]`
unfoldable pub slice_to : ℕ → Bytes → Outcome Error Bytes
slice_to n s = if leb n (length s) then ok (take n s) else panic

-- `make([]byte, (n+3)/4*3)`
abbrev pub scratch_size : ℕ → ℕ
scratch_size n = (n + 3) / 4 * 3

unfoldable pub random_string : (ℕ → Option Bytes) → ℕ → Outcome Error Bytes
unfolding slice_to encode_to_string
random_string read n = elim (read (scratch_size n)) [
  | none ↦ panic
  | some scratch ↦ slice_to n (encode_to_string scratch)
]

-- A letter, a digit, a hyphen or an underscore.
abbrev pub IsUrlSafe : ℕ → Type 0
IsUrlSafe c =
    (leb b'A' c && leb c b'Z'
      || leb b'a' c && leb c b'z'
      || leb b'0' c && leb c b'9'
      || c == b'-'
      || c == b'_')
    ≡ true

url_char-IsUrlSafe : (i : ℕ) → IsUrlSafe (url_char i)
unfolding url_char
url_char-IsUrlSafe i = ground arith

-- Groups of three bytes, without padding.
encode-triples :
    (m : ℕ) (p : Bytes)
    → length p ≡ m * 3
    → (length (encode_to_string p) ≡ m * 4) × All IsUrlSafe (encode_to_string p)
unfolding encode_to_string
encode-triples m [] h = (omega (arith, h), tt)
encode-triples m (a ∷ []) h = absurd (omega (arith, h))
encode-triples m (a ∷ b ∷ []) h = absurd (omega (arith, h))
encode-triples zero (a ∷ b ∷ c ∷ p) h = absurd (omega (arith, h))
encode-triples (suc m) (a ∷ b ∷ c ∷ p) h =
    let (l, safe) = encode-triples m p (omega (arith, h)) in
    (
      omega (arith, l),
      (
        url_char-IsUrlSafe (a / 4),
        (
          url_char-IsUrlSafe (a % 4 * 16 + b / 16),
          (url_char-IsUrlSafe (b % 16 * 4 + c / 64), (url_char-IsUrlSafe (c % 64), safe)),
        ),
      ),
    )

length-take : (n : ℕ) (s : Bytes) → n ≤ length s → length (take n s) ≡ n
length-take zero s h = refl
length-take (suc n) [] h = absurd (omega arith)
length-take (suc n) (c ∷ s) h = omega (arith, length-take n s (omega arith))

All-take : (P : ℕ → Type 0) (n : ℕ) (s : Bytes) → All P s → All P (take n s)
All-take P zero s h = tt
All-take P (suc n) [] h = tt
All-take P (suc n) (c ∷ s) (h, hs) = (h, All-take P n s hs)

-- Where crypto/rand fills the buffer, randomString does not panic: it returns a string of the length that
-- was asked for, of letters, digits, hyphens and underscores.
pub random_string-IsUrlSafe :
    (read : ℕ → Option Bytes) (n : ℕ) (scratch : Bytes)
    → read (scratch_size n) ≡ some scratch
    → length scratch ≡ scratch_size n
    → (s : Bytes) × (random_string read n ≡ ok s) × (length s ≡ n) × All IsUrlSafe s
unfolding random_string slice_to
random_string-IsUrlSafe read n scratch got full =
    let (l, safe) = encode-triples ((n + 3) / 4) scratch full in
    let s = encode_to_string scratch in
    let fits : leb n (length s) ≡ true = ground (arith, l) in
    (
      take n s,
      rw (got, fits, random_string),
      length-take n s (omega (arith, l)),
      All-take IsUrlSafe n s safe,
    )
