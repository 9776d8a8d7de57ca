-- ===== src/Strconv/Decimal.antt =====
-- What `Atoi` returns on a text of digits.
use runtopo.Prelude.{
  ℕ, ◌+◌, ◌-◌, ◌*◌, ◌^◌, ◌<◌, ◌≤◌, ◌≡◌, refl, true, false, none, some, [], ◌∷◌, arith, Bytes, All,
}
use runtopo.Prelude.Int.{pos}
use runtopo.Strconv.{is_digit, scan_digits, atoi}

-- The number that the bytes of a text spell behind `n`, read as decimal digits.
abbrev pub decimal : ℕ → Bytes → ℕ
decimal n [] = n
decimal n (c ∷ s) = decimal (10 * n + (c - b'0')) s

scan_decimal_digits :
    (n : ℕ) (s : Bytes)
    → All (λ c. is_digit c ≡ true) s
    → scan_digits false 10 n s ≡ some (decimal n s)
unfolding scan_digits
scan_decimal_digits n [] h = refl
scan_decimal_digits n (c ∷ s) (hc, hs) =
    ground (arith, scan_decimal_digits (n * 10 + (c - b'0')) s hs)

pub atoi-decimal :
    (c : ℕ) (s : Bytes)
    → All (λ c. is_digit c ≡ true) (c ∷ s)
    → decimal 0 (c ∷ s) < 2 ^ 63
    → atoi (c ∷ s) ≡ some (pos (decimal 0 (c ∷ s)))
unfolding atoi
atoi-decimal c s h fits = ground (arith, scan_decimal_digits 0 (c ∷ s) h)

-- Digits that spell more than an `int` holds are refused.
pub atoi-large :
    (c : ℕ) (s : Bytes)
    → All (λ c. is_digit c ≡ true) (c ∷ s)
    → 2 ^ 63 ≤ decimal 0 (c ∷ s)
    → atoi (c ∷ s) ≡ none
unfolding atoi
atoi-large c s h large = ground (arith, scan_decimal_digits 0 (c ∷ s) h)
