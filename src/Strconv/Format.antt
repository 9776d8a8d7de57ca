-- ===== src/Strconv/Format.antt =====
-- The verb %d on a number that is not negative, and `strconv.Itoa`.
use runtopo.Prelude.{
  ℕ, zero, suc, ◌+◌, ◌/◌, ◌%◌, ◌<◌, ◌≡◌, [], ◌∷◌, sym, ◌∙◌, ap, arith, Bytes, ltb, if◌then◌else◌,
  Bool-cases, inl, inr,
}
use runtopo.Strconv.Decimal.{decimal}

-- The fuel bounds the number of digits.
format_loop : ℕ → ℕ → Bytes → Bytes
format_loop zero n out = out
format_loop (suc fuel) n out =
    let rest = format_loop fuel (n / 10) ((b'0' + n % 10) ∷ out) in
    if ltb n 10 then (b'0' + n) ∷ out else rest

unfoldable pub format_decimal : ℕ → Bytes
unfolding format_loop
format_decimal n = format_loop (suc n) n []

format_loop-decimal :
    (fuel n : ℕ) (out : Bytes) → n < fuel → decimal 0 (format_loop fuel n out) ≡ decimal n out
unfolding format_loop
format_loop-decimal zero n out h = absurd (omega arith)
format_loop-decimal (suc fuel) n out h = elim (Bool-cases (ltb n 10)) [
  | inl low ↦ rw low (ap (λ k. decimal k out) (omega arith))
  | inr high ↦ rw high (
      format_loop-decimal fuel (n / 10) ((b'0' + n % 10) ∷ out) (ground arith)
      ∙ ap (λ k. decimal k out) (omega arith))
]

-- The digits spell the number.
pub decimal-format_decimal : (n : ℕ) → decimal 0 (format_decimal n) ≡ n
unfolding format_decimal
decimal-format_decimal n = format_loop-decimal (suc n) n [] (omega arith)

pub format_decimal-injective : (m n : ℕ) → format_decimal m ≡ format_decimal n → m ≡ n
format_decimal-injective m n h =
    sym (decimal-format_decimal m) ∙ ap (decimal 0) h ∙ decimal-format_decimal n
