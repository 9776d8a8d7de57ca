-- ===== src/Libvirt/NatCompare/Panic.antt =====
-- Texts on which `natCompare` panics.
use runtopo.Prelude.{ℕ, ◌^◌, ◌≤◌, ◌≡◌, refl, true, [], ◌∷◌, arith, All, Bytes, Outcome, panic}
use runtopo.Prelude.Int.{ℤ}
use runtopo.Errors.{Error}
use runtopo.Strconv.{is_digit}
use runtopo.Strconv.Decimal.{decimal, atoi-large}
use runtopo.Libvirt.NatCompare.{
  digit_run, next_chunk, must_atoi, by_value, nat_compare_loop, nat_compare,
}

digit_run-All : (s : Bytes) → All (λ c. is_digit c ≡ true) s → digit_run s ≡ s
unfolding digit_run is_digit
digit_run-All [] h = refl
digit_run-All (c ∷ s) (hc, hs) = ground (arith, digit_run-All s hs)

by_value-large :
    (c : ℕ) (s ct : Bytes) (rest : Outcome Error ℤ)
    → All (λ c. is_digit c ≡ true) (c ∷ s)
    → 2 ^ 63 ≤ decimal 0 (c ∷ s)
    → by_value (c ∷ s) ct rest ≡ panic
unfolding by_value must_atoi
by_value-large c s ct rest h large = rw (atoi-large c s h large, must_atoi)

-- A text of digits that spells a number of 2 ^ 63 or more, compared with a text that begins with a
-- digit, makes `natCompare` panic.
pub nat_compare_panics :
    (c d : ℕ) (s t : Bytes)
    → All (λ c. is_digit c ≡ true) (c ∷ s)
    → 2 ^ 63 ≤ decimal 0 (c ∷ s)
    → is_digit d ≡ true
    → nat_compare (c ∷ s) (d ∷ t) ≡ panic
unfolding nat_compare nat_compare_loop next_chunk
nat_compare_panics c d s t (hc, hs) large hd =
    rw (hc, hd, digit_run-All s hs) (by_value-large c s _ _ (hc, hs) large)
