-- ===== src/Libvirt/NatCompare/Fuel.antt =====
-- The loop of `natCompare` in runner/libvirt/helper.go ends.
use runtopo.Prelude.{
  ℕ, zero, suc, ◌≤◌, ◌≡◌, refl, ap, [], ◌∷◌, ◌&&◌, Bytes, Outcome, panic, length, drop,
  length-drop_le, if◌then◌else◌, arith,
}
use runtopo.Prelude.Int.{ℤ}
use runtopo.Errors.{Error}
use runtopo.Strconv.{is_digit}
use runtopo.Libvirt.NatCompare.{
  digit_run, other_run, next_chunk, by_text, by_value, nat_compare_loop, nat_compare,
}

-- A chunk takes the first byte at least.
length-drop_chunk : (c : ℕ) (s : Bytes) → length (drop (length (next_chunk c s)) (c ∷ s)) ≤ length s
unfolding next_chunk
length-drop_chunk c s = length-drop_le (length (if is_digit c then digit_run s else other_run s)) s

-- With enough fuel, what stands for its end is not reached.
any_two :
    (o p : Outcome Error ℤ) (f g : ℕ) (s t : Bytes)
    → length s ≤ f
    → length s ≤ g
    → nat_compare_loop o f s t ≡ nat_compare_loop p g s t
unfolding nat_compare_loop
any_two o p f g [] t h k = refl
any_two o p f g (c ∷ s) [] h k = refl
any_two o p zero g (c ∷ s) (d ∷ t) h k = absurd (omega arith)
any_two o p (suc f) zero (c ∷ s) (d ∷ t) h k = absurd (omega arith)
any_two o p (suc f) (suc g) (c ∷ s) (d ∷ t) h k =
    let cs = next_chunk c s in
    let ct = next_chunk d t in
    let shorter = length-drop_chunk c s in
    ap {A = Outcome Error ℤ} {B = Outcome Error ℤ}
      (λ rest. if is_digit c && is_digit d then by_value cs ct rest else by_text cs ct rest)
      (any_two o p f g (drop (length cs) (c ∷ s)) (drop (length ct) (d ∷ t)) (omega arith)
        (omega arith))

-- The loop of natCompare ends after no more rounds than the first text has bytes: with any fuel from that
-- number on, the fuel is never used up, since the result is natCompare's whatever result `out` would stand
-- for the end of the fuel.
pub nat_compare_loop-enough :
    (out : Outcome Error ℤ) (fuel : ℕ) (s t : Bytes)
    → length s ≤ fuel
    → nat_compare_loop out fuel s t ≡ nat_compare s t
unfolding nat_compare
nat_compare_loop-enough out fuel s t h = any_two out panic fuel (length s) s t h (omega arith)
