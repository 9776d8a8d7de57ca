-- ===== src/Libvirt/NatCompare/Order.antt =====
-- `natCompare` and the order of texts by their maximal runs of digits and of other bytes.
use Prim.Native.Nat.{compare, Ordering}
use runtopo.Prelude.{
  ℕ, zero, suc, ◌<◌, ◌≤◌, ◌^◌, ◌≡◌, refl, ◌∙◌, true, false, [], ◌∷◌, arith, Bytes, length, drop,
  if◌then◌else◌, All, ap, Outcome, panic, ok, ◌&&◌, Bool-cases, inl, inr, length-drop_le,
}
use runtopo.Prelude.Int.{ℤ, pos, negsuc}
use runtopo.Prelude.Order.{
  lex, pair_cmp, ◌then_by◌, IsTotalOrder, lex-IsTotalOrder, pair-IsTotalOrder, compare-IsTotalOrder,
  pulled_back-IsTotalOrder,
}
use runtopo.Errors.{Error}
use runtopo.Strconv.{is_digit, strings_compare}
use runtopo.Strconv.Decimal.{decimal, atoi-decimal}
use runtopo.Libvirt.NatCompare.{must_atoi, by_value, by_text, nat_compare_loop, nat_compare}
use runtopo.Libvirt.NatCompare.Runs.{
  Chunk, runs-injective, Digits, follow, runs, runs_empty, runs_step, digit_run-Digits,
}

-- The order that the sign of a comparison's result stands for.
abbrev pub sign : ℤ → Ordering
sign (pos zero) = Ordering.eq
sign (pos (suc n)) = Ordering.gt
sign (negsuc n) = Ordering.lt

-- Digits count by their value, and stand together where the digits stand among the bytes; other
-- chunks, and chunks of one value, count as texts.
abbrev pub key : Chunk → ℕ × (ℕ × Bytes)
key (c, r) = if is_digit c then (b'0', (decimal 0 (c ∷ r), c ∷ r)) else (c, (0, c ∷ r))

abbrev pub chunk_cmp : Chunk → Chunk → Ordering
chunk_cmp a b = pair_cmp compare (pair_cmp compare (lex compare)) (key a) (key b)

-- The order of `natCompare`, with no loop and no panic.
abbrev pub natural_order : Bytes → Bytes → Ordering
natural_order s t = lex chunk_cmp (runs s) (runs t)

-- The number that a chunk of digits spells fits an `int`.
abbrev pub Fits : Chunk → Type 0
Fits (c, r) = is_digit c ≡ true → decimal 0 (c ∷ r) < 2 ^ 63

strings_compare-sign : (s t : Bytes) → sign (strings_compare s t) ≡ lex compare s t
unfolding strings_compare
strings_compare-sign [] [] = refl
strings_compare-sign [] (d ∷ t) = refl
strings_compare-sign (c ∷ s) [] = refl
strings_compare-sign (c ∷ s) (d ∷ t) = ground (arith, strings_compare-sign s t)

by_text-sign :
    (cs ct : Bytes) (r : ℤ)
    → (q : ℤ) × (by_text cs ct (ok r) ≡ ok q) × (sign q ≡ lex compare cs ct then_by sign r)
unfolding by_text
by_text-sign cs ct r = go (strings_compare cs ct) refl
  where
    go :
        (k : ℤ)
        → strings_compare cs ct ≡ k
        → (q : ℤ) × (by_text cs ct (ok r) ≡ ok q) × (sign q ≡ lex compare cs ct then_by sign r)
    go (pos zero) e = (r, rw (e, by_text), rw (← strings_compare-sign cs ct, e))
    go (pos (suc n)) e = (pos (suc n), rw (e, by_text), rw (← strings_compare-sign cs ct, e))
    go (negsuc n) e = (negsuc n, rw (e, by_text), rw (← strings_compare-sign cs ct, e))

must_atoi-decimal :
    (c : ℕ) (s : Bytes)
    → Digits (c ∷ s)
    → decimal 0 (c ∷ s) < 2 ^ 63
    → must_atoi (c ∷ s) ≡ ok (pos (decimal 0 (c ∷ s)))
unfolding must_atoi
must_atoi-decimal c s h fits = rw (atoi-decimal c s h fits, must_atoi)

by_value_values :
    (cs ct : Bytes) (i j : ℕ) (rest : Outcome Error ℤ)
    → must_atoi cs ≡ ok (pos i)
    → must_atoi ct ≡ ok (pos j)
    → by_value cs ct rest ≡ elim (compare i j) [
      | Ordering.lt ↦ ok (negsuc 0)
      | Ordering.eq ↦ by_text cs ct rest
      | Ordering.gt ↦ ok (pos 1)
    ]
unfolding by_value
by_value_values cs ct i j rest e f = rw (e, f) (ground arith)

by_value-sign :
    (cs ct : Bytes) (i j : ℕ) (r : ℤ)
    → must_atoi cs ≡ ok (pos i)
    → must_atoi ct ≡ ok (pos j)
    → (q : ℤ) × (by_value cs ct (ok r) ≡ ok q)
      × (sign q ≡ (compare i j then_by lex compare cs ct) then_by sign r)
by_value-sign cs ct i j r e f = go (compare i j) refl
  where
    go :
        (o : Ordering)
        → compare i j ≡ o
        → (q : ℤ) × (by_value cs ct (ok r) ≡ ok q)
          × (sign q ≡ (compare i j then_by lex compare cs ct) then_by sign r)
    go Ordering.lt h = (negsuc 0, rw (by_value_values cs ct i j (ok r) e f, h), rw h)
    go Ordering.eq h =
        let (q, a, b) = by_text-sign cs ct r in
        (q, rw (by_value_values cs ct i j (ok r) e f, h) a, rw h b)
    go Ordering.gt h = (pos 1, rw (by_value_values cs ct i j (ok r) e f, h), rw h)

mixed_cmp :
    (c d : ℕ) (u v : Bytes)
    → (is_digit c && is_digit d) ≡ false
    → chunk_cmp (c, u) (d, v) ≡ lex compare (c ∷ u) (d ∷ v)
unfolding is_digit
mixed_cmp c d u v h = ground arith

key-injective : (a b : Chunk) → key a ≡ key b → a ≡ b
key-injective (c, r) (d, q) h = ground arith

chunk_cmp-IsTotalOrder : IsTotalOrder chunk_cmp
chunk_cmp-IsTotalOrder = pulled_back-IsTotalOrder key key-injective (
    pair-IsTotalOrder compare (pair_cmp compare (lex compare)) compare-IsTotalOrder (
      pair-IsTotalOrder compare (lex compare) compare-IsTotalOrder
        (lex-IsTotalOrder compare compare-IsTotalOrder)))

-- The natural order is total on all texts.
pub natural_order-IsTotalOrder : IsTotalOrder natural_order
natural_order-IsTotalOrder =
    pulled_back-IsTotalOrder runs runs-injective (lex-IsTotalOrder chunk_cmp chunk_cmp-IsTotalOrder)

round : Chunk → Chunk → Outcome Error ℤ → Outcome Error ℤ
round (c, u) (d, v) rest =
    if is_digit c && is_digit d then by_value (c ∷ u) (d ∷ v) rest else by_text (c ∷ u) (d ∷ v) rest

-- A round of the loop: a difference of the chunks decides, a tie leaves it to the rest.
round-sign :
    (c d : ℕ) (u v : Bytes) (r : ℤ)
    → (is_digit c ≡ true → Digits u)
    → (is_digit d ≡ true → Digits v)
    → Fits (c, u)
    → Fits (d, v)
    → (q : ℤ) × (round (c, u) (d, v) (ok r) ≡ ok q)
      × (sign q ≡ chunk_cmp (c, u) (d, v) then_by sign r)
unfolding round
round-sign c d u v r hu hv f g = elim (Bool-cases (is_digit c)) [
  | inl hc ↦ elim (Bool-cases (is_digit d)) [
    | inl hd ↦
        rw (hc, hd)
          (by_value-sign (c ∷ u) (d ∷ v) (decimal 0 (c ∷ u)) (decimal 0 (d ∷ v)) r
            (must_atoi-decimal c u (hc, hu hc) (f hc)) (must_atoi-decimal d v (hd, hv hd) (g hd)))
    | inr hd ↦ texts (rw (hc, hd))
  ]
  | inr hc ↦ texts (rw hc)
]
  where
    texts :
        (is_digit c && is_digit d) ≡ false
        → (q : ℤ) × (round (c, u) (d, v) (ok r) ≡ ok q)
          × (sign q ≡ chunk_cmp (c, u) (d, v) then_by sign r)
    texts h =
        let (q, a, b) = by_text-sign (c ∷ u) (d ∷ v) r in (q, rw h a, rw (mixed_cmp c d u v h) b)

loop_step :
    (n c d : ℕ) (s t : Bytes)
    → nat_compare_loop panic (suc n) (c ∷ s) (d ∷ t)
      ≡ round
          (c, follow c s)
          (d, follow d t)
          (nat_compare_loop panic n (drop (length (follow c s)) s) (drop (length (follow d t)) t))
unfolding round nat_compare_loop
loop_step n c d s t = refl

follow-Digits : (c : ℕ) (s : Bytes) → is_digit c ≡ true → Digits (follow c s)
follow-Digits c s h = rw h (digit_run-Digits s)

loop_sign :
    (n : ℕ) (s t : Bytes)
    → length s ≤ n
    → All Fits (runs s)
    → All Fits (runs t)
    → (q : ℤ) × (nat_compare_loop panic n s t ≡ ok q) × (sign q ≡ natural_order s t)
unfolding nat_compare_loop
loop_sign n [] [] h f g = (pos 0, refl, rw runs_empty)
loop_sign n [] (d ∷ t) h f g = (negsuc (length t), ground arith, rw (runs_empty, runs_step))
loop_sign n (c ∷ s) [] h f g = (pos (suc (length s)), ground arith, rw (runs_empty, runs_step))
loop_sign zero (c ∷ s) (d ∷ t) h f g = absurd (omega arith)
loop_sign (suc n) (c ∷ s) (d ∷ t) h f g =
    let s' = drop (length (follow c s)) s in
    let t' = drop (length (follow d t)) t in
    let f' : Fits (c, follow c s) × All Fits (runs s') = rw runs_step at f in
    let g' : Fits (d, follow d t) × All Fits (runs t') = rw runs_step at g in
    let (r, e, o) =
      loop_sign n s' t' (omega (arith, length-drop_le (length (follow c s)) s)) f'.1 g'.1 in
    let (q, e', o') =
      round-sign c d (follow c s) (follow d t) r (follow-Digits c s) (follow-Digits d t) f'.0
        g'.0 in
    (
      q,
      loop_step n c d s t ∙ rw e e',
      rw (runs_step c s, runs_step d t)
          (o' ∙ ap (λ k. chunk_cmp (c, follow c s) (d, follow d t) then_by k) o),
    )

-- Every run of digits in the text spells a number that fits an `int`.
abbrev pub IsSortable : Bytes → Type 0
IsSortable s = All Fits (runs s)

-- On texts whose numbers fit an `int`, `natCompare` does not panic, and the sign of its result is
-- the natural order: the lexicographic order of the maximal runs of digits and of other bytes, where
-- two runs of digits count by value and then as texts.
pub nat_compare-sign :
    (s t : Bytes)
    → IsSortable s
    → IsSortable t
    → (q : ℤ) × (nat_compare s t ≡ ok q) × (sign q ≡ natural_order s t)
unfolding nat_compare
nat_compare-sign s t f g = loop_sign (length s) s t (omega arith) f g

-- `natCompare(s, t) < 0`, the test of the sort.
abbrev pub Before : Bytes → Bytes → Type 0
Before s t = (q : ℤ) × (nat_compare s t ≡ ok q) × (sign q ≡ Ordering.lt)
