-- ===== src/Libvirt/NatCompare.antt =====
-- `natCompare` of runner/libvirt/helper.go, with the functions that it calls. Its loop takes fuel;
-- each round shortens both texts, so the length of the first one is enough.
pub mod Runs
pub mod Order
pub mod Laws
pub mod Panic
pub mod Fuel
use runtopo.Prelude.{
  ℕ, zero, suc, Bool, ◌&&◌, none, some, [], ◌∷◌, Bytes, Outcome, ok, panic, ◌>>=◌, length, drop,
  if◌then◌else◌,
}
use runtopo.Prelude.Int.{ℤ, pos, negsuc, sub_ℕ, ltb_ℤ}
use runtopo.Errors.{Error}
use runtopo.Strconv.{is_digit, atoi, strings_compare}

-- The first loop of `nextChunk`: the digits that follow a digit.
unfoldable pub digit_run : Bytes → Bytes
unfolding is_digit
digit_run [] = []
digit_run (c ∷ s) = if is_digit c then c ∷ digit_run s else []

-- The second loop of `nextChunk`: what follows a byte that is no digit, up to the next digit.
unfoldable pub other_run : Bytes → Bytes
unfolding is_digit
other_run [] = []
other_run (c ∷ s) = if is_digit c then [] else c ∷ other_run s

-- `nextChunk` of the text `c ∷ s`; the callers never hand it the empty text.
unfoldable pub next_chunk : ℕ → Bytes → Bytes
next_chunk c s = c ∷ (if is_digit c then digit_run s else other_run s)

unfoldable pub must_atoi : Bytes → Outcome Error ℤ
must_atoi s = elim (atoi s) [ none ↦ panic | some i ↦ ok i ]

is_zero : ℤ → Bool
is_zero (pos zero) = Bool.true
is_zero _ = Bool.false

-- The comparison of two chunks as texts; a tie goes on with the rest.
unfoldable pub by_text : Bytes → Bytes → Outcome Error ℤ → Outcome Error ℤ
unfolding is_zero
by_text cs ct rest = let cmp = strings_compare cs ct in if is_zero cmp then rest else ok cmp

-- The comparison of two chunks of digits by their values; a tie goes on with the texts.
unfoldable pub by_value : Bytes → Bytes → Outcome Error ℤ → Outcome Error ℤ
by_value cs ct rest = do
  i ← must_atoi cs
  j ← must_atoi ct
  if ltb_ℤ j i then ok (pos 1) else if ltb_ℤ i j then ok (negsuc 0) else by_text cs ct rest

-- `out` is the result where the fuel is used up.
unfoldable pub nat_compare_loop : Outcome Error ℤ → ℕ → Bytes → Bytes → Outcome Error ℤ
unfolding next_chunk
nat_compare_loop out fuel [] t = ok (sub_ℕ 0 (length t))
nat_compare_loop out fuel (c ∷ s) [] = ok (sub_ℕ (length (c ∷ s)) 0)
nat_compare_loop out zero (c ∷ s) (d ∷ t) = out
nat_compare_loop out (suc fuel) (c ∷ s) (d ∷ t) =
    let cs = next_chunk c s in
    let ct = next_chunk d t in
    let rest = nat_compare_loop out fuel (drop (length cs) (c ∷ s)) (drop (length ct) (d ∷ t)) in
    if is_digit c && is_digit d then by_value cs ct rest else by_text cs ct rest

-- With this fuel, it does not matter what stands for its end.
unfoldable pub nat_compare : Bytes → Bytes → Outcome Error ℤ
unfolding nat_compare_loop
nat_compare s t = nat_compare_loop panic (length s) s t
