-- ===== src/Prelude/Utf8/Ascii.antt =====
-- ASCII bytes are their own runes, and every other byte begins a rune that is not ASCII. So a test
-- that accepts ASCII only has the same answer on the runes and on the bytes.
use Prim.Native.Nat.{ℕ, zero, suc, ◌≤◌}
use mathlib.Core.Path.{◌≡◌, refl}
use mathlib.Core.Logic.{inl, inr}
use mathlib.Core.Bool.{Bool, true, false, ◌&&◌}
use mathlib.Core.List.{List, [], ◌∷◌}
use native.Mathlib.Omega.{arith}
use runtopo.Prelude.Tests.{leb, Bool-cases}
use runtopo.Prelude.Lists.{length, drop}
use runtopo.Prelude.Text.{Bytes}
use runtopo.Prelude.Utf8.{decode_rune, runes_loop, runes, try_two, try_three, try_four}

-- `for _, c := range s { if !p(c) { return false } }`
unfoldable pub each : (ℕ → Bool) → List ℕ → Bool
each p [] = true
each p (c ∷ s) = p c && each p s

decode_rune_ascii : (a : ℕ) (s : Bytes) → leb a 0x7F ≡ true → decode_rune a s ≡ (a, 1)
unfolding decode_rune
decode_rune_ascii a s h = ground arith

try_two_high : (a : ℕ) (s : Bytes) → 0xC2 ≤ a → a ≤ 0xDF → 0x80 ≤ (try_two a s).0
unfolding try_two
try_two_high a [] h k = omega arith
try_two_high a (b ∷ s) h k = ground arith

try_three_high : (a : ℕ) (s : Bytes) → 0xE0 ≤ a → a ≤ 0xEF → 0x80 ≤ (try_three a s).0
unfolding try_three
try_three_high a [] h k = omega arith
try_three_high a (b ∷ []) h k = omega arith
try_three_high a (b ∷ c ∷ s) h k = ground arith

try_four_high : (a : ℕ) (s : Bytes) → 0xF0 ≤ a → a ≤ 0xF4 → 0x80 ≤ (try_four a s).0
unfolding try_four
try_four_high a [] h k = omega arith
try_four_high a (b ∷ []) h k = omega arith
try_four_high a (b ∷ c ∷ []) h k = omega arith
try_four_high a (b ∷ c ∷ d ∷ s) h k = ground arith

decode_rune_high : (a : ℕ) (s : Bytes) → leb a 0x7F ≡ false → 0x80 ≤ (decode_rune a s).0
unfolding decode_rune
decode_rune_high a s h = ground (arith, try_two_high a s, try_three_high a s, try_four_high a s)

runes_loop_step :
    (n a : ℕ) (s : Bytes)
    → runes_loop (suc n) (a ∷ s)
      ≡ (decode_rune a s).0 ∷ runes_loop n (drop (decode_rune a s).1 (a ∷ s))
unfolding runes_loop
runes_loop_step n a s = refl

runes_loop-nil : (n : ℕ) → runes_loop n [] ≡ []
unfolding runes_loop
runes_loop-nil zero = refl
runes_loop-nil (suc n) = refl

module _ (p : ℕ → Bool) (ascii : (r : ℕ) → 0x80 ≤ r → p r ≡ false) where
  each-runes_loop : (n : ℕ) (s : Bytes) → length s ≤ n → each p (runes_loop n s) ≡ each p s
  unfolding each
  each-runes_loop n [] h = rw runes_loop-nil
  each-runes_loop zero (a ∷ s) h = absurd (omega arith)
  each-runes_loop (suc n) (a ∷ s) h = elim (Bool-cases (leb a 0x7F)) [
    | inl low ↦
        rw (runes_loop_step n a s, decode_rune_ascii a s low, each-runes_loop n s (omega arith))
    | inr high ↦
        rw (runes_loop_step n a s, ascii _ (decode_rune_high a s high), ascii a (ground arith))
  ]

  pub each-runes : (s : Bytes) → each p (runes s) ≡ each p s
  unfolding runes
  each-runes s = each-runes_loop (length s) s (omega arith)
