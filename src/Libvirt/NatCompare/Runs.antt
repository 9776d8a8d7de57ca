-- ===== src/Libvirt/NatCompare/Runs.antt =====
-- The chunks that `nextChunk` cuts, and the maximal runs of digits and of other bytes.
use runtopo.Prelude.{
  ℕ, ◌≡◌, refl, sym, ap, ◌∙◌, ◌++◌, Bool, true, false, List, [], ◌∷◌, arith, Bytes, length, drop,
  if◌then◌else◌, All,
}
use runtopo.Strconv.{is_digit}
use runtopo.Libvirt.NatCompare.{digit_run, other_run}

-- A chunk is never empty: its first byte, and those that follow.
abbrev pub Chunk : Type 0
Chunk = ℕ × Bytes

abbrev pub same_class : ℕ → ℕ → Bool
same_class c d = if is_digit c then is_digit d else (if is_digit d then false else true)

-- A byte in front of a text joins the first run, if that is of its class.
unfoldable pub join_run : ℕ → List Chunk → List Chunk
join_run c [] = (c, []) ∷ []
join_run c ((d, r) ∷ cs) = if same_class c d then (c, d ∷ r) ∷ cs else (c, []) ∷ (d, r) ∷ cs

-- The maximal runs of a text.
unfoldable pub runs : Bytes → List Chunk
unfolding join_run
runs [] = []
runs (c ∷ s) = join_run c (runs s)

-- What follows `c` in its chunk.
abbrev pub follow : ℕ → Bytes → Bytes
follow c s = if is_digit c then digit_run s else other_run s

pub runs_empty : runs [] ≡ []
unfolding runs
runs_empty = refl

pub runs_step :
    (c : ℕ) (s : Bytes) → runs (c ∷ s) ≡ (c, follow c s) ∷ runs (drop (length (follow c s)) s)
unfolding runs join_run digit_run other_run
runs_step c [] = ground arith
runs_step c (d ∷ s) = ground (arith, runs_step d s)

-- What `digit_run` takes are digits.
abbrev pub Digits : Bytes → Type 0
Digits = All (λ c. is_digit c ≡ true)

pub digit_run-Digits : (s : Bytes) → Digits (digit_run s)
unfolding digit_run
digit_run-Digits [] = tt
digit_run-Digits (c ∷ s) = ground (arith, digit_run-Digits s)

-- The text that the runs spell.
spell : List Chunk → Bytes
spell [] = []
spell ((c, r) ∷ cs) = c ∷ (r ++ spell cs)

spell-join_run : (c : ℕ) (cs : List Chunk) → spell (join_run c cs) ≡ c ∷ spell cs
unfolding spell join_run
spell-join_run c [] = refl
spell-join_run c ((d, r) ∷ cs) = ground arith

spell-runs : (s : Bytes) → spell (runs s) ≡ s
unfolding runs spell
spell-runs [] = refl
spell-runs (c ∷ s) = spell-join_run c (runs s) ∙ ap (λ t. c ∷ t) (spell-runs s)

pub runs-injective : (s t : Bytes) → runs s ≡ runs t → s ≡ t
runs-injective s t h = sym (spell-runs s) ∙ ap spell h ∙ spell-runs t
