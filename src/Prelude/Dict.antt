-- ===== src/Prelude/Dict.antt =====
-- Go's `map[string]V` as an association list. The order of its entries means nothing: where the
-- program ranges over a map, the order of the visit is an argument of the model.
use runtopo.Prelude.Tests.{if◌then◌else◌}
use runtopo.Prelude.Text.{Bytes, str_eq, str_eq_iff, str_eq_refl}
use mathlib.Core.Path.{◌≡◌, refl}
use mathlib.Core.Logic.{◌≢◌}
use mathlib.Core.Option.{Option, none, some}
use mathlib.Core.List.{List, [], ◌∷◌}
use native.Mathlib.Omega.{arith}

abbrev pub Dict {ℓ} : Type ℓ → Type ℓ
Dict V = List (Bytes × V)

module _ {ℓ} {V : Type ℓ} where
  unfoldable pub lookup : Bytes → Dict V → Option V
  lookup k [] = none
  lookup k ((j, v) ∷ m) = if str_eq j k then some v else lookup k m

  -- `m[k] = v`
  unfoldable pub insert : Bytes → V → Dict V → Dict V
  insert k v [] = (k, v) ∷ []
  insert k v ((j, w) ∷ m) = if str_eq j k then (k, v) ∷ m else (j, w) ∷ insert k v m

  pub lookup-insert :
      (k j : Bytes) (v : V) (m : Dict V)
      → lookup j (insert k v m) ≡ (if str_eq k j then some v else lookup j m)
  unfolding lookup insert
  lookup-insert k j v [] = refl
  lookup-insert k j v ((i, w) ∷ m) =
      ground (arith, str_eq_iff k j, str_eq_iff i k, str_eq_iff i j, lookup-insert k j v m)

  pub lookup-insert_own : (k : Bytes) (v : V) (m : Dict V) → lookup k (insert k v m) ≡ some v
  lookup-insert_own k v m = rw (lookup-insert, str_eq_refl k)

  pub lookup-insert_other :
      (k j : Bytes) (v : V) (m : Dict V) → j ≢ k → lookup j (insert k v m) ≡ lookup j m
  lookup-insert_other k j v m h = ground (arith, lookup-insert k j v m, str_eq_iff k j)

  -- A write of what is there changes no lookup.
  pub lookup-insert_same :
      (k j : Bytes) (v : V) (m : Dict V)
      → lookup k m ≡ some v
      → lookup j (insert k v m) ≡ lookup j m
  lookup-insert_same k j v m h = ground (arith, lookup-insert k j v m, str_eq_iff k j)

  pub lookup-nil : (k : Bytes) → lookup k [] ≡ none
  unfolding lookup
  lookup-nil k = refl

-- `m[k]` on a `map[string]string`: the empty string for a key that is not there.
unfoldable pub attr : Dict Bytes → Bytes → Bytes
attr m k = elim (lookup k m) [ none ↦ [] | some v ↦ v ]
