-- ===== src/Prelude/Order.antt =====
-- Comparison functions into `Ordering`: what makes one a total order, and how such orders are put
-- together: pulled back along an injection, in pairs, and lexicographically on lists.
use Prim.Native.Nat.{compare, Ordering}
use mathlib.Core.Path.{◌≡◌, refl}
use mathlib.Core.List.{List, [], ◌∷◌}
use native.Mathlib.Omega.{arith}

-- The comparison with its sides exchanged.
abbrev pub flip : Ordering → Ordering
flip Ordering.lt = Ordering.gt
flip Ordering.eq = Ordering.eq
flip Ordering.gt = Ordering.lt

-- The first comparison that is not a tie decides.
infixr 40 ◌then_by◌
abbrev pub ◌then_by◌ : Ordering → Ordering → Ordering
Ordering.lt then_by o = Ordering.lt
Ordering.eq then_by o = o
Ordering.gt then_by o = Ordering.gt

-- A total order: ties are equal values, the two directions agree, and `lt` is transitive.
pub record IsTotalOrder {ℓ} {A : Type ℓ} (cmp : A → A → Ordering) : Type ℓ where
  pub tie : (a b : A) → cmp a b ≡ Ordering.eq → a ≡ b
  pub swap : (a b : A) → cmp b a ≡ flip (cmp a b)
  pub trans : (a b c : A) → cmp a b ≡ Ordering.lt → cmp b c ≡ Ordering.lt → cmp a c ≡ Ordering.lt

module _ {ℓ} {A : Type ℓ} {cmp : A → A → Ordering} (O : IsTotalOrder cmp) where
  self_flip : (o : Ordering) → o ≡ flip o → o ≡ Ordering.eq
  self_flip Ordering.lt h = cc
  self_flip Ordering.eq h = refl
  self_flip Ordering.gt h = cc

  pub cmp_self : (a : A) → cmp a a ≡ Ordering.eq
  cmp_self a = self_flip (cmp a a) (O.swap a a)

  -- Transitivity through a tie-break.
  then_by_trans :
      (a b c : A) (o p q : Ordering)
      → (o ≡ Ordering.lt → p ≡ Ordering.lt → q ≡ Ordering.lt)
      → cmp a b then_by o ≡ Ordering.lt
      → cmp b c then_by p ≡ Ordering.lt
      → cmp a c then_by q ≡ Ordering.lt
  then_by_trans a b c o p q later h k = go (cmp a b) (cmp b c) refl refl h k
    where
      go :
          (x y : Ordering)
          → cmp a b ≡ x
          → cmp b c ≡ y
          → x then_by o ≡ Ordering.lt
          → y then_by p ≡ Ordering.lt
          → cmp a c then_by q ≡ Ordering.lt
      go Ordering.lt Ordering.lt e f h k = rw (O.trans a b c e f)
      go Ordering.lt Ordering.eq e f h k = rw (← O.tie b c f, e)
      go Ordering.lt Ordering.gt e f h k = cc
      go Ordering.eq Ordering.lt e f h k = rw (O.tie a b e, f)
      go Ordering.eq Ordering.eq e f h k = rw (O.tie a b e, f) (later h k)
      go Ordering.eq Ordering.gt e f h k = cc
      go Ordering.gt y e f h k = cc

pub compare-IsTotalOrder : IsTotalOrder compare
compare-IsTotalOrder = record {
  tie = λ a b h. ground arith;
  swap = λ a b. ground arith;
  trans = λ a b c h k. ground arith;
}

-- The order that a total order gives along an injection.
pub pulled_back-IsTotalOrder {ℓ κ} :
    {A : Type ℓ} {B : Type κ} {cmp : B → B → Ordering} (f : A → B)
    → ((a b : A) → f a ≡ f b → a ≡ b)
    → IsTotalOrder cmp
    → IsTotalOrder (λ a b. cmp (f a) (f b))
pulled_back-IsTotalOrder f inj O = record {
  tie = λ a b h. inj a b (O.tie (f a) (f b) h);
  swap = λ a b. O.swap (f a) (f b);
  trans = λ a b c h k. O.trans (f a) (f b) (f c) h k;
}

module _ {ℓ κ} {A : Type ℓ} {B : Type κ} (cmp : A → A → Ordering) (cmp' : B → B → Ordering) where
  abbrev pub pair_cmp : A × B → A × B → Ordering
  pair_cmp (a, b) (c, d) = cmp a c then_by cmp' b d

  pub pair-IsTotalOrder : IsTotalOrder cmp → IsTotalOrder cmp' → IsTotalOrder pair_cmp
  pair-IsTotalOrder O P = record {
    tie = λ (a, b) (c, d) h. ground (arith, O.tie a c, P.tie b d);
    swap = λ (a, b) (c, d). ground (arith, O.swap a c, P.swap b d);
    trans = λ (a, b) (c, d) (e, f) h k.
        then_by_trans O a c e (cmp' b d) (cmp' d f) (cmp' b f) (P.trans b d f) h k;
  }

module _ {ℓ} {A : Type ℓ} (cmp : A → A → Ordering) where
  abbrev pub lex : List A → List A → Ordering
  lex [] [] = Ordering.eq
  lex [] (b ∷ bs) = Ordering.lt
  lex (a ∷ as') [] = Ordering.gt
  lex (a ∷ as') (b ∷ bs) = cmp a b then_by lex as' bs

  lex_tie : IsTotalOrder cmp → (xs ys : List A) → lex xs ys ≡ Ordering.eq → xs ≡ ys
  lex_tie O [] [] h = refl
  lex_tie O [] (b ∷ bs) h = cc
  lex_tie O (a ∷ xs) [] h = cc
  lex_tie O (a ∷ xs) (b ∷ ys) h = ground (arith, O.tie a b, lex_tie O xs ys)

  lex_swap : IsTotalOrder cmp → (xs ys : List A) → lex ys xs ≡ flip (lex xs ys)
  lex_swap O [] [] = refl
  lex_swap O [] (b ∷ bs) = refl
  lex_swap O (a ∷ xs) [] = refl
  lex_swap O (a ∷ xs) (b ∷ ys) = ground (arith, O.swap a b, lex_swap O xs ys)

  lex_trans :
      IsTotalOrder cmp
      → (xs ys zs : List A) → lex xs ys ≡ Ordering.lt
      → lex ys zs ≡ Ordering.lt
      → lex xs zs ≡ Ordering.lt
  lex_trans O [] [] zs h k = cc
  lex_trans O [] (b ∷ ys) [] h k = cc
  lex_trans O [] (b ∷ ys) (c ∷ zs) h k = refl
  lex_trans O (a ∷ xs) [] zs h k = cc
  lex_trans O (a ∷ xs) (b ∷ ys) [] h k = cc
  lex_trans O (a ∷ xs) (b ∷ ys) (c ∷ zs) h k =
      then_by_trans O a b c (lex xs ys) (lex ys zs) (lex xs zs) (lex_trans O xs ys zs) h k

  pub lex-IsTotalOrder : IsTotalOrder cmp → IsTotalOrder lex
  lex-IsTotalOrder O = record { tie = lex_tie O; swap = lex_swap O; trans = lex_trans O }
