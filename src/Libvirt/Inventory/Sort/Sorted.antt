-- ===== src/Libvirt/Inventory/Sort/Sorted.antt =====
-- The order of the interfaces, and what their sort returns.
use Prim.Native.Nat.{zero, suc, compare, Ordering}
use mathlib.Core.List.Perm
use mathlib.Core.List.{Perm, reverse_perm, reverse, reverse_aux}
use runtopo.Prelude.{
  ◌≡◌, refl, sym, ap, ◌∙◌, ℕ, Bool, true, false, Bytes, List, [], ◌∷◌, arith, All, All-weaken,
  Outcome, ok, if◌then◌else◌, Bool-cases, inl, inr, codes, str_eq_iff,
}
use runtopo.Prelude.Int.{ltb_ℤ, ℤ, pos, negsuc}
use runtopo.Prelude.Order.{
  flip, cmp_self, pair_cmp, IsTotalOrder, pair-IsTotalOrder, compare-IsTotalOrder,
  pulled_back-IsTotalOrder,
}
use runtopo.Errors.{Error}
use runtopo.Libvirt.Device.{Iface}
use runtopo.Libvirt.NatCompare.Order.{
  sign, natural_order, natural_order-IsTotalOrder, IsSortable, nat_compare-sign,
}
use runtopo.Libvirt.Inventory.Sort.{is_eth0, name_less, sink, sort_from, sort_interfaces}

abbrev rank : Bytes → ℕ × Bytes
rank s = (if is_eth0 s then 0 else 1, s)

-- The order of the names: eth0 first, the others in the natural order.
abbrev pub name_order : Bytes → Bytes → Ordering
name_order s t = pair_cmp compare natural_order (rank s) (rank t)

name_order-IsTotalOrder : IsTotalOrder name_order
name_order-IsTotalOrder =
    pulled_back-IsTotalOrder rank (λ s t h. ap (λ (p : ℕ × Bytes). p.1) h)
      (pair-IsTotalOrder compare natural_order compare-IsTotalOrder natural_order-IsTotalOrder)

abbrev is_lt : Ordering → Bool
is_lt Ordering.lt = true
is_lt Ordering.eq = false
is_lt Ordering.gt = false

ltb_zero : (q : ℤ) → ltb_ℤ q (pos 0) ≡ is_lt (sign q)
ltb_zero (pos zero) = ground arith
ltb_zero (pos (suc n)) = ground arith
ltb_zero (negsuc n) = ground arith

name_less-order :
    (s t : Bytes) → IsSortable s → IsSortable t → name_less s t ≡ ok (is_lt (name_order s t))
unfolding name_less
name_less-order s t f g = elim (Bool-cases (is_eth0 s)) [
  | inl a ↦ elim (Bool-cases (is_eth0 t)) [
    | inl b ↦
        rw (a, b)
          (both s t ((str_eq_iff s (codes "eth0")).0 a ∙ sym ((str_eq_iff t (codes "eth0")).0 b)))
    | inr b ↦ rw (a, b)
  ]
  | inr a ↦ elim (Bool-cases (is_eth0 t)) [
    | inl b ↦ rw (a, b)
    | inr b ↦
        let (q, e, o) = nat_compare-sign s t f g in rw (a, b, e) (ap ok (ltb_zero q ∙ ap is_lt o))
  ]
]
  where
    both :
        (s t : Bytes)
        → s ≡ t
        → ◌≡◌ {A = Outcome Error Bool} (ok false) (ok (is_lt (natural_order s t)))
    both s t h = rw (h, cmp_self natural_order-IsTotalOrder t)

-- The order of two that are not out of order passes over a third one.
not_lt_trans :
    (s t u : Bytes)
    → is_lt (name_order s t) ≡ false
    → is_lt (name_order t u) ≡ false
    → is_lt (name_order s u) ≡ false
not_lt_trans s t u h k = go (name_order s u) (name_order t u) refl refl
  where
    go : (o p : Ordering) → name_order s u ≡ o → name_order t u ≡ p → is_lt o ≡ false
    go Ordering.eq p e f = refl
    go Ordering.gt p e f = refl
    go Ordering.lt Ordering.lt e f = absurd (cc (rw f at k))
    go Ordering.lt Ordering.eq e f = absurd (cc (rw (name_order-IsTotalOrder.tie t u f, e) at h))
    go Ordering.lt Ordering.gt e f =
        let g : name_order u t ≡ Ordering.lt = name_order-IsTotalOrder.swap t u ∙ ap flip f in
        absurd (cc (rw (name_order-IsTotalOrder.trans s u t e g) at h))

lt_not : (s t : Bytes) → is_lt (name_order s t) ≡ true → is_lt (name_order t s) ≡ false
lt_not s t h = rw (name_order-IsTotalOrder.swap s t) (ground arith)

module _ {NetIp : Type 0} where
  -- `y` does not go before `x`.
  abbrev pub InOrder : Iface NetIp → Iface NetIp → Type 0
  InOrder x y = is_lt (name_order y.name x.name) ≡ false

  -- Each element is in order with all that follow.
  abbrev pub Rising : List (Iface NetIp) → Type 0
  Rising [] = Unit
  Rising (x ∷ xs) = All (InOrder x) xs × Rising xs

  abbrev Falling : List (Iface NetIp) → Type 0
  Falling [] = Unit
  Falling (x ∷ xs) = All (λ y. InOrder y x) xs × Falling xs

  abbrev pub Sortable : Iface NetIp → Type 0
  Sortable x = IsSortable x.name

  -- What `sink` makes of a held part of the slice.
  record Sunk (x : Iface NetIp) (ys zs : List (Iface NetIp)) : Type 1 where
    same : Perm (x ∷ ys) zs
    all : (P : Iface NetIp → Type 0) → P x → All P ys → All P zs
    falling : Falling zs

  sink-Sunk :
      (x : Iface NetIp) (ys : List (Iface NetIp))
      → Sortable x
      → All Sortable ys
      → Falling ys
      → (zs : List (Iface NetIp)) × (sink x ys ≡ ok zs) × Sunk x ys zs
  unfolding sink
  sink-Sunk x [] f g h = (
    x ∷ [],
    refl,
    record { same = Perm.refl (x ∷ []); all = λ P p _. (p, tt); falling = (tt, tt) },
  )
  sink-Sunk x (y ∷ ys) f (g, gs) (h, hs) = elim (Bool-cases (is_lt (name_order x.name y.name))) [
    | inl b ↦
        let (zs, e, z) = sink-Sunk x ys f gs hs in
        (
          y ∷ zs,
          rw (name_less-order x.name y.name f g, b, e),
          record {
            same = Perm.trans (Perm.swap y x ys) (Perm.cons y z.same);
            all = λ P p (q, qs). (q, z.all P p qs);
            falling = (z.all (λ k. InOrder k y) (lt_not x.name y.name b) h, z.falling);
          },
        )
    | inr b ↦ (
      x ∷ y ∷ ys,
      rw (name_less-order x.name y.name f g, b),
      record {
        same = Perm.refl (x ∷ y ∷ ys);
        all = λ P p q. (p, q);
        falling = ((b, All-weaken ys (λ k q. not_lt_trans x.name y.name k.name b q) h), (h, hs));
      },
    )
  ]

  reverse_aux_perm :
      (xs : List (Iface NetIp)) {ys zs : List (Iface NetIp)}
      → Perm ys zs
      → Perm (reverse_aux xs ys) (reverse_aux xs zs)
  reverse_aux_perm [] p = p
  reverse_aux_perm (x ∷ xs) p = reverse_aux_perm xs (Perm.cons x p)

  sort_from-Sunk :
      (ys xs : List (Iface NetIp))
      → All Sortable ys
      → All Sortable xs
      → Falling ys
      → (zs : List (Iface NetIp)) × (sort_from ys xs ≡ ok zs)
        × Perm (reverse_aux xs ys) zs
        × Falling zs
  unfolding sort_from
  sort_from-Sunk ys [] g f h = (ys, refl, Perm.refl ys, h)
  sort_from-Sunk ys (x ∷ xs) g (f, fs) h =
      let (ys', e, y) = sink-Sunk x ys f g h in
      let (zs, e', p, z) = sort_from-Sunk ys' xs (y.all Sortable f g) fs y.falling in
      (zs, rw (e, e'), Perm.trans (reverse_aux_perm xs y.same) p, z)

  All-zip :
      (P Q : Iface NetIp → Type 0) (xs : List (Iface NetIp))
      → All P xs
      → All Q xs
      → All (λ x. P x × Q x) xs
  All-zip P Q [] _ _ = tt
  All-zip P Q (x ∷ xs) (p, ps) (q, qs) = ((p, q), All-zip P Q xs ps qs)

  reverse_aux-Rising :
      (xs ys : List (Iface NetIp))
      → Falling xs
      → Rising ys
      → All (λ x. All (InOrder x) ys) xs
      → Rising (reverse_aux xs ys)
  reverse_aux-Rising [] ys _ r _ = r
  reverse_aux-Rising (x ∷ xs) ys (f, fs) r (a, rest) =
      reverse_aux-Rising xs (x ∷ ys) fs (a, r) (All-zip _ _ xs f rest)

  none_follow : (xs : List (Iface NetIp)) → All (λ x. All (InOrder x) []) xs
  none_follow [] = tt
  none_follow (x ∷ xs) = (tt, none_follow xs)

  -- Where the numbers in the names fit an `int`, the sort does not panic: it returns the same
  -- interfaces, eth0 first and the others in the natural order of their names.
  pub sort_interfaces-Rising :
      (xs : List (Iface NetIp))
      → All Sortable xs
      → (ys : List (Iface NetIp)) × (sort_interfaces xs ≡ ok ys) × Perm xs ys × Rising ys
  unfolding sort_interfaces
  sort_interfaces-Rising xs f =
      let (zs, e, p, z) = sort_from-Sunk [] xs tt f tt in
      (
        reverse zs,
        rw e,
        Perm.trans (Perm.symm (reverse_perm xs)) (Perm.trans p (Perm.symm (reverse_perm zs))),
        reverse_aux-Rising zs [] z tt (none_follow zs),
      )
