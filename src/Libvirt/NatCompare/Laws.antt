-- ===== src/Libvirt/NatCompare/Laws.antt =====
-- What a sort by `natCompare` needs of it.
use Prim.Native.Nat.{zero, suc, Ordering}
use runtopo.Prelude.{◌≡◌, refl, sym, ap, ◌∙◌, ◌↔◌, Bytes, ok, ok-injective}
use runtopo.Prelude.Int.{ℤ, pos, negsuc}
use runtopo.Prelude.Order.{flip, cmp_self}
use runtopo.Libvirt.NatCompare.{nat_compare}
use runtopo.Libvirt.NatCompare.Order.{
  IsSortable, natural_order, natural_order-IsTotalOrder, nat_compare-sign, sign, Before,
}

sign-eq : (q : ℤ) → sign q ≡ Ordering.eq → q ≡ pos 0
sign-eq (pos zero) h = refl
sign-eq (pos (suc n)) h = cc
sign-eq (negsuc n) h = cc

-- What the natural order says of two texts, `natCompare` returns.
pub Before-iff :
    (s t : Bytes) → IsSortable s → IsSortable t → Before s t ↔ (natural_order s t ≡ Ordering.lt)
Before-iff s t f g =
    let (q, e, o) = nat_compare-sign s t f g in
    (λ (p, e', o'). sym o ∙ ap sign (ok-injective (sym e ∙ e')) ∙ o', λ h. (q, e, o ∙ h))

-- On texts whose numbers fit an `int`, the test of the sort is transitive.
pub Before-trans :
    (s t u : Bytes)
    → IsSortable s
    → IsSortable t
    → IsSortable u
    → Before s t
    → Before t u
    → Before s u
Before-trans s t u f g k a b =
    (Before-iff s u f k).1
      (natural_order-IsTotalOrder.trans s t u ((Before-iff s t f g).0 a) ((Before-iff t u g k).0 b))

-- On texts whose numbers fit an `int`, `natCompare` returns 0 on equal texts and on no others.
pub nat_compare_zero :
    (s t : Bytes) → IsSortable s → IsSortable t → (nat_compare s t ≡ ok (pos 0)) ↔ (s ≡ t)
nat_compare_zero s t f g =
    let (q, e, o) = nat_compare-sign s t f g in
    (
      λ h. natural_order-IsTotalOrder.tie s t (sym o ∙ ap sign (ok-injective (sym e ∙ h))),
      λ h.
          e
          ∙ ap ok (
              sign-eq q (o ∙ ap (natural_order s) (sym h) ∙ cmp_self natural_order-IsTotalOrder s)),
    )

-- On texts whose numbers fit an `int`, `natCompare` returns a value for either order of its
-- arguments, and the signs of the two are opposite.
pub nat_compare_swap :
    (s t : Bytes)
    → IsSortable s
    → IsSortable t
    → (p q : ℤ) × (nat_compare s t ≡ ok p) × (nat_compare t s ≡ ok q) × (sign q ≡ flip (sign p))
nat_compare_swap s t f g =
    let (p, e, o) = nat_compare-sign s t f g in
    let (q, e', o') = nat_compare-sign t s g f in
    (p, q, e, e', o' ∙ natural_order-IsTotalOrder.swap s t ∙ ap flip (sym o))
