-- ===== src/Libvirt/Inventory/Build/Kept.antt =====
-- Sums over the interfaces of all devices, which the sort at the end of `buildInventory` keeps.
use mathlib.Core.List.{reverse_aux}
use runtopo.Prelude.{
  ℕ, ◌+◌, ◌≡◌, ap, Bool, true, false, List, [], ◌∷◌, arith, Outcome, ok, ◌>>=◌, >>=-eq-ok,
  ok-injective,
}
use runtopo.Prelude.Dict.{Dict}
use runtopo.Errors.{Error}
use runtopo.Libvirt.Device.{Iface, HostDevice}
use runtopo.Libvirt.Inventory.Sort.{name_less, sink, sort_from, sort_interfaces}
use runtopo.Libvirt.Inventory.Sums.{sum_of, total}
use runtopo.Libvirt.Inventory.Build.{sort_devices}

-- The sort of the interfaces keeps each sum over them.
module _ {NetIp : Type 0} (f : Iface NetIp → ℕ) where
  sum_of-sink :
      (x : Iface NetIp) (ys zs : List (Iface NetIp))
      → sink x ys ≡ ok zs
      → sum_of f zs ≡ f x + sum_of f ys
  unfolding sink
  sum_of-sink x [] zs h = omega (arith, ap (sum_of f) (ok-injective h))
  sum_of-sink x (y ∷ ys) zs h =
      let (less, _, rest) = >>=-eq-ok (name_less x.name y.name) _ h in
      by_test less rest (λ moved e. sum_of-sink x ys moved e)
    where
      by_test :
          (less : Bool)
          → ◌≡◌ {A = Outcome Error (List (Iface NetIp))}
              (elim less [ false ↦ ok (x ∷ y ∷ ys) | true ↦ sink x ys >>= (λ rest. ok (y ∷ rest)) ])
              (ok zs)
          → ((moved : List (Iface NetIp))
              → sink x ys ≡ ok moved
              → sum_of f moved ≡ f x + sum_of f ys)
          → sum_of f zs ≡ f x + (f y + sum_of f ys)
      by_test false h ih = omega (arith, ap (sum_of f) (ok-injective h))
      by_test true h ih =
          let (moved, e, p) = >>=-eq-ok (sink x ys) _ h in
          omega (arith, ih moved e, ap (sum_of f) (ok-injective p))

  sum_of-sort_from :
      (held xs ys : List (Iface NetIp))
      → sort_from held xs ≡ ok ys
      → sum_of f ys ≡ sum_of f held + sum_of f xs
  unfolding sort_from
  sum_of-sort_from held [] ys h = omega (arith, ap (sum_of f) (ok-injective h))
  sum_of-sort_from held (x ∷ xs) ys h =
      let (held', e, p) = >>=-eq-ok (sink x held) _ h in
      omega (arith, sum_of-sink x held held' e, sum_of-sort_from held' xs ys p)

  sum_of-reverse_aux :
      (xs ys : List (Iface NetIp)) → sum_of f (reverse_aux xs ys) ≡ sum_of f xs + sum_of f ys
  sum_of-reverse_aux [] ys = omega arith
  sum_of-reverse_aux (x ∷ xs) ys = omega (arith, sum_of-reverse_aux xs (x ∷ ys))

  pub sum_of-sort_interfaces :
      (xs ys : List (Iface NetIp)) → sort_interfaces xs ≡ ok ys → sum_of f ys ≡ sum_of f xs
  unfolding sort_interfaces
  sum_of-sort_interfaces xs ys h =
      let (held, e, p) = >>=-eq-ok (sort_from [] xs) _ h in
      omega (
        arith,
        sum_of-sort_from [] xs held e,
        sum_of-reverse_aux held [],
        ap (sum_of f) (ok-injective p),
      )

  pub total-sort_devices :
      {Ip : Type 0} (m m' : Dict (HostDevice Ip NetIp))
      → sort_devices m ≡ ok m'
      → total f m' ≡ total f m
  unfolding sort_devices
  total-sort_devices [] m' h = omega (arith, ap (total f) (ok-injective h))
  total-sort_devices ((k, d) ∷ m) m' h =
      let (sorted, e, p) = >>=-eq-ok (sort_interfaces d.interfaces) _ h in
      let (rest, e', p') = >>=-eq-ok (sort_devices m) _ p in
      omega (
        arith,
        sum_of-sort_interfaces d.interfaces sorted e,
        total-sort_devices m rest e',
        ap (total f) (ok-injective p'),
      )
