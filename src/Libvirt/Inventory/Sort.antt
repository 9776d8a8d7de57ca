-- ===== src/Libvirt/Inventory/Sort.antt =====
-- The sort of a device's interfaces at the end of `buildInventory` in runner/libvirt/runner.go: eth0
-- first, then by `natCompare` of the names. `sort.Slice` is the insertion sort that it uses on up to
-- twelve elements; the part of the slice that is sorted is held with its last element first.
pub mod Sorted
use runtopo.Prelude.{
  Bool, true, false, not, Bytes, codes, str_eq, List, [], ◌∷◌, Outcome, ok, ◌>>=◌, if◌then◌else◌,
}
use mathlib.Core.List.{reverse}
use runtopo.Prelude.Int.{ltb_ℤ, pos}
use runtopo.Errors.{Error}
use runtopo.Libvirt.Device.{Iface}
use runtopo.Libvirt.NatCompare.{nat_compare}

unfoldable pub is_eth0 : Bytes → Bool
is_eth0 name = str_eq name (codes "eth0")

-- The function handed to `sort.Slice`.
unfoldable pub name_less : Bytes → Bytes → Outcome Error Bool
unfolding is_eth0
name_less s t =
    if is_eth0 s
    then ok (not (is_eth0 t))
    else if is_eth0 t
    then ok false
    else do q ← nat_compare s t; ok (ltb_ℤ q (pos 0))

module _ {NetIp : Type 0} where
  -- `x` moves over the elements that it goes before, the last one first.
  unfoldable pub sink : Iface NetIp → List (Iface NetIp) → Outcome Error (List (Iface NetIp))
  sink x [] = ok (x ∷ [])
  sink x (y ∷ ys) = name_less x.name y.name >>= (λ less. elim less [
    | false ↦ ok (x ∷ y ∷ ys)
    | true ↦ sink x ys >>= (λ rest. ok (y ∷ rest))
  ])

  unfoldable pub sort_from :
      List (Iface NetIp) → List (Iface NetIp) → Outcome Error (List (Iface NetIp))
  sort_from held [] = ok held
  sort_from held (x ∷ xs) = do held' ← sink x held; sort_from held' xs

  unfoldable pub sort_interfaces : List (Iface NetIp) → Outcome Error (List (Iface NetIp))
  sort_interfaces xs = do held ← sort_from [] xs; ok (reverse held)
