-- ===== src/Libvirt/Inventory/Sums.antt =====
-- Sums of a number over the interfaces of all devices, and how `append` to a device changes them.
use runtopo.Prelude.{
  ℕ, ◌+◌, ◌≡◌, ap, Bytes, str_eq, Option, none, some, List, [], ◌∷◌, ◌++◌, arith, Bool-cases, inl,
  inr,
}
use runtopo.Prelude.Dict.{Dict, lookup, insert}
use runtopo.Libvirt.Device.{Iface, HostDevice}
use runtopo.Libvirt.Inventory.Wires.{with_iface}

module _ {NetIp : Type 0} (f : Iface NetIp → ℕ) where
  abbrev pub sum_of : List (Iface NetIp) → ℕ
  sum_of [] = 0
  sum_of (i ∷ is) = f i + sum_of is

  pub sum_of-append : (xs ys : List (Iface NetIp)) → sum_of (xs ++ ys) ≡ sum_of xs + sum_of ys
  sum_of-append [] ys = omega arith
  sum_of-append (x ∷ xs) ys = omega (arith, sum_of-append xs ys)

  -- Over the interfaces of all devices.
  abbrev pub total : {Ip : Type 0} → Dict (HostDevice Ip NetIp) → ℕ
  total [] = 0
  total ((k, d) ∷ m) = sum_of d.interfaces + total m

  total-insert :
      {Ip : Type 0} (k : Bytes) (d d' : HostDevice Ip NetIp) (m : Dict (HostDevice Ip NetIp))
      → lookup k m ≡ some d
      → total (insert k d' m) + sum_of d.interfaces ≡ total m + sum_of d'.interfaces
  unfolding lookup insert
  total-insert k d d' [] h = absurd cc
  total-insert {Ip} k d d' ((j, e) ∷ m) h = elim (Bool-cases (str_eq j k)) [
    | inl s ↦ rw s (same (rw s at h))
    | inr s ↦ rw s (omega (arith, total-insert k d d' m (rw s at h)))
  ]
    where
      same :
          ◌≡◌ {A = Option (HostDevice Ip NetIp)} (some e) (some d)
          → (sum_of d'.interfaces + total m) + sum_of d.interfaces
            ≡ (sum_of e.interfaces + total m) + sum_of d'.interfaces
      same p = omega (arith, ap of_device p)
        where
          of_device : Option (HostDevice Ip NetIp) → ℕ
          of_device none = 0
          of_device (some x) = sum_of x.interfaces

  -- One interface more.
  pub total-with_iface :
      {Ip : Type 0} (k : Bytes) (d : HostDevice Ip NetIp) (i : Iface NetIp)
      (m : Dict (HostDevice Ip NetIp))
      → lookup k m ≡ some d
      → total (insert k (with_iface d i) m) ≡ total m + f i
  total-with_iface k d i m h =
      omega (arith, total-insert k d (with_iface d i) m h, sum_of-append d.interfaces (i ∷ []))

  -- A device without interfaces.
  pub total-insert_bare :
      {Ip : Type 0} (k : Bytes) (d : HostDevice Ip NetIp) (m : Dict (HostDevice Ip NetIp))
      → d.interfaces ≡ []
      → total m ≡ 0
      → total (insert k d m) ≡ 0
  unfolding insert
  total-insert_bare k d [] bare e = omega (arith, ap sum_of bare)
  total-insert_bare k d ((j, x) ∷ m) bare e = elim (Bool-cases (str_eq j k)) [
    | inl s ↦ rw s (omega (arith, ap sum_of bare))
    | inr s ↦ rw s (omega (arith, total-insert_bare k d m bare (omega arith)))
  ]
