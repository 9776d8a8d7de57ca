-- ===== src/Libvirt/Domains/Order.antt =====
-- The order in which `startDomains` of runner/libvirt/runner.go takes the devices.
use mathlib.Core.List.Perm
use mathlib.Core.List.{Perm}
use runtopo.Prelude.{◌≤◌, ◌≡◌, Bool-cases, inl, inr, true, false, List, [], ◌∷◌, All, arith}
use runtopo.Topology.Device.{Device, function}
use runtopo.Topology.Function.{to_int}
use runtopo.Libvirt.Domains.{function_less, insert_device, by_function}

module _ {Ip : Type 0} where
  abbrev pub NoLater : Device Ip → Device Ip → Type 0
  NoLater d e = to_int (function d) ≤ to_int (function e)

  -- No device comes behind one with a greater function.
  abbrev pub Ascending : List (Device Ip) → Type 0
  Ascending [] = Unit
  Ascending (d ∷ ds) = All (NoLater d) ds × Ascending ds

  insert_device-All :
      (c d : Device Ip) (ds : List (Device Ip))
      → NoLater c d
      → All (NoLater c) ds
      → All (NoLater c) (insert_device d ds)
  unfolding insert_device
  insert_device-All c d [] h all = (h, tt)
  insert_device-All c d (e ∷ es) h (he, hes) = elim (Bool-cases (function_less e d)) [
    | inl less ↦ rw (less, insert_device) (he, insert_device-All c d es h hes)
    | inr not_less ↦ rw (not_less, insert_device) (h, (he, hes))
  ]

  -- What comes before the one comes before what the other comes before.
  All-later :
      (d e : Device Ip) (es : List (Device Ip))
      → NoLater d e
      → All (NoLater e) es
      → All (NoLater d) es
  All-later d e [] h all = tt
  All-later d e (c ∷ cs) h (hc, hcs) = (omega arith, All-later d e cs h hcs)

  not_less-NoLater : (e d : Device Ip) → function_less e d ≡ false → NoLater d e
  unfolding function_less
  not_less-NoLater e d h = ground arith

  less-NoLater : (e d : Device Ip) → function_less e d ≡ true → NoLater e d
  unfolding function_less
  less-NoLater e d h = ground arith

  insert_device-Ascending :
      (d : Device Ip) (ds : List (Device Ip)) → Ascending ds → Ascending (insert_device d ds)
  unfolding insert_device
  insert_device-Ascending d [] h = (tt, tt)
  insert_device-Ascending d (e ∷ es) (all, h) = elim (Bool-cases (function_less e d)) [
    | inl less ↦
        rw (less, insert_device)
          (insert_device-All e d es (less-NoLater e d less) all, insert_device-Ascending d es h)
    | inr not_less ↦
        let first = not_less-NoLater e d not_less in
        rw (not_less, insert_device) ((first, All-later d e es first all), (all, h))
  ]

  insert_device-Perm : (d : Device Ip) (ds : List (Device Ip)) → Perm (d ∷ ds) (insert_device d ds)
  unfolding insert_device
  insert_device-Perm d [] = Perm.refl (d ∷ [])
  insert_device-Perm d (e ∷ es) = elim (Bool-cases (function_less e d)) [
    | inl less ↦
        rw (less, insert_device)
          (Perm.trans (Perm.swap e d es) (Perm.cons e (insert_device-Perm d es)))
    | inr not_less ↦ rw (not_less, insert_device) (Perm.refl (d ∷ e ∷ es))
  ]

  -- `startDomains` takes all devices, each as often as it is there, in the order of their functions,
  -- which is the order of the constants in topology/device.go.
  pub by_function-Ascending :
      (ds : List (Device Ip)) → Perm ds (by_function ds) × Ascending (by_function ds)
  unfolding by_function
  by_function-Ascending [] = (Perm.refl [], tt)
  by_function-Ascending (d ∷ ds) =
      let (p, h) = by_function-Ascending ds in
      (
        Perm.trans (Perm.cons d p) (insert_device-Perm d (by_function ds)),
        insert_device-Ascending d (by_function ds) h,
      )
