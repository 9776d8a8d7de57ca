-- ===== src/Topology/Parse/Names.antt =====
-- Which graphs `Parse` accepts: its loop over the devices, by their names.
use runtopo.Prelude.{
  ◌≡◌, ◌↔◌, ◌⊎◌, ap, true, false, ◌&&◌, not, List, [], ◌∷◌, arith, ok, ok-injective, All,
}
use runtopo.Prelude.Dict.{Dict, insert}
use runtopo.Topology.Device.{Device, function}
use runtopo.Topology.Function.{DeviceFunction, fake, same_function, to_int}
use runtopo.Topology.Hostname.{is_valid_hostname, is_valid_hostname_iff, IsHostname}
use runtopo.Topology.Netaddr.{Netaddr}
use runtopo.Topology.Parse.{add_devices}

same_function_fake : (f : DeviceFunction) → (same_function f fake ≡ true) ↔ (f ≡ fake)
unfolding same_function to_int
same_function_fake f = ground arith

module _ (N : Netaddr) where
  open N use {Ip}

  -- A device may have any name if it is fake, and a hostname else.
  abbrev pub IsNamed : Device Ip → Type 0
  IsNamed d = (function d ≡ fake) ⊎ IsHostname d.name

  -- The map with the devices written one after the other.
  pub insert_all : List (Device Ip) → Dict (Device Ip) → Dict (Device Ip)
  insert_all [] devs = devs
  insert_all (d ∷ ds) devs = insert_all ds (insert d.name d devs)

  refused :
      (d : Device Ip)
      → (not (is_valid_hostname d.name) && not (same_function (function d) fake) ≡ false)
        ↔ IsNamed d
  refused d = ground (arith, is_valid_hostname_iff d.name, same_function_fake (function d))

  -- The loop accepts the devices exactly if each of them is fake or has a hostname for a name, and
  -- then all are in the map.
  pub add_devices_iff :
      (ds : List (Device Ip)) (devs devs' : Dict (Device Ip))
      → (add_devices N ds devs ≡ ok devs') ↔ (All IsNamed ds × (insert_all ds devs ≡ devs'))
  unfolding add_devices insert_all
  add_devices_iff [] devs devs' = (λ h. (tt, ok-injective h), λ (_, e). ap ok e)
  add_devices_iff (d ∷ ds) devs devs' =
      ground (arith, refused d, add_devices_iff ds (insert d.name d devs) devs')
