-- ===== src/Libvirt/Inventory/Build.antt =====
-- `buildInventory` of runner/libvirt/runner.go put together. Only the loop over the devices returns an
-- error; what it has left in the runner then is `inventory_left`.
pub mod Kept
pub mod Apart
pub mod Plugged
use runtopo.Prelude.{Bytes, Option, List, [], ◌∷◌, Outcome, ok, ◌>>=◌}
use runtopo.Prelude.Dict.{Dict}
use runtopo.Errors.{Error}
use runtopo.Topology.Netaddr.{Netaddr}
use runtopo.Topology.Topo.{Topo, devices, links}
use runtopo.Libvirt.Device.{HostDevice}
use runtopo.Libvirt.Mac.{mac_int_from}
use runtopo.Libvirt.Runner.{Runner, to_uint}
use runtopo.Libvirt.Inventory.{wire_links}
use runtopo.Libvirt.Inventory.Devices.{add_host_devices, devices_left}
use runtopo.Libvirt.Inventory.Sort.{sort_interfaces}

-- The last loop. Each round is about one device alone.
unfoldable pub sort_devices :
    {Ip NetIp : Type 0} → Dict (HostDevice Ip NetIp) → Outcome Error (Dict (HostDevice Ip NetIp))
sort_devices [] = ok []
sort_devices ((k, d) ∷ m) = do
  sorted ← sort_interfaces d.interfaces
  m' ← sort_devices m
  ok ((k, record d { interfaces = sorted }) ∷ m')

module _ (N : Netaddr) {NetIp : Type 0} (parse_ip : Bytes → Option NetIp)
    (parse_mac : Bytes → Option Bytes) where
  open N use {Ip}

  -- `order` is the sequence of keys that `t.Devices()` visits.
  unfoldable pub build_inventory :
      List Bytes → Topo N → Runner Ip NetIp → Outcome Error (Runner Ip NetIp)
  build_inventory order t r = do
    r' ← add_host_devices parse_ip (devices N t order) r
    w ← wire_links parse_mac r' (links N t) (record {
      devices = r'.devices;
      mac_int = mac_int_from 0 r'.mac_base;
      next_port = to_uint r'.port_base;
    })
    sorted ← sort_devices w.devices
    ok (record r' { devices = sorted })

  unfoldable pub inventory_left : List Bytes → Topo N → Runner Ip NetIp → Runner Ip NetIp
  inventory_left order t r = devices_left parse_ip (devices N t order) r
