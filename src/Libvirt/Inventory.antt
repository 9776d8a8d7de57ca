-- ===== src/Libvirt/Inventory.antt =====
-- `buildInventory` of runner/libvirt/runner.go: the runner's devices, and the interfaces that the
-- links give them, with their addresses and ports. What `net.ParseIP` and `net.ParseMAC` return is
-- given by two arguments.
pub mod Devices
pub mod Sort
pub mod Build
pub mod Wires
pub mod Sums
pub mod Macs
pub mod Plugs
pub mod Ports
use runtopo.Prelude.{
  ℕ, ◌+◌, ◌%◌, ◌^◌, Bool, true, false, ◌&&◌, ◌||◌, not, Bytes, codes, str_eq, Option, none, some,
  List, [], ◌∷◌, ◌++◌, Outcome, ok, err, ◌>>=◌, if◌then◌else◌,
}
use runtopo.Prelude.Dict.{Dict, lookup, insert, attr as map_attr}
use runtopo.Errors.{Error, bad_tunnel_ip, bad_config}
use runtopo.Topology.AutoMgmt.{is_empty, server_name, switch_name}
use runtopo.Topology.Device
use runtopo.Topology.Device.{Device}
use runtopo.Topology.Function.{fake, same_function}
use runtopo.Topology.Link.{Link, from_mac, to_mac}
use runtopo.Libvirt.Device.{Iface, HostDevice, HostBmc}
use runtopo.Libvirt.Mac.{mac_addr_from_uint64, mac_int_from}
use runtopo.Libvirt.Runner.{Runner, to_uint}
use runtopo.Libvirt.Vbmc

-- The variables of the loop over the links.
pub record Wiring (Ip NetIp : Type 0) : Type 0 where
  pub devices : Dict (HostDevice Ip NetIp)
  pub mac_int : ℕ
  pub next_port : ℕ

-- An interface on a libvirt network.
unfoldable pub network_iface : {NetIp : Type 0} → Bytes → Bytes → Bytes → Iface NetIp
network_iface name mac network = record {
  name = name;
  mac = mac;
  network = network;
  port = 0;
  local_port = 0;
  remote_tunnel_ip = none;
  pxe = false;
}

module _ {Ip NetIp : Type 0} where
  -- The closure `allocateMAC`.
  unfoldable pub allocate_mac : Wiring Ip NetIp → Outcome Error (Bytes × Wiring Ip NetIp)
  allocate_mac w = do
    mac ← mac_addr_from_uint64 w.mac_int
    ok (mac, record w { mac_int = (w.mac_int + 1) % 2 ^ 64 })

  -- `if !hasMAC { mac = allocateMAC() }`
  unfoldable pub mac_or_new :
      Option Bytes → Wiring Ip NetIp → Outcome Error (Bytes × Wiring Ip NetIp)
  mac_or_new (some mac) w = ok (mac, w)
  mac_or_new none w = allocate_mac w

  -- `d.interfaces = append(d.interfaces, i)`, for the device `d` that was found under the key.
  unfoldable pub add_interface :
      Bytes → HostDevice Ip NetIp → Iface NetIp → Wiring Ip NetIp → Wiring Ip NetIp
  add_interface key d i w = record w {
    devices = insert key (record d { interfaces = d.interfaces ++ i ∷ [] }) w.devices;
  }

  unfoldable pub bump_port : Wiring Ip NetIp → Wiring Ip NetIp
  bump_port w = record w { next_port = (w.next_port + 1) % 2 ^ 64 }

  unfoldable pub tunnel_ip_or : NetIp → Option (HostDevice Ip NetIp) → NetIp
  tunnel_ip_or default none = default
  tunnel_ip_or default (some d) = d.tunnel_ip

module _ {Ip NetIp : Type 0} (r : Runner Ip NetIp) where
  abbrev pub gap : ℕ
  gap = to_uint r.port_gap

  -- The interface of a tunnel's left end and that of its right end.
  unfoldable pub left_iface : Link → Bytes → ℕ → NetIp → Iface NetIp
  left_iface l mac port remote = record {
    name = l.from_port;
    mac = mac;
    network = [];
    port = port;
    local_port = (port + gap) % 2 ^ 64;
    remote_tunnel_ip = some remote;
    pxe = not (is_empty (map_attr l.attrs (codes "left_pxe")));
  }

  unfoldable pub right_iface : Link → Bytes → ℕ → NetIp → Iface NetIp
  right_iface l mac port remote = record {
    name = l.to_port;
    mac = mac;
    network = [];
    port = (port + gap) % 2 ^ 64;
    local_port = port;
    remote_tunnel_ip = some remote;
    pxe = not (is_empty (map_attr l.attrs (codes "right_pxe")));
  }

-- The link of a management device to the outside, which goes to libvirt's default network.
unfoldable pub is_uplink : Link → Bool
is_uplink l = (str_eq l.from server_name || str_eq l.from switch_name) && is_empty l.to

unfoldable pub is_network_link : Link → Bool
is_network_link l = str_eq (map_attr l.attrs (codes "libvirt_type")) (codes "network")

module _ {Ip NetIp : Type 0} (parse_mac : Bytes → Option Bytes) (r : Runner Ip NetIp) where
  -- The second half of a round: the right end, if it is a device, and the next port.
  unfoldable pub wire_right : Link → NetIp → Wiring Ip NetIp → Outcome Error (Wiring Ip NetIp)
  wire_right l from_tunnel_ip w = elim (lookup l.to w.devices) [
    | none ↦ ok (bump_port w)
    | some to ↦ do
      (mac, w') ← mac_or_new (to_mac parse_mac l) w
      ok (bump_port (add_interface l.to to (right_iface r l mac w'.next_port from_tunnel_ip) w'))
  ]

  -- The first half of a round, where the left end is a device.
  unfoldable pub wire_left :
      Link → HostDevice Ip NetIp → Bytes → Wiring Ip NetIp → Outcome Error (Wiring Ip NetIp)
  wire_left l from mac w =
      if is_uplink l
      then ok (add_interface l.from from (network_iface l.from_port mac (codes "default")) w)
      else if is_network_link l
      then ok (add_interface l.from from (network_iface l.from_port mac l.to) w)
      else wire_right l from.tunnel_ip (
          add_interface l.from from
            (left_iface r l mac w.next_port (tunnel_ip_or r.tunnel_ip (lookup l.to w.devices))) w)

  -- One round of the loop over the links.
  unfoldable pub wire_link : Link → Wiring Ip NetIp → Outcome Error (Wiring Ip NetIp)
  wire_link l w = elim (lookup l.from w.devices) [
    | none ↦ wire_right l r.tunnel_ip w
    | some from ↦ do (mac, w') ← mac_or_new (from_mac parse_mac l) w; wire_left l from mac w'
  ]

  unfoldable pub wire_links : List Link → Wiring Ip NetIp → Outcome Error (Wiring Ip NetIp)
  wire_links [] w = ok w
  wire_links (l ∷ ls) w = do w' ← wire_link l w; wire_links ls w'
