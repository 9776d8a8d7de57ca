-- ===== src/Libvirt/Inventory/Wires.antt =====
-- One round of the loop over the links, for a link between two devices.
use runtopo.Prelude.{
  ◌+◌, ◌%◌, ◌^◌, ◌≡◌, ◌≢◌, refl, sym, ap, ap₂, ◌∙◌, false, Bytes, Option, none, some, [], ◌∷◌, ◌++◌,
  ok, >>=-eq-ok, ok-injective, ok-pair,
}
use runtopo.Prelude.Dict.{lookup, insert, lookup-insert_own, lookup-insert_other}
use runtopo.Topology.Link.{Link, from_mac, to_mac}
use runtopo.Libvirt.Device.{Iface, HostDevice}
use runtopo.Libvirt.Mac.{mac_addr_from_uint64}
use runtopo.Libvirt.Runner.{Runner}
use runtopo.Libvirt.Inventory.{
  Wiring, allocate_mac, mac_or_new, add_interface, bump_port, tunnel_ip_or, left_iface, right_iface,
  wire_right, is_uplink, is_network_link, wire_left, wire_link,
}

module _ {Ip NetIp : Type 0} where
  -- A choice of an address changes neither the devices nor the next port.
  pub mac_or_new-keeps :
      (o : Option Bytes) (w : Wiring Ip NetIp) {mac : Bytes} {w' : Wiring Ip NetIp}
      → mac_or_new o w ≡ ok (mac, w')
      → (w'.devices ≡ w.devices) × (w'.next_port ≡ w.next_port)
  unfolding mac_or_new allocate_mac
  mac_or_new-keeps (some m) w h =
      let (_, q) = ok-pair h in
      (ap (λ (x : Wiring Ip NetIp). x.devices) q, ap (λ (x : Wiring Ip NetIp). x.next_port) q)
  mac_or_new-keeps none w h =
      let (m, first, rest) = >>=-eq-ok (mac_addr_from_uint64 w.mac_int) _ h in
      let (_, q) = ok-pair rest in
      (ap (λ (x : Wiring Ip NetIp). x.devices) q, ap (λ (x : Wiring Ip NetIp). x.next_port) q)

  abbrev pub with_iface : HostDevice Ip NetIp → Iface NetIp → HostDevice Ip NetIp
  with_iface d i = record d { interfaces = d.interfaces ++ i ∷ [] }

module _ {Ip NetIp : Type 0} (parse_mac : Bytes → Option Bytes) (r : Runner Ip NetIp) where
  -- What a round leaves at a link's right end.
  pub wire_right-some :
      (l : Link) (ip : NetIp) (w w' : Wiring Ip NetIp) (to : HostDevice Ip NetIp)
      → lookup l.to w.devices ≡ some to
      → wire_right parse_mac r l ip w ≡ ok w'
      → (mac : Bytes) × (w'.devices
          ≡ insert l.to (with_iface to (right_iface r l mac w.next_port ip)) w.devices)
        × (w'.next_port ≡ (w.next_port + 1) % 2 ^ 64)
  unfolding wire_right bump_port add_interface
  wire_right-some l ip w w' to e h =
      let ((mac, v), first, rest) =
        >>=-eq-ok (mac_or_new (to_mac parse_mac l) w) _ (rw (e, wire_right) at h) in
      let (devs, port) = mac_or_new-keeps (to_mac parse_mac l) w first in
      let q = sym (ok-injective rest) in
      (
        mac,
        ap (λ (x : Wiring Ip NetIp). x.devices) q
            ∙ ap₂ (λ p ds. insert l.to (with_iface to (right_iface r l mac p ip)) ds) port devs,
        ap (λ (x : Wiring Ip NetIp). x.next_port) q ∙ ap (λ p. (p + 1) % 2 ^ 64) port,
      )

  -- What a tunnel's round leaves at its left end, before the right end is wired.
  pub wire_left-tunnel :
      (l : Link) (from : HostDevice Ip NetIp) (mac : Bytes) (w : Wiring Ip NetIp)
      → is_uplink l ≡ false
      → is_network_link l ≡ false
      → wire_left parse_mac r l from mac w
        ≡ wire_right parse_mac r l from.tunnel_ip (
            add_interface l.from from
              (left_iface r l mac w.next_port (tunnel_ip_or r.tunnel_ip (lookup l.to w.devices)))
              w)
  unfolding wire_left
  wire_left-tunnel l from mac w e f = rw (e, f)

-- Two interfaces are the two ends of one tunnel: each sends to the address of the other's device and
-- to the port where the other listens.
pub record IsTunnel {Ip NetIp : Type 0} (from to : HostDevice Ip NetIp) (i j : Iface NetIp)
    : Type 0 where
  pub sends : i.port ≡ j.local_port
  pub returns : i.local_port ≡ j.port
  pub to_right : i.remote_tunnel_ip ≡ some to.tunnel_ip
  pub to_left : j.remote_tunnel_ip ≡ some from.tunnel_ip
  pub no_network : (i.network ≡ []) × (j.network ≡ [])

-- What a round makes of the two devices of a link.
pub record IsWired {Ip NetIp : Type 0} (l : Link) (from to : HostDevice Ip NetIp)
    (w w' : Wiring Ip NetIp) : Type 0 where
  pub left : Iface NetIp
  pub right : Iface NetIp
  pub left_added : lookup l.from w'.devices ≡ some (with_iface from left)
  pub right_added : lookup l.to w'.devices ≡ some (with_iface to right)
  pub others : (k : Bytes) → k ≢ l.from → k ≢ l.to → lookup k w'.devices ≡ lookup k w.devices
  pub names : (left.name ≡ l.from_port) × (right.name ≡ l.to_port)
  pub tunnel : IsTunnel from to left right
  pub port : left.port ≡ w.next_port
  pub next : w'.next_port ≡ (w.next_port + 1) % 2 ^ 64

module _ {Ip NetIp : Type 0} (parse_mac : Bytes → Option Bytes) (r : Runner Ip NetIp) where
  -- After the left end's interface has been added, the right end's round completes the tunnel.
  right-IsWired :
      (l : Link) (from to : HostDevice Ip NetIp) (mac : Bytes) (w v w' : Wiring Ip NetIp)
      → l.from ≢ l.to
      → lookup l.to w.devices ≡ some to
      → v.devices ≡ w.devices
      → v.next_port ≡ w.next_port
      → wire_right parse_mac r l from.tunnel_ip (
          add_interface l.from from
            (left_iface r l mac v.next_port (tunnel_ip_or r.tunnel_ip (lookup l.to v.devices)))
            v)
        ≡ ok w'
      → IsWired l from to w w'
  unfolding add_interface left_iface right_iface tunnel_ip_or
  right-IsWired l from to mac w v w' ne look devs port h =
      let i = left_iface r l mac v.next_port (tunnel_ip_or r.tunnel_ip (lookup l.to v.devices)) in
      let wired = insert l.from (with_iface from i) v.devices in
      let at_right =
        lookup-insert_other l.from l.to (with_iface from i) v.devices (λ e. ne (sym e)) in
      let found = at_right ∙ ap (lookup l.to) devs ∙ look in
      let (mac', devs', next) =
        wire_right-some parse_mac r l from.tunnel_ip (add_interface l.from from i v) w' to found
          h in
      let j = right_iface r l mac' v.next_port from.tunnel_ip in
      record {
        left = i;
        right = j;
        left_added =
            ap (lookup l.from) devs'
            ∙ lookup-insert_other l.to l.from (with_iface to j) wired ne
            ∙ lookup-insert_own l.from (with_iface from i) v.devices;
        right_added = ap (lookup l.to) devs' ∙ lookup-insert_own l.to (with_iface to j) wired;
        others = λ k a b.
            ap (lookup k) devs'
            ∙ lookup-insert_other l.to k (with_iface to j) wired b
            ∙ lookup-insert_other l.from k (with_iface from i) v.devices a
            ∙ ap (lookup k) devs;
        names = (refl, refl);
        tunnel = record {
          sends = refl;
          returns = refl;
          to_right = ap (λ o. some (tunnel_ip_or r.tunnel_ip o)) (ap (lookup l.to) devs ∙ look);
          to_left = refl;
          no_network = (refl, refl);
        };
        port = port;
        next = next ∙ ap (λ p. (p + 1) % 2 ^ 64) port;
      }

  -- A link between two different devices that the inventory has, which is neither an uplink nor a
  -- link to a libvirt network, adds, where the round returns, one interface to each of them and
  -- changes no other device. The two are the ends of one tunnel: each sends to the tunnel address of
  -- the other's device and to the port where the other one listens. The round takes one port number.
  pub wire_link-IsWired :
      (l : Link) (w w' : Wiring Ip NetIp) (from to : HostDevice Ip NetIp)
      → l.from ≢ l.to
      → lookup l.from w.devices ≡ some from
      → lookup l.to w.devices ≡ some to
      → is_uplink l ≡ false
      → is_network_link l ≡ false
      → wire_link parse_mac r l w ≡ ok w'
      → IsWired l from to w w'
  unfolding wire_link
  wire_link-IsWired l w w' from to ne look_from look_to e f h =
      let ((mac, v), first, rest) =
        >>=-eq-ok (mac_or_new (from_mac parse_mac l) w) _ (rw (look_from, wire_link) at h) in
      let (devs, port) = mac_or_new-keeps (from_mac parse_mac l) w first in
      right-IsWired l from to mac w v w' ne look_to devs port
        (sym (wire_left-tunnel parse_mac r l from mac v e f) ∙ rest)
