-- ===== src/Libvirt/Inventory/Build/Apart.antt =====
-- What `buildInventory` of runner/libvirt/runner.go hands out only once: ports and MAC addresses.
use runtopo.Prelude.{
  ℕ, ◌+◌, ◌^◌, ◌≤◌, ◌<◌, ◌≡◌, sym, ap, ◌∙◌, Bytes, Option, List, [], length, leb, arith, ok,
  >>=-eq-ok, ok-injective, if◌then◌else◌, All, subst,
}
use runtopo.Topology.Netaddr.{Netaddr}
use runtopo.Topology.Topo.{Topo, devices, links}
use runtopo.Libvirt.Device.{Iface}
use runtopo.Libvirt.Mac.{mac_int_from}
use runtopo.Libvirt.Runner.{Runner, to_uint}
use runtopo.Libvirt.Inventory.{Wiring, wire_links}
use runtopo.Libvirt.Inventory.Devices.{add_host_devices}
use runtopo.Libvirt.Inventory.Sums.{total}
use runtopo.Libvirt.Inventory.Ports.{listens}
use runtopo.Libvirt.Inventory.Ports.Rounds.{wire_links-one_listener}
use runtopo.Libvirt.Inventory.Macs.{same_mac, Unstated, handed_out, wire_links-one_holder}
use runtopo.Libvirt.Inventory.Build.{sort_devices, build_inventory}
use runtopo.Libvirt.Inventory.Devices.Kept.{IsKept, add_host_devices-IsKept}
use runtopo.Libvirt.Inventory.Build.Kept.{total-sort_devices}

-- 1 for an address whose number is the base's or larger.
abbrev pub from_base : Bytes → Bytes → ℕ
from_base m mac_base = if leb (mac_int_from 0 mac_base) (mac_int_from 0 m) then 1 else 0

module _ (N : Netaddr) {NetIp : Type 0} (parse_ip : Bytes → Option NetIp)
    (parse_mac : Bytes → Option Bytes) where
  -- A `buildInventory` that returns has gone through three loops.
  loops :
      (order : List Bytes) (t : Topo N) (r r' : Runner N.Ip NetIp)
      → build_inventory N parse_ip parse_mac order t r ≡ ok r'
      → (s : Runner N.Ip NetIp) × (w : Wiring N.Ip NetIp) × IsKept r s
        × (wire_links parse_mac s (links N t) (record {
          devices = s.devices;
          mac_int = mac_int_from 0 s.mac_base;
          next_port = to_uint s.port_base;
        })
            ≡ ok w)
        × ((f : Iface NetIp → ℕ) → total f r'.devices ≡ total f w.devices)
  unfolding build_inventory
  loops order t r r' h =
      let (s, first, h₁) = >>=-eq-ok (add_host_devices parse_ip (devices N t order) r) _ h in
      let (w, second, h₂) = >>=-eq-ok (wire_links parse_mac s (links N t) _) _ h₁ in
      let (m, third, h₃) = >>=-eq-ok (sort_devices w.devices) _ h₂ in
      (
        s,
        w,
        add_host_devices-IsKept parse_ip (devices N t order) r s first,
        second,
        λ f.
            ap (λ (x : Runner N.Ip NetIp). total f x.devices) (sym (ok-injective h₃))
            ∙ total-sort_devices f w.devices m third,
      )

  -- Where a runner without devices builds its inventory and no error is returned: if the links are no
  -- more than the gap and the ports stay below 2 ^ 64, at most one interface of all devices listens
  -- on a port; and an address that no link states is the address of at most one interface, and of
  -- none if its number is below that of the base.
  pub build_inventory-apart :
      (order : List Bytes) (t : Topo N) (r r' : Runner N.Ip NetIp) (q : ℕ) (m : Bytes)
      → r.devices ≡ []
      → length (links N t) ≤ to_uint r.port_gap
      → to_uint r.port_base + to_uint r.port_gap + length (links N t) < 2 ^ 64
      → All (Unstated parse_mac m) (links N t)
      → build_inventory N parse_ip parse_mac order t r ≡ ok r'
      → (total (listens q) r'.devices ≤ 1)
        × (total (λ i. same_mac i.mac m) r'.devices ≤ from_base m r.mac_base)
  build_inventory-apart order t r r' q m bare few small free h =
      let (s, w, kept, wired, sums) = loops order t r r' h in
      let none_before = λ (f : Iface NetIp → ℕ). kept.bare f (ap (total f) bare) in
      let once =
        wire_links-one_listener parse_mac s (links N t) _ w (λ p. none_before (listens p))
          (subst (λ g. length (links N t) ≤ to_uint g) (sym kept.far) few)
          (subst (λ g. to_uint s.port_base + to_uint g + length (links N t) < 2 ^ 64) (sym kept.far)
            (subst (λ p. to_uint p + to_uint r.port_gap + length (links N t) < 2 ^ 64)
              (sym kept.port) small))
          wired q in
      let (_, given) =
        wire_links-one_holder m parse_mac s (links N t) _ w free
          (none_before (λ i. same_mac i.mac m)) wired in
      (
        omega (arith, sums (listens q), once),
        omega (
          arith,
          sums (λ i. same_mac i.mac m),
          subst
              (λ b.
                total (λ i. same_mac i.mac m) w.devices ≤ handed_out m (mac_int_from 0 b) w.mac_int)
              kept.base given,
          handed_out_le m (mac_int_from 0 r.mac_base) w.mac_int,
        ),
      )
    where
      handed_out_le :
          (m : Bytes) (a b : ℕ) → handed_out m a b ≤ (if leb a (mac_int_from 0 m) then 1 else 0)
      handed_out_le m a b = ground arith
