-- ===== src/Libvirt/Inventory/Ports/Rounds.antt =====
-- The UDP ports that the loop over the links hands out.
use runtopo.Prelude.{
  ℕ, suc, ◌+◌, ◌%◌, ◌^◌, ◌<◌, ◌≤◌, ◌≡◌, refl, sym, ap, ◌∙◌, Bytes, Option, some, List, [], ◌∷◌,
  arith, Outcome, ok, >>=-eq-ok, ok-injective, codes, length, Bool-cases, Option-cases, inl, inr,
  ◌⊎◌, subst,
}
use runtopo.Prelude.Dict.{Dict, lookup, insert}
use runtopo.Errors.{Error}
use runtopo.Topology.Link.{Link, from_mac}
use runtopo.Libvirt.Device.{Iface, HostDevice}
use runtopo.Libvirt.Runner.{Runner}
use runtopo.Libvirt.Inventory.{
  Wiring, mac_or_new, add_interface, bump_port, tunnel_ip_or, left_iface, right_iface,
  network_iface, gap, wire_right, is_uplink, is_network_link, wire_left, wire_link, wire_links,
}
use runtopo.Libvirt.Inventory.Wires.{
  mac_or_new-keeps, wire_right-some, with_iface, wire_left-tunnel,
}
use runtopo.Libvirt.Inventory.Sums.{total-with_iface}
use runtopo.Libvirt.Inventory.Ports.{
  listens, listeners, listens_le, at_port, among_next, among_next-apart, same_bound, next_bound,
}

module _ {Ip NetIp : Type 0} (parse_mac : Bytes → Option Bytes) (r : Runner Ip NetIp) where
  -- The right end listens on the next port, and the next port is taken.
  wire_right-listeners :
      (l : Link) (ip : NetIp) (w w' : Wiring Ip NetIp)
      → wire_right parse_mac r l ip w ≡ ok w'
      → (w'.next_port ≡ (w.next_port + 1) % 2 ^ 64)
        × ((q : ℕ) → listeners q w'.devices ≤ listeners q w.devices + at_port q w.next_port)
  unfolding wire_right bump_port right_iface
  wire_right-listeners l ip w w' h = elim (Option-cases (lookup l.to w.devices)) [
    | inl e ↦
        let s = sym (ok-injective (rw (e, wire_right) at h)) in
        (
          ap (λ (x : Wiring Ip NetIp). x.next_port) s,
          λ q. omega (arith, ap (λ (x : Wiring Ip NetIp). listeners q x.devices) s),
        )
    | inr (to, e) ↦
        let (mac, devs, next) = wire_right-some parse_mac r l ip w w' to e h in
        (next, λ q. grown q (right_iface r l mac w.next_port ip) w.next_port refl to e devs)
  ]
    where
      grown :
          (q : ℕ) (i : Iface NetIp) (p : ℕ)
          → i.local_port ≡ p
          → (to : HostDevice Ip NetIp) → lookup l.to w.devices ≡ some to
          → w'.devices ≡ insert l.to (with_iface to i) w.devices
          → listeners q w'.devices ≤ listeners q w.devices + at_port q p
      grown q i p e to look devs =
          rw (devs, ← e)
            (omega (arith, total-with_iface (listens q) l.to to i w.devices look, listens_le q i))

  -- What a round does, from the next port `p` on: nothing new listens, or one port is taken and two
  -- ends may listen, on that port and on the one that lies above it by the gap.
  Round : ℕ → Dict (HostDevice Ip NetIp) → Wiring Ip NetIp → Type 0
  Round p devs w' =
      ((w'.next_port ≡ p) × ((q : ℕ) → listeners q w'.devices ≤ listeners q devs))
      ⊎ ((w'.next_port ≡ (p + 1) % 2 ^ 64)
          × ((q : ℕ)
              → listeners q w'.devices
                ≤ listeners q devs + at_port q p + at_port q ((p + gap r) % 2 ^ 64)))

  -- An interface on a network listens nowhere.
  network-Round :
      (l : Link) (from : HostDevice Ip NetIp) (mac network : Bytes) (w w' : Wiring Ip NetIp)
      → lookup l.from w.devices ≡ some from
      → ◌≡◌ {A = Outcome Error (Wiring Ip NetIp)}
          (ok (add_interface l.from from (network_iface l.from_port mac network) w))
          (ok w')
      → Round w.next_port w.devices w'
  unfolding Round add_interface network_iface listens
  network-Round l from mac network w w' look h =
      let s = sym (ok-injective h) in
      inl (
        ap (λ (x : Wiring Ip NetIp). x.next_port) s,
        λ q. omega (
          arith,
          ap (λ (x : Wiring Ip NetIp). listeners q x.devices) s,
          total-with_iface (listens q) l.from from (network_iface l.from_port mac network) w.devices
              look,
        ),
      )

  wire_left-Round :
      (l : Link) (from : HostDevice Ip NetIp) (mac : Bytes) (w w' : Wiring Ip NetIp)
      → lookup l.from w.devices ≡ some from
      → wire_left parse_mac r l from mac w ≡ ok w'
      → Round w.next_port w.devices w'
  unfolding wire_left Round add_interface left_iface
  wire_left-Round l from mac w w' look h = elim (Bool-cases (is_uplink l)) [
    | inl e ↦ network-Round l from mac (codes "default") w w' look (rw (e, wire_left) at h)
    | inr e ↦ elim (Bool-cases (is_network_link l)) [
      | inl f ↦ network-Round l from mac l.to w w' look (rw (e, f, wire_left) at h)
      | inr f ↦
          let i =
            left_iface r l mac w.next_port (tunnel_ip_or r.tunnel_ip (lookup l.to w.devices)) in
          let (next, right) =
            wire_right-listeners l from.tunnel_ip (add_interface l.from from i w) w'
              (sym (wire_left-tunnel parse_mac r l from mac w e f) ∙ h) in
          inr (
            next,
            λ q. omega (
              arith,
              right q,
              listens_le q i,
              total-with_iface (listens q) l.from from i w.devices look,
            ),
          )
    ]
  ]

  wire_link-Round :
      (l : Link) (w w' : Wiring Ip NetIp)
      → wire_link parse_mac r l w ≡ ok w'
      → Round w.next_port w.devices w'
  unfolding wire_link Round
  wire_link-Round l w w' h = elim (Option-cases (lookup l.from w.devices)) [
    | inl e ↦ right_only (wire_right-listeners l r.tunnel_ip w w' (rw (e, wire_link) at h))
    | inr (from, e) ↦
        let ((mac, v), first, rest) =
          >>=-eq-ok (mac_or_new (from_mac parse_mac l) w) _ (rw (e, wire_link) at h) in
        let (devs, port) = mac_or_new-keeps (from_mac parse_mac l) w first in
        subst (λ p. Round p w.devices w') port
          (subst (λ ds. Round v.next_port ds w') devs
            (wire_left-Round l from mac v w' (ap (lookup l.from) devs ∙ e) rest))
  ]
    where
      right_only :
          (w'.next_port ≡ (w.next_port + 1) % 2 ^ 64)
            × ((q : ℕ) → listeners q w'.devices ≤ listeners q w.devices + at_port q w.next_port)
          → Round w.next_port w.devices w'
      right_only (next, f) = inr (next, λ q. omega (arith, f q))

  -- The rounds for `n` links, where the ports do not wrap around.
  wire_links-listeners :
      (ls : List Link) (w w' : Wiring Ip NetIp)
      → w.next_port + gap r + length ls < 2 ^ 64
      → wire_links parse_mac r ls w ≡ ok w'
      → (q : ℕ)
      → listeners q w'.devices
        ≤ listeners q w.devices
          + among_next q w.next_port (length ls)
          + among_next q (w.next_port + gap r) (length ls)
  unfolding wire_links Round
  wire_links-listeners [] w w' small h q =
      omega (arith, ap (λ (x : Wiring Ip NetIp). listeners q x.devices) (ok-injective h))
  wire_links-listeners (l ∷ ls) w w' small h q =
      let (v, first, rest) = >>=-eq-ok (wire_link parse_mac r l w) _ h in
      step v (wire_link-Round l w v first) (λ s. wire_links-listeners ls v w' s rest q)
    where
      step :
          (v : Wiring Ip NetIp)
          → Round w.next_port w.devices v
          → (v.next_port + gap r + length ls < 2 ^ 64
              → listeners q w'.devices
                ≤ listeners q v.devices
                  + among_next q v.next_port (length ls)
                  + among_next q (v.next_port + gap r) (length ls))
          → listeners q w'.devices
            ≤ listeners q w.devices
              + among_next q w.next_port (suc (length ls))
              + among_next q (w.next_port + gap r) (suc (length ls))
      step v (inl (next, f)) ih =
          same_bound (listeners q w'.devices) _ (listeners q v.devices) q w.next_port v.next_port
            (gap r) (length ls) next (f q) (ih (omega (arith, next)))
      step v (inr (next, f)) ih =
          next_bound (listeners q w'.devices) _ (listeners q v.devices) q w.next_port v.next_port
            (gap r) (length ls) (omega arith) next (f q) (ih (omega (arith, next)))

  -- Where no device has an interface that listens at the start, the links are no more than the gap,
  -- and the ports stay below 2 ^ 64: after the loop over the links, where it returns, no two
  -- interfaces of all devices listen on one port.
  pub wire_links-one_listener :
      (ls : List Link) (w w' : Wiring Ip NetIp)
      → ((q : ℕ) → listeners q w.devices ≡ 0)
      → length ls ≤ gap r
      → w.next_port + gap r + length ls < 2 ^ 64
      → wire_links parse_mac r ls w ≡ ok w'
      → (q : ℕ) → listeners q w'.devices ≤ 1
  wire_links-one_listener ls w w' silent few small h q = omega (
    arith,
    silent q,
    wire_links-listeners ls w w' small h q,
    among_next-apart q w.next_port (gap r) (length ls) few,
  )
