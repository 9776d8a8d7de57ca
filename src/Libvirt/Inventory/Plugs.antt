-- ===== src/Libvirt/Inventory/Plugs.antt =====
-- The loop over the links of `buildInventory` in runner/libvirt/runner.go, by how many interfaces it gives
-- a device.
use runtopo.Prelude.{
  ℕ, ◌+◌, ◌≤◌, ◌<◌, ◌≡◌, refl, sym, ap, ◌∙◌, subst, false, Bytes, codes, str_eq, str_eq_iff, Option,
  none, some, List, [], ◌∷◌, arith, Outcome, ok, >>=-eq-ok, ok-injective, if◌then◌else◌, Bool-cases,
  Option-cases, ◌⊎◌, inl, inr,
}
use runtopo.Prelude.Dict.{Dict, lookup, insert, lookup-insert}
use runtopo.Errors.{Error}
use runtopo.Topology.Link.{Link, from_mac}
use runtopo.Libvirt.Device.{Iface, HostDevice}
use runtopo.Libvirt.Runner.{Runner}
use runtopo.Libvirt.Inventory.{
  Wiring, mac_or_new, add_interface, bump_port, tunnel_ip_or, left_iface, right_iface,
  network_iface, wire_right, is_uplink, is_network_link, wire_left, wire_link, wire_links,
}
use runtopo.Libvirt.Inventory.Wires.{
  mac_or_new-keeps, wire_right-some, with_iface, wire_left-tunnel,
}
use runtopo.Libvirt.Inventory.Sums.{sum_of, sum_of-append}

-- The link gives an interface to the device of that name.
abbrev pub Plugs : Bytes → Link → Type 0
Plugs k l = (l.from ≡ k) ⊎ ((l.to ≡ k) × (is_uplink l ≡ false) × (is_network_link l ≡ false))

abbrev pub AnyPlugs : Bytes → List Link → Type 0
AnyPlugs k [] = ⊥
AnyPlugs k (l ∷ ls) = Plugs k l ⊎ AnyPlugs k ls

-- 1 if the names are equal.
abbrev hit : Bytes → Bytes → ℕ
hit j k = if str_eq j k then 1 else 0

hit_own : (k : Bytes) → hit k k ≡ 1
hit_own k = rw ((str_eq_iff k k).1 refl)

module _ {Ip NetIp : Type 0} where
  -- How many interfaces the device has, and 1 where there is none of that name.
  unfoldable pub plugs_of : Option (HostDevice Ip NetIp) → ℕ
  plugs_of none = 1
  plugs_of (some d) = sum_of (λ i. 1) d.interfaces

  abbrev pub plugs : Bytes → Dict (HostDevice Ip NetIp) → ℕ
  plugs k m = plugs_of (lookup k m)

  plugs-with_iface :
      (j k : Bytes) (d : HostDevice Ip NetIp) (i : Iface NetIp) (m : Dict (HostDevice Ip NetIp))
      → lookup j m ≡ some d
      → plugs k (insert j (with_iface d i) m) ≡ plugs k m + hit j k
  unfolding plugs_of
  plugs-with_iface j k d i m h = elim (Bool-cases (str_eq j k)) [
    | inl s ↦
        let found : lookup k m ≡ some d =
          subst (λ x. lookup x m ≡ some d) ((str_eq_iff j k).0 s) h in
        rw (lookup-insert, s, found, plugs_of) (sum_of-append (λ i. 1) d.interfaces (i ∷ []))
    | inr s ↦ rw (lookup-insert, s) (omega arith)
  ]

  -- What a piece of a round does to the device `k`.
  abbrev Rises : Bytes → Wiring Ip NetIp → Wiring Ip NetIp → Type 0
  Rises k w v = plugs k w.devices ≤ plugs k v.devices

  -- An interface more for the device `j`.
  add_interface-Rises :
      (j k : Bytes) (d : HostDevice Ip NetIp) (i : Iface NetIp) (w : Wiring Ip NetIp)
      → lookup j w.devices ≡ some d
      → Rises k w (add_interface j d i w) × (hit j k ≤ plugs k (add_interface j d i w).devices)
  unfolding add_interface
  add_interface-Rises j k d i w h = omega (arith, plugs-with_iface j k d i w.devices h)

  -- A device that is not there.
  absent : (k : Bytes) (m : Dict (HostDevice Ip NetIp)) → lookup k m ≡ none → 0 < plugs k m
  unfolding plugs_of
  absent k m h = rw h (omega arith)

module _ {Ip NetIp : Type 0} (parse_mac : Bytes → Option Bytes) (r : Runner Ip NetIp)
    (k : Bytes) where
  wire_right-Rises :
      (l : Link) (ip : NetIp) (w w' : Wiring Ip NetIp)
      → wire_right parse_mac r l ip w ≡ ok w'
      → Rises k w w' × (l.to ≡ k → 0 < plugs k w'.devices)
  unfolding wire_right bump_port
  wire_right-Rises l ip w w' h = elim (Option-cases (lookup l.to w.devices)) [
    | inl e ↦
        let q = ok-injective (rw (e, wire_right) at h) in
        (
          omega (arith, ap (λ (x : Wiring Ip NetIp). plugs k x.devices) q),
          λ s.
              subst (λ (x : Wiring Ip NetIp). 0 < plugs k x.devices) q
                (absent k w.devices (subst (λ x. lookup x w.devices ≡ none) s e)),
        )
    | inr (to, e) ↦
        let (mac, devs, _) = wire_right-some parse_mac r l ip w w' to e h in
        let grown = plugs-with_iface l.to k to (right_iface r l mac w.next_port ip) w.devices e in
        (
          omega (arith, grown, ap (plugs k) devs),
          λ s. omega (arith, grown, ap (plugs k) devs, ap (λ x. hit x k) s, hit_own k),
        )
  ]

  wire_left-Rises :
      (l : Link) (from : HostDevice Ip NetIp) (mac : Bytes) (w w' : Wiring Ip NetIp)
      → lookup l.from w.devices ≡ some from
      → wire_left parse_mac r l from mac w ≡ ok w'
      → Rises k w w' × (Plugs k l → 0 < plugs k w'.devices)
  unfolding wire_left
  wire_left-Rises l from mac w w' look h = elim (Bool-cases (is_uplink l)) [
    | inl e ↦ on_network (codes "default") (rw (e, wire_left) at h) (λ (_, f, _). cc)
    | inr e ↦ elim (Bool-cases (is_network_link l)) [
      | inl f ↦ on_network l.to (rw (e, f, wire_left) at h) (λ (_, _, g). cc)
      | inr f ↦
          let i =
            left_iface r l mac w.next_port (tunnel_ip_or r.tunnel_ip (lookup l.to w.devices)) in
          let (a, b) = add_interface-Rises l.from k from i w look in
          let (c, d) =
            wire_right-Rises l from.tunnel_ip (add_interface l.from from i w) w'
              (sym (wire_left-tunnel parse_mac r l from mac w e f) ∙ h) in
          (
            omega (arith, a, c),
            λ p. elim p [
              | inl s ↦ omega (arith, b, c, ap (λ x. hit x k) s, hit_own k)
              | inr (s, _, _) ↦ d s
            ],
          )
    ]
  ]
    where
      on_network :
          (network : Bytes)
          → ◌≡◌ {A = Outcome Error (Wiring Ip NetIp)}
              (ok (add_interface l.from from (network_iface l.from_port mac network) w))
              (ok w')
          → ¬ ((l.to ≡ k) × (is_uplink l ≡ false) × (is_network_link l ≡ false))
          → Rises k w w' × (Plugs k l → 0 < plugs k w'.devices)
      on_network network g nowhere =
          let (a, b) =
            add_interface-Rises l.from k from (network_iface l.from_port mac network) w look in
          let q = ap (λ (x : Wiring Ip NetIp). plugs k x.devices) (ok-injective g) in
          (
            omega (arith, a, q),
            λ p. elim p [
              | inl s ↦ omega (arith, b, q, ap (λ x. hit x k) s, hit_own k)
              | inr away ↦ absurd (nowhere away)
            ],
          )

  wire_link-Rises :
      (l : Link) (w w' : Wiring Ip NetIp)
      → wire_link parse_mac r l w ≡ ok w'
      → Rises k w w' × (Plugs k l → 0 < plugs k w'.devices)
  unfolding wire_link
  wire_link-Rises l w w' h = elim (Option-cases (lookup l.from w.devices)) [
    | inl e ↦
        let (a, b) = wire_right-Rises l r.tunnel_ip w w' (rw (e, wire_link) at h) in
        (
          a,
          λ p. elim p [
            | inl s ↦
                omega (arith, a, absent k w.devices (subst (λ x. lookup x w.devices ≡ none) s e))
            | inr (s, _, _) ↦ b s
          ],
        )
    | inr (from, e) ↦
        let ((mac, v), first, rest) =
          >>=-eq-ok (mac_or_new (from_mac parse_mac l) w) _ (rw (e, wire_link) at h) in
        let (devs, _) = mac_or_new-keeps (from_mac parse_mac l) w first in
        let (a, b) = wire_left-Rises l from mac v w' (ap (lookup l.from) devs ∙ e) rest in
        (omega (arith, a, ap (plugs k) devs), b)
  ]

  wire_links-Rises :
      (ls : List Link) (w w' : Wiring Ip NetIp) → wire_links parse_mac r ls w ≡ ok w' → Rises k w w'
  unfolding wire_links
  wire_links-Rises [] w w' h =
      omega (arith, ap (λ (x : Wiring Ip NetIp). plugs k x.devices) (ok-injective h))
  wire_links-Rises (l ∷ ls) w w' h =
      let (v, first, rest) = >>=-eq-ok (wire_link parse_mac r l w) _ h in
      let (a, _) = wire_link-Rises l w v first in omega (arith, a, wire_links-Rises ls v w' rest)

  -- After the loop a device that a link plugs in has an interface.
  pub wire_links-plugged :
      (ls : List Link) (w w' : Wiring Ip NetIp)
      → AnyPlugs k ls
      → wire_links parse_mac r ls w ≡ ok w'
      → 0 < plugs k w'.devices
  unfolding wire_links
  wire_links-plugged [] w w' i h = absurd i
  wire_links-plugged (l ∷ ls) w w' (inr i) h =
      let (v, first, rest) = >>=-eq-ok (wire_link parse_mac r l w) _ h in
      wire_links-plugged ls v w' i rest
  wire_links-plugged (l ∷ ls) w w' (inl p) h =
      let (v, first, rest) = >>=-eq-ok (wire_link parse_mac r l w) _ h in
      let (_, b) = wire_link-Rises l w v first in omega (arith, b p, wire_links-Rises ls v w' rest)
