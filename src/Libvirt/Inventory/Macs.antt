-- ===== src/Libvirt/Inventory/Macs.antt =====
-- The MAC addresses that the loop over the links gives the interfaces: `allocateMAC` of `buildInventory`.
use runtopo.Prelude.{
  ℕ, ◌+◌, ◌≤◌, ◌<◌, ◌≡◌, ◌≢◌, sym, ap, ◌∙◌, ◌&&◌, Bytes, codes, str_eq, str_eq_iff, str_eq_of_ne,
  Option, none, some, List, [], ◌∷◌, ltb, leb, arith, ok, >>=-eq-ok, ok-injective, ok-pair,
  if◌then◌else◌, Bool-cases, Option-cases, inl, inr, All, subst,
}
use runtopo.Prelude.Dict.{lookup}
use runtopo.Topology.Link.{Link, from_mac, to_mac}
use runtopo.Libvirt.Device.{Iface, HostDevice}
use runtopo.Libvirt.Mac.{mac_addr_from_uint64, mac_int_from, mac_int_from-mac_addr, mac_addr_small}
use runtopo.Libvirt.Runner.{Runner}
use runtopo.Libvirt.Inventory.{
  Wiring, allocate_mac, mac_or_new, add_interface, bump_port, tunnel_ip_or, left_iface, right_iface,
  network_iface, wire_right, is_uplink, is_network_link, wire_left, wire_link, wire_links,
}
use runtopo.Libvirt.Inventory.Sums.{total, total-with_iface}
use runtopo.Libvirt.Inventory.Wires.{mac_or_new-keeps, wire_left-tunnel}

-- 1 if the two addresses are one.
abbrev pub same_mac : Bytes → Bytes → ℕ
same_mac mac m = if str_eq mac m then 1 else 0

-- How many interfaces of all devices have the address.
abbrev pub holders : {Ip NetIp : Type 0} → Bytes → Wiring Ip NetIp → ℕ
holders m w = total (λ i. same_mac i.mac m) w.devices

-- 1 for an address whose number is one of those from `a` on and below `b`.
abbrev pub handed_out : Bytes → ℕ → ℕ → ℕ
handed_out m a b = if leb a (mac_int_from 0 m) && ltb (mac_int_from 0 m) b then 1 else 0

-- The link states the address for neither of its ends.
abbrev pub Unstated : (Bytes → Option Bytes) → Bytes → Link → Type 0
Unstated parse_mac m l = (from_mac parse_mac l ≢ some m) × (to_mac parse_mac l ≢ some m)

handed_out-split :
    (m : Bytes) (a b c : ℕ) → a ≤ b → b ≤ c → handed_out m a b + handed_out m b c ≤ handed_out m a c
handed_out-split m a b c h k = ground arith

same_mac_le :
    (m mac : Bytes) (a b : ℕ) → mac_int_from 0 mac ≡ a → a < b → same_mac mac m ≤ handed_out m a b
same_mac_le m mac a b e h = elim (Bool-cases (str_eq mac m)) [
  | inl s ↦
      let number : mac_int_from 0 m ≡ a = ap (mac_int_from 0) (sym ((str_eq_iff mac m).0 s)) ∙ e in
      ground arith
  | inr s ↦ rw s (omega arith)
]

module _ {Ip NetIp : Type 0} (m : Bytes) where
  -- What a piece of the loop does to the holders of the address, which no link states for it; where
  -- `n` of them have got the address, but not yet an interface.
  Gives : ℕ → Wiring Ip NetIp → Wiring Ip NetIp → Type 0
  Gives n w v =
      (w.mac_int ≤ v.mac_int) × (holders m v + n ≤ holders m w + handed_out m w.mac_int v.mac_int)

  Gives-refl : (w : Wiring Ip NetIp) → Gives 0 w w
  unfolding Gives
  Gives-refl w = omega arith

  Gives-trans : (u v w : Wiring Ip NetIp) → Gives 0 u v → Gives 0 v w → Gives 0 u w
  unfolding Gives
  Gives-trans u v w (a, b) (c, d) =
      omega (arith, a, b, c, d, handed_out-split m u.mac_int v.mac_int w.mac_int a c)

  -- The choice of an address.
  mac_or_new-Gives :
      (o : Option Bytes) (w v : Wiring Ip NetIp) (mac : Bytes)
      → o ≢ some m
      → mac_or_new o w ≡ ok (mac, v)
      → Gives (same_mac mac m) w v
  unfolding Gives mac_or_new allocate_mac
  mac_or_new-Gives (some s) w v mac other h =
      let (e, q) = ok-pair h in
      let differs = str_eq_of_ne mac m (λ p. other (ap some (sym e ∙ p))) in rw differs (ap_state q)
    where
      ap_state :
          ◌≡◌ {A = Wiring Ip NetIp} v w
          → (w.mac_int ≤ v.mac_int)
            × (holders m v + 0 ≤ holders m w + handed_out m w.mac_int v.mac_int)
      ap_state q = omega (
        arith,
        ap (λ (x : Wiring Ip NetIp). x.mac_int) q,
        ap (λ (x : Wiring Ip NetIp). holders m x) q,
      )
  mac_or_new-Gives none w v mac other h =
      let (a, first, rest) = >>=-eq-ok (mac_addr_from_uint64 w.mac_int) _ h in
      let (e, q) = ok-pair rest in
      let next = ap (λ (x : Wiring Ip NetIp). x.mac_int) q in
      let small = mac_addr_small w.mac_int a first in
      (
        omega (arith, next, small),
        omega (
          arith,
          ap (λ (x : Wiring Ip NetIp). holders m x) q,
          same_mac_le m mac w.mac_int v.mac_int
              (ap (mac_int_from 0) e ∙ mac_int_from-mac_addr w.mac_int a first)
              (omega (arith, next, small)),
        ),
      )

  -- An interface with the address.
  add_interface-Gives :
      (k : Bytes) (d : HostDevice Ip NetIp) (i : Iface NetIp) (u w : Wiring Ip NetIp)
      → lookup k w.devices ≡ some d
      → Gives (same_mac i.mac m) u w
      → Gives 0 u (add_interface k d i w)
  unfolding Gives add_interface
  add_interface-Gives k d i u w look (a, b) =
      (a, omega (arith, b, total-with_iface (λ j. same_mac j.mac m) k d i w.devices look))

module _ {Ip NetIp : Type 0} (m : Bytes) (parse_mac : Bytes → Option Bytes)
    (r : Runner Ip NetIp) where
  wire_right-Gives :
      (l : Link) (ip : NetIp) (w w' : Wiring Ip NetIp)
      → Unstated parse_mac m l
      → wire_right parse_mac r l ip w ≡ ok w'
      → Gives m 0 w w'
  unfolding wire_right Gives bump_port right_iface
  wire_right-Gives l ip w w' (_, free) h = elim (Option-cases (lookup l.to w.devices)) [
    | inl e ↦ subst (Gives m 0 w) (ok-injective (rw (e, wire_right) at h)) (Gives-refl m w)
    | inr (to, e) ↦
        let ((mac, v), first, rest) =
          >>=-eq-ok (mac_or_new (to_mac parse_mac l) w) _ (rw (e, wire_right) at h) in
        let (devs, _) = mac_or_new-keeps (to_mac parse_mac l) w first in
        subst (Gives m 0 w) (ok-injective rest) (
          add_interface-Gives m l.to to (right_iface r l mac v.next_port ip) w v
            (ap (lookup l.to) devs ∙ e)
            (mac_or_new-Gives m (to_mac parse_mac l) w v mac free first))
  ]

  wire_left-Gives :
      (l : Link) (from : HostDevice Ip NetIp) (mac : Bytes) (u w w' : Wiring Ip NetIp)
      → Unstated parse_mac m l
      → lookup l.from w.devices ≡ some from
      → Gives m (same_mac mac m) u w
      → wire_left parse_mac r l from mac w ≡ ok w'
      → Gives m 0 u w'
  unfolding wire_left left_iface network_iface
  wire_left-Gives l from mac u w w' free look g h = elim (Bool-cases (is_uplink l)) [
    | inl e ↦
        subst (Gives m 0 u) (ok-injective (rw (e, wire_left) at h))
          (added (network_iface l.from_port mac (codes "default")) g)
    | inr e ↦ elim (Bool-cases (is_network_link l)) [
      | inl f ↦
          subst (Gives m 0 u) (ok-injective (rw (e, f, wire_left) at h))
            (added (network_iface l.from_port mac l.to) g)
      | inr f ↦
          let i =
            left_iface r l mac w.next_port (tunnel_ip_or r.tunnel_ip (lookup l.to w.devices)) in
          Gives-trans m u (add_interface l.from from i w) w' (added i g) (
            wire_right-Gives l from.tunnel_ip (add_interface l.from from i w) w' free
              (sym (wire_left-tunnel parse_mac r l from mac w e f) ∙ h))
    ]
  ]
    where
      added :
          (i : Iface NetIp)
          → Gives m (same_mac i.mac m) u w
          → Gives m 0 u (add_interface l.from from i w)
      added i k = add_interface-Gives m l.from from i u w look k

  wire_link-Gives :
      (l : Link) (w w' : Wiring Ip NetIp)
      → Unstated parse_mac m l
      → wire_link parse_mac r l w ≡ ok w'
      → Gives m 0 w w'
  unfolding wire_link
  wire_link-Gives l w w' free h = elim (Option-cases (lookup l.from w.devices)) [
    | inl e ↦ wire_right-Gives l r.tunnel_ip w w' free (rw (e, wire_link) at h)
    | inr (from, e) ↦
        let ((mac, v), first, rest) =
          >>=-eq-ok (mac_or_new (from_mac parse_mac l) w) _ (rw (e, wire_link) at h) in
        let (devs, _) = mac_or_new-keeps (from_mac parse_mac l) w first in
        wire_left-Gives l from mac w v w' free (ap (lookup l.from) devs ∙ e)
          (mac_or_new-Gives m (from_mac parse_mac l) w v mac free.0 first) rest
  ]

  wire_links-Gives :
      (ls : List Link) (w w' : Wiring Ip NetIp)
      → All (Unstated parse_mac m) ls
      → wire_links parse_mac r ls w ≡ ok w'
      → Gives m 0 w w'
  unfolding wire_links
  wire_links-Gives [] w w' _ h = subst (Gives m 0 w) (ok-injective h) (Gives-refl m w)
  wire_links-Gives (l ∷ ls) w w' (free, rest) h =
      let (v, first, more) = >>=-eq-ok (wire_link parse_mac r l w) _ h in
      Gives-trans m w v w' (wire_link-Gives l w v free first) (wire_links-Gives ls v w' rest more)

  -- An address that no link states for one of its ends, and that no interface has at the start: after
  -- the loop over the links, where it returns, one interface of all devices has it at most, and none
  -- if its number is not one of those that `allocateMAC` went through, from the base on.
  pub wire_links-one_holder :
      (ls : List Link) (w w' : Wiring Ip NetIp)
      → All (Unstated parse_mac m) ls
      → holders m w ≡ 0
      → wire_links parse_mac r ls w ≡ ok w'
      → (w.mac_int ≤ w'.mac_int) × (holders m w' ≤ handed_out m w.mac_int w'.mac_int)
  unfolding Gives
  wire_links-one_holder ls w w' free new h =
      let (a, b) = wire_links-Gives ls w w' free h in (a, omega (arith, b, new))
