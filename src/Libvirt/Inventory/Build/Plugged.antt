-- ===== src/Libvirt/Inventory/Build/Plugged.antt =====
-- `buildInventory` of runner/libvirt/runner.go and `gatherHosts` of runner/libvirt/customize.go: the first
-- interface of a device, which the second reads, is there.
use runtopo.Prelude.{
  ◌<◌, ◌≡◌, refl, sym, ap, ◌∙◌, Bool, true, Bytes, str_eq, Option, some, List, [], ◌∷◌, All, arith,
  Outcome, ok, err, panic, >>=-eq-ok, ok-injective, Bool-cases, ◌⊎◌, inl, inr,
}
use runtopo.Prelude.Dict.{Dict, lookup}
use runtopo.Errors.{Error}
use runtopo.Topology.Netaddr.{Netaddr}
use runtopo.Topology.Topo.{Topo, devices, links}
use runtopo.Topology.Link.{Link}
use runtopo.Libvirt.Device.{HostDevice}
use runtopo.Libvirt.Runner.{Runner}
use runtopo.Libvirt.Inventory.{wire_links}
use runtopo.Libvirt.Inventory.Devices.{add_host_devices}
use runtopo.Libvirt.Inventory.Sort.{sort_interfaces}
use runtopo.Libvirt.Inventory.Sums.{sum_of}
use runtopo.Libvirt.Inventory.Build.{sort_devices, build_inventory}
use runtopo.Libvirt.Inventory.Build.Kept.{sum_of-sort_interfaces}
use runtopo.Libvirt.Customize.Hosts.{
  EtherHost, is_oob_name, gather_hosts, AnyBare, Ends, gather_hosts-Ends,
}
use runtopo.Libvirt.Inventory.Plugs.{AnyPlugs, plugs_of, plugs, wire_links-plugged}

module _ {Ip NetIp : Type 0} where
  plugs-sort_devices :
      (k : Bytes) (m m' : Dict (HostDevice Ip NetIp))
      → sort_devices m ≡ ok m'
      → plugs k m' ≡ plugs k m
  unfolding sort_devices lookup plugs_of
  plugs-sort_devices k [] m' h = ap (λ x. plugs k x) (sym (ok-injective h))
  plugs-sort_devices k ((j, d) ∷ m) m' h =
      let (sorted, e, p) = >>=-eq-ok (sort_interfaces d.interfaces) _ h in
      let (rest, e', p') = >>=-eq-ok (sort_devices m) _ p in
      ap (λ x. plugs k x) (sym (ok-injective p')) ∙ elim (Bool-cases (str_eq j k)) [
        | inl s ↦ rw s (sum_of-sort_interfaces (λ i. 1) d.interfaces sorted e)
        | inr s ↦ rw s (plugs-sort_devices k m rest e')
      ]

-- Each of the names is one of the two of the management network, or a link plugs the device in.
abbrev pub AllPlugged : List Bytes → List Link → Type 0
AllPlugged names ls = All (λ k. (is_oob_name k ≡ true) ⊎ AnyPlugs k ls) names

module _ (N : Netaddr) {NetIp : Type 0} (parse_ip : Bytes → Option NetIp)
    (parse_mac : Bytes → Option Bytes) where
  build_inventory-plugged :
      (order : List Bytes) (t : Topo N) (r r' : Runner N.Ip NetIp) (k : Bytes)
      → AnyPlugs k (links N t)
      → build_inventory N parse_ip parse_mac order t r ≡ ok r'
      → 0 < plugs k r'.devices
  unfolding build_inventory
  build_inventory-plugged order t r r' k i h =
      let (s, first, h₁) = >>=-eq-ok (add_host_devices parse_ip (devices N t order) r) _ h in
      let (w, second, h₂) = >>=-eq-ok (wire_links parse_mac s (links N t) _) _ h₁ in
      let (m, third, h₃) = >>=-eq-ok (sort_devices w.devices) _ h₂ in
      omega (
        arith,
        wire_links-plugged parse_mac s k (links N t) _ w i second,
        plugs-sort_devices k w.devices m third,
        ap (λ (x : Runner N.Ip NetIp). plugs k x.devices) (ok-injective h₃),
      )

  none_bare :
      (names : List Bytes) (order : List Bytes) (t : Topo N) (r r' : Runner N.Ip NetIp)
      → AllPlugged names (links N t)
      → build_inventory N parse_ip parse_mac order t r ≡ ok r'
      → (is_zero : N.Ip → Bool) → ¬ AnyBare is_zero r'.devices names
  unfolding plugs_of
  none_bare [] order t r r' all h z b = b
  none_bare (k ∷ names) order t r r' (p, all) h z (inr b) = none_bare names order t r r' all h z b
  none_bare (k ∷ names) order t r r' (inl oob, all) h z (inl b) = cc (oob, b.not_oob)
  none_bare (k ∷ names) order t r r' (inr i, all) h z (inl b) = has_one b.device b.there b.bare
    where
      has_one : (d : HostDevice N.Ip NetIp) → lookup k r'.devices ≡ some d → d.interfaces ≡ [] → ⊥
      has_one d e bare = absurd (
          omega (
            arith,
            build_inventory-plugged order t r r' k i h,
            ap plugs_of e,
            ap (sum_of (λ i. 1)) bare,
          ))

  -- Where `buildInventory` has returned no error, and a link plugs in each device that the range of
  -- `gatherHosts` visits, but for the two of the management network: `gatherHosts` returns a list.
  pub gather_hosts-returns :
      (order names : List Bytes) (t : Topo N) (r r' : Runner N.Ip NetIp) (is_zero : N.Ip → Bool)
      → AllPlugged names (links N t)
      → build_inventory N parse_ip parse_mac order t r ≡ ok r'
      → (hosts : List (EtherHost N.Ip)) × (gather_hosts is_zero names r'.devices ≡ ok hosts)
  gather_hosts-returns order names t r r' is_zero all h =
      by_end (gather_hosts is_zero names r'.devices) refl
        (gather_hosts-Ends is_zero names r'.devices)
    where
      by_end :
          (q : Outcome Error (List (EtherHost N.Ip)))
          → gather_hosts is_zero names r'.devices ≡ q
          → Ends is_zero r'.devices names q
          → (hosts : List (EtherHost N.Ip)) × (gather_hosts is_zero names r'.devices ≡ ok hosts)
      by_end (ok hosts) e _ = (hosts, e)
      by_end (err x) e f = absurd f
      by_end panic e f = absurd (none_bare names order t r r' all h is_zero f)
