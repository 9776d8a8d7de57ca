-- ===== src/Topology/AutoMgmt/Setup.antt =====
-- What `setupAutoMgmtNetwork` leaves behind when it returns no error.
use runtopo.Prelude.{
  ◌⊎◌, none, refl, ◌≡◌, sym, ap, subst, ◌∙◌, true, false, Bytes, some, List, [], ◌∷◌, ◌++◌, arith,
  ok, >>=-eq-ok, ok-pair, ok-injective, if◌then◌else◌, str_eq, Bool-cases, Option-cases, inl, inr,
  codes, In,
}
use runtopo.Prelude.Dict.{Dict, lookup, insert, lookup-insert}
use runtopo.Topology.Device.{Device, attr}
use runtopo.Topology.Link.{Link}
use runtopo.Topology.Netaddr.{Netaddr, IsNetaddr}
use runtopo.Topology.IpAllocator.{IpAllocator, new_ip_allocator, reserve}
use runtopo.Topology.IpAllocator.Laws.{free, free-new, free-reserve}
use runtopo.Topology.Topo.{Topo}
use runtopo.Topology.AutoMgmt.{
  server_name, switch_name, server_uplink, switch_mgmt_link, server_switch_link, new_server,
  new_switch, find_or_add, reserve_explicit, reserve_all, wire_all, is_attached,
  setup_auto_mgmt_network,
}
use runtopo.Topology.AutoMgmt.Addresses.{
  IsUsable, HasIp, IsAssigned, reserve_explicit-Settles, reserve_all-IsAssigned,
}
use runtopo.Topology.AutoMgmt.Wiring.{Settles-SameDevice, wire_all-Wired}
use runtopo.Topology.AutoMgmt.Wiring.Names.{
  number_links, attached_name, attached_names, attached_names_congr, attached_name-some,
  attached_name-insert,
}

module _ (N : Netaddr) (L : IsNetaddr N) where
  open N use {Ip, IpPrefix, ip_eq, is_zero, prefix_ip, parse_ip_prefix}

  -- No device has an address yet.
  abbrev pub HasNoIps : Dict (Device Ip) → Type 0
  HasNoIps devs = (k : Bytes) (d : Device Ip) → lookup k devs ≡ some d → is_zero d.mgmt_ip ≡ true

  find_or_add-HasNoIps :
      (key : Bytes) (new : Device Ip) (devs : Dict (Device Ip))
      → is_zero new.mgmt_ip ≡ true
      → HasNoIps devs
      → HasNoIps (find_or_add N key new devs).1
  unfolding find_or_add
  find_or_add-HasNoIps key new devs z h k d look = elim (Option-cases (lookup key devs)) [
    | inl e ↦ elim (Bool-cases (str_eq key k)) [
      | inl f ↦ new_zero (rw (lookup-insert, f) at (rw (e, find_or_add) at look))
      | inr f ↦ h k d (rw (lookup-insert, f) at (rw (e, find_or_add) at look))
    ]
    | inr (c, e) ↦ h k d (rw (e, find_or_add) at look)
  ]
    where
      new_zero : some new ≡ some d → is_zero d.mgmt_ip ≡ true
      new_zero q = ground arith

  reserve_all-attached_name :
      (p : IpPrefix) (j : Bytes) (order : List Bytes) (devs : Dict (Device Ip)) (a : IpAllocator N)
      (devs' : Dict (Device Ip)) (b : IpAllocator N)
      → reserve_all N order devs a ≡ ok (devs', b)
      → attached_name N (lookup j devs') ≡ attached_name N (lookup j devs)
  unfolding reserve_all
  reserve_all-attached_name p j [] devs a devs' b h =
      ap (λ x. attached_name N (lookup j x)) (ok-pair h).0
  reserve_all-attached_name p j (k ∷ order) devs a devs' b h = elim (Option-cases (lookup k devs)) [
    | inl e ↦ reserve_all-attached_name p j order devs a devs' b (rw (e, reserve_all) at h)
    | inr (d, e) ↦
        let ((d', c), step, rest) =
          >>=-eq-ok (reserve_explicit N d a) _ (rw (e, reserve_all) at h) in
        reserve_all-attached_name p j order (insert k d' devs) c devs' b rest
        ∙ attached_name-insert N devs k j d d' e
            (Settles-SameDevice N L p d d' a c (reserve_explicit-Settles N L p d a d' c step))
  ]

  start-IsAssigned :
      (p : IpPrefix) (devs : Dict (Device Ip))
      → HasNoIps devs
      → IsAssigned N L p devs (reserve N (new_ip_allocator N p) (prefix_ip p)).0
  start-IsAssigned p devs h = record {
    usable = λ k d look has. absurd (cc (h k d look));
    taken = λ k d look has. absurd (cc (h k d look));
    distinct = λ j k c d ne look look' has has'. absurd (cc (h j c look));
    left = λ ip f. left ip (rw (free-reserve N L) at f);
  }
    where
      left :
          (ip : Ip)
          → (if ip_eq (prefix_ip p) ip then false else free N (new_ip_allocator N p) ip) ≡ true
          → IsUsable N L p ip
      left ip f = elim (Bool-cases (ip_eq (prefix_ip p) ip)) [
        | inl e ↦ absurd (cc (rw e at f))
        | inr e ↦ (
          (free-new N L p ip).0 (rw e at f),
          λ q. cc (e, (L.ip_eq_iff (prefix_ip p) ip).1 (sym q)),
        )
      ]

  -- The devices with the server and the switch among them.
  pub with_oob : Dict (Device Ip) → Dict (Device Ip)
  with_oob devs =
      (find_or_add N switch_name (new_switch N) (find_or_add N server_name (new_server N) devs).1).1

  -- The switch that the links come from.
  pub switch_of : Dict (Device Ip) → Device Ip
  switch_of devs =
      (find_or_add N switch_name (new_switch N) (find_or_add N server_name (new_server N) devs).1).0

  server_of : Dict (Device Ip) → Device Ip
  server_of devs = (find_or_add N server_name (new_server N) devs).0

  with_oob-HasNoIps : (devs : Dict (Device Ip)) → HasNoIps devs → HasNoIps (with_oob devs)
  unfolding with_oob new_server new_switch
  with_oob-HasNoIps devs z =
      find_or_add-HasNoIps switch_name (new_switch N) _ L.is_zero-zero_ip
        (find_or_add-HasNoIps server_name (new_server N) devs L.is_zero-zero_ip z)

  -- The device of the management server: the one of the topology, or a new one where it has none.
  abbrev pub IsServer : Dict (Device Ip) → Device Ip → Type 0
  IsServer devs d =
      (lookup server_name devs ≡ some d) ⊎ ((lookup server_name devs ≡ none) × (d ≡ new_server N))

  pub record IsManaged (wire_order : List Bytes) (t t' : Topo N) : Type 0 where
    pub server : Device Ip
    pub of_topology : IsServer t.devs server
    pub prefix : IpPrefix
    pub parsed : parse_ip_prefix (attr server (codes "mgmt_ip")) ≡ some prefix
    pub allocator : IpAllocator N
    pub assigned : IsAssigned N L prefix t'.devs allocator
    pub served :
        (k : Bytes) (d : Device Ip)
        → lookup k (with_oob t.devs) ≡ some d
        → In k wire_order
        → is_attached N d ≡ true
        → (d' : Device Ip) × (lookup k t'.devs ≡ some d') × HasIp N L prefix d'
    pub wired :
        t'.mgmt_links
        ≡ t.mgmt_links
          ++ (server_uplink
              ∷ switch_mgmt_link
              ∷ server_switch_link
              ∷ number_links
                  (switch_of t.devs).name
                  2
                  (attached_names N (with_oob t.devs) wire_order))

  server_of-IsServer : (devs : Dict (Device Ip)) → IsServer devs (server_of devs)
  unfolding server_of find_or_add
  server_of-IsServer devs = elim (Option-cases (lookup server_name devs)) [
    | inl e ↦
        let same : server_of devs ≡ new_server N = rw (e, server_of, find_or_add) refl in
        inr (e, same)
    | inr (d, e) ↦
        let same : server_of devs ≡ d = rw (e, server_of, find_or_add) refl in
        inl (e ∙ ap some (sym same))
  ]

  -- The two loops, behind the parsed prefix.
  loops-IsManaged :
      (order wire_order : List Bytes) (t : Topo N) (p : IpPrefix) (devs₃ devs₄ : Dict (Device Ip))
      (b : IpAllocator N) (ls : List Link)
      → parse_ip_prefix (attr (server_of t.devs) (codes "mgmt_ip")) ≡ some p
      → HasNoIps (with_oob t.devs)
      → reserve_all N order (with_oob t.devs) (reserve N (new_ip_allocator N p) (prefix_ip p)).0
        ≡ ok (devs₃, b)
      → wire_all N (switch_of t.devs).name wire_order 2 devs₃ b ≡ ok (devs₄, ls)
      → IsManaged wire_order t (record t {
        devs = devs₄;
        mgmt_links = t.mgmt_links ++ (server_uplink ∷ switch_mgmt_link ∷ server_switch_link ∷ ls);
      })
  loops-IsManaged order wire_order t p devs₃ devs₄ b ls parsed z reserved wired =
      let names = λ (k : Bytes). reserve_all-attached_name p k order _ _ devs₃ b reserved in
      let W =
        wire_all-Wired N L p (switch_of t.devs).name wire_order 2 devs₃ b devs₄ ls
          (reserve_all-IsAssigned N L p order _ _ (start-IsAssigned p _ z) reserved) wired in
      record {
        server = server_of t.devs;
        of_topology = server_of-IsServer t.devs;
        prefix = p;
        parsed = parsed;
        allocator = W.allocator;
        assigned = W.assigned;
        served = λ k d look i att.
            let (c, at_k, att') =
              attached_name-some N (lookup k devs₃) {name = d.name} (names k ∙ rw (look, att)) in
            W.has_ip k c at_k (inr (i, att'));
        wired = rw (W.numbered, attached_names_congr N (with_oob t.devs) devs₃ wire_order names);
      }

  -- Where no device had an address before and `setupAutoMgmtNetwork` returns no error: every address
  -- that a device has is a host address of the prefix that the server's attribute mgmt_ip states, other than
  -- the one stated there, and no two devices share one; each visited device that is attached has an address; and the links added
  -- are the two uplinks, the server's link to the switch, and one link from the switch to each
  -- visited attached device, in the order of the visit, on the ports swp2, swp3 and so on.
  pub setup-IsManaged :
      (order wire_order : List Bytes) (t t' : Topo N)
      → HasNoIps t.devs
      → setup_auto_mgmt_network N order wire_order t ≡ ok t'
      → IsManaged wire_order t t'
  unfolding setup_auto_mgmt_network with_oob switch_of server_of
  setup-IsManaged order wire_order t t' z h =
      elim (Option-cases (parse_ip_prefix (attr (server_of t.devs) (codes "mgmt_ip")))) [
        | inl e ↦ absurd (cc (rw (e, setup_auto_mgmt_network) at h))
        | inr (p, e) ↦
            let ((devs₃, b), reserved, more) =
              >>=-eq-ok
                (reserve_all N order (with_oob t.devs)
                  (reserve N (new_ip_allocator N p) (prefix_ip p)).0)
                _ (rw (e, setup_auto_mgmt_network) at h) in
            let ((devs₄, ls), wired, last) =
              >>=-eq-ok (wire_all N (switch_of t.devs).name wire_order 2 devs₃ b) _ more in
            subst (IsManaged wire_order t) (ok-injective last) (
              loops-IsManaged order wire_order t p devs₃ devs₄ b ls e (with_oob-HasNoIps t.devs z)
                reserved wired)
      ]
