-- ===== src/Libvirt/Customize/Hosts.antt =====
-- `gatherHosts` and `generateDnsmasqHostsFile` of runner/libvirt/customize.go, and `MgmtIP` of
-- topology/device.go.
use runtopo.Prelude.{
  ◌≡◌, refl, Bool, true, false, Bool-cases, inl, inr, ◌⊎◌, ◌||◌, Bytes, codes, str_eq, Option, none,
  some, Option-cases, List, [], ◌∷◌, ◌++◌, Outcome, ok, err, panic, ◌>>=◌, if◌then◌else◌, arith,
}
use runtopo.Prelude.Dict.{Dict, lookup}
use runtopo.Errors.{Error}
use runtopo.Topology.Device.{Device}
use runtopo.Libvirt.Device.{Iface, HostDevice}
use runtopo.Libvirt.Template.{mac_string}
use runtopo.Libvirt.Customize.{text}

pub record EtherHost (Ip : Type 0) : Type 0 where
  pub name : Bytes
  pub ip : Ip
  pub mac : Bytes

-- The two devices of the management network itself.
unfoldable pub is_oob_name : Bytes → Bool
is_oob_name k = str_eq k (codes "oob-mgmt-server") || str_eq k (codes "oob-mgmt-switch")

unfoldable pub mgmt_ip_of : {Ip : Type 0} → (Ip → Bool) → Device Ip → Option Ip
mgmt_ip_of is_zero d = if is_zero d.mgmt_ip then none else some d.mgmt_ip

-- A round of the loop: whether the first interface is eth0, and the address; the hosts behind are last.
unfoldable pub enter_host :
    {Ip : Type 0} → Bytes → Bytes → Bool → Option Ip → List (EtherHost Ip) → List (EtherHost Ip)
enter_host k mac false ip hosts = hosts
enter_host k mac true none hosts = hosts
enter_host k mac true (some ip) hosts = record { name = k; ip = ip; mac = mac } ∷ hosts

module _ {Ip NetIp : Type 0} (is_zero : Ip → Bool) where
  -- `d.interfaces[0]` panics where there is none.
  unfoldable pub add_host :
      Bytes
      → HostDevice Ip NetIp
      → List (Iface NetIp)
      → List (EtherHost Ip)
      → Outcome Error (List (EtherHost Ip))
  unfolding mgmt_ip_of enter_host
  add_host k d [] hosts = panic
  add_host k d (eth0 ∷ is) hosts =
      ok (
        enter_host k eth0.mac (str_eq eth0.name (codes "eth0")) (mgmt_ip_of is_zero d.device) hosts)

  -- `order` is the sequence of keys that the range over the devices visits. The rounds are independent
  -- of each other, up to a panic.
  unfoldable pub gather_hosts :
      List Bytes → Dict (HostDevice Ip NetIp) → Outcome Error (List (EtherHost Ip))
  unfolding is_oob_name add_host
  gather_hosts [] ds = ok []
  gather_hosts (k ∷ order) ds = elim (lookup k ds) [
    | none ↦ gather_hosts order ds
    | some d ↦ elim (is_oob_name k) [
      | true ↦ gather_hosts order ds
      | false ↦ gather_hosts order ds >>= add_host k d d.interfaces
    ]
  ]

  -- A device whose first interface the function reads, and that has none.
  pub record IsBare (ds : Dict (HostDevice Ip NetIp)) (k : Bytes) : Type 0 where
    pub device : HostDevice Ip NetIp
    pub there : lookup k ds ≡ some device
    pub not_oob : is_oob_name k ≡ false
    pub bare : device.interfaces ≡ []

  abbrev pub AnyBare : Dict (HostDevice Ip NetIp) → List Bytes → Type 0
  AnyBare ds [] = ⊥
  AnyBare ds (k ∷ order) = IsBare ds k ⊎ AnyBare ds order

  -- The two ways in which the loop ends.
  abbrev pub Ends :
      Dict (HostDevice Ip NetIp) → List Bytes → Outcome Error (List (EtherHost Ip)) → Type 0
  Ends ds order (ok hosts) = ¬ AnyBare ds order
  Ends ds order (err e) = ⊥
  Ends ds order panic = AnyBare ds order

  -- One more device that is looked at.
  add_host-Ends :
      (k : Bytes) (d : HostDevice Ip NetIp) (is : List (Iface NetIp)) (order : List Bytes)
      (ds : Dict (HostDevice Ip NetIp)) (r : Outcome Error (List (EtherHost Ip)))
      → d.interfaces ≡ is
      → lookup k ds ≡ some d
      → is_oob_name k ≡ false
      → Ends ds order r
      → Ends ds (k ∷ order) (r >>= add_host k d is)
  unfolding add_host
  add_host-Ends k d is order ds (err x) e there not_oob h = h
  add_host-Ends k d is order ds panic e there not_oob h = inr h
  add_host-Ends k d [] order ds (ok hosts) e there not_oob h =
      inl (record { device = d; there = there; not_oob = not_oob; bare = e })
  add_host-Ends k d (i ∷ is) order ds (ok hosts) e there not_oob h =
      λ q. elim q [ inr later ↦ h later | inl b ↦ cc ]

  passed_over :
      (k : Bytes) (order : List Bytes) (ds : Dict (HostDevice Ip NetIp))
      (r : Outcome Error (List (EtherHost Ip)))
      → ¬ IsBare ds k
      → Ends ds order r
      → Ends ds (k ∷ order) r
  passed_over k order ds panic n h = inr h
  passed_over k order ds (err e) n h = h
  passed_over k order ds (ok hosts) n h = λ q. elim q [ inr later ↦ h later | inl b ↦ n b ]

  -- `gatherHosts` panics if, and only if, the range visits a device without an interface that is not one
  -- of the two of the management network; otherwise it returns a list.
  pub gather_hosts-Ends :
      (order : List Bytes) (ds : Dict (HostDevice Ip NetIp)) → Ends ds order (gather_hosts order ds)
  unfolding gather_hosts
  gather_hosts-Ends [] ds = λ h. h
  gather_hosts-Ends (k ∷ order) ds = elim (Option-cases (lookup k ds)) [
    | inl e ↦
        rw (e, gather_hosts)
          (passed_over k order ds _ (λ b. ground (arith, b.there)) (gather_hosts-Ends order ds))
    | inr (d, e) ↦
        rw (e, gather_hosts)
          (elim (Bool-cases (is_oob_name k)) [
            | inl f ↦ rw f (
                passed_over k order ds _ (λ b. ground (arith, b.not_oob))
                  (gather_hosts-Ends order ds))
            | inr f ↦ rw f (
                add_host-Ends k d d.interfaces order ds (gather_hosts order ds) refl e f
                  (gather_hosts-Ends order ds))
          ])
  ]

-- `mac`, `ip` and `name` as the verb %s prints them.
unfoldable pub generate_dnsmasq_hosts_file :
    {Ip : Type 0} → (Ip → Bytes) → List (EtherHost Ip) → Bytes
unfolding mac_string
generate_dnsmasq_hosts_file print [] = []
generate_dnsmasq_hosts_file print (h ∷ hs) =
    text (mac_string h.mac ∷ codes "," ∷ print h.ip ∷ codes "," ∷ h.name ∷ codes "\n" ∷ [])
    ++ generate_dnsmasq_hosts_file print hs
