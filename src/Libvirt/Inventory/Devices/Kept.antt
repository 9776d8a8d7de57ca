-- ===== src/Libvirt/Inventory/Devices/Kept.antt =====
-- What the loop over the devices of `buildInventory` in runner/libvirt/runner.go leaves as it is.
use runtopo.Prelude.{
  ℕ, ◌≡◌, refl, ap, ◌∙◌, Bytes, codes, str_eq, str_eq_iff, Option, some, List, [], ◌∷◌, ◌++◌, ok,
  subst, >>=-eq-ok, ok-injective, ok-pair, Bool-cases, Option-cases, inl, inr,
}
use runtopo.Prelude.Dict.{lookup, lookup-insert, lookup-insert_own}
use runtopo.Topology.AutoMgmt.{is_empty}
use runtopo.Topology.Device.{Device, attr, function}
use runtopo.Topology.Function.{fake, same_function}
use runtopo.Libvirt.Device.{Iface}
use runtopo.Libvirt.Runner.{Runner}
use runtopo.Libvirt.Vbmc.{Bmc, BmcMan, add}
use runtopo.Libvirt.Inventory.Devices.{
  add_bmc, config_of, tunnel_ip_of, add_host_device, add_host_devices,
}
use runtopo.Libvirt.Inventory.Sums.{total, total-insert_bare}

-- The manager has a BMC under the name.
abbrev pub Known : Bytes → BmcMan → Type 0
Known k m = (x : Bmc) × (lookup k m.all ≡ some x)

pub add-new : (m m' : BmcMan) (name : Bytes) (b : Bmc) → add m name ≡ ok (m', b) → Known name m'
unfolding add
add-new m m' name b h = elim (Option-cases (lookup name m.all)) [
  | inl e ↦
      let (p, q) = ok-pair (rw (e, add) at h) in
      (_, ap (λ (x : BmcMan). lookup name x.all) p ∙ lookup-insert_own name _ m.all)
  | inr (x, e) ↦ absurd (cc (rw (e, add) at h))
]

add-Known :
    (m m' : BmcMan) (name : Bytes) (b : Bmc) (k : Bytes)
    → add m name ≡ ok (m', b)
    → Known k m
    → Known k m'
unfolding add
add-Known m m' name b k h (y, known) = elim (Option-cases (lookup name m.all)) [
  | inl e ↦
      let (p, q) = ok-pair (rw (e, add) at h) in
      elim (Bool-cases (str_eq name k)) [
        | inl s ↦ subst (λ n. Known n m') ((str_eq_iff name k).0 s) (add-new m m' name b h)
        | inr s ↦
            (y, ap (λ (x : BmcMan). lookup k x.all) p ∙ lookup-insert name k _ m.all ∙ rw s known)
      ]
  | inr (x, e) ↦ absurd (cc (rw (e, add) at h))
]

module _ {Ip NetIp : Type 0} where
  -- What the loop over the devices leaves as it is; and without interfaces all stays without.
  pub record IsKept (r r' : Runner Ip NetIp) : Type 0 where
    pub base : r'.mac_base ≡ r.mac_base
    pub port : r'.port_base ≡ r.port_base
    pub far : r'.port_gap ≡ r.port_gap
    pub prefix : r'.name_prefix ≡ r.name_prefix
    pub bare : (f : Iface NetIp → ℕ) → total f r.devices ≡ 0 → total f r'.devices ≡ 0
    -- A BMC that is known stays known.
    pub known : (k : Bytes) → Known k r.bmc_man → Known k r'.bmc_man

  IsKept-refl : (r : Runner Ip NetIp) → IsKept r r
  IsKept-refl r = record {
    base = refl;
    port = refl;
    far = refl;
    prefix = refl;
    bare = λ f e. e;
    known = λ k h. h;
  }

  IsKept-trans : (r s t : Runner Ip NetIp) → IsKept r s → IsKept s t → IsKept r t
  IsKept-trans r s t a b = record {
    base = b.base ∙ a.base;
    port = b.port ∙ a.port;
    far = b.far ∙ a.far;
    prefix = b.prefix ∙ a.prefix;
    bare = λ f e. b.bare f (a.bare f e);
    known = λ k h. b.known k (a.known k h);
  }

  pub add_bmc-IsKept : (r r' : Runner Ip NetIp) (d : Device Ip) → add_bmc r d ≡ ok r' → IsKept r r'
  unfolding add_bmc
  add_bmc-IsKept r r' d h = elim (Bool-cases (is_empty (attr d (codes "bmc")))) [
    | inl e ↦ subst (IsKept r) (ok-injective (rw (e, add_bmc) at h)) (IsKept-refl r)
    | inr e ↦
        let ((man, bmc), first, rest) =
          >>=-eq-ok (add r.bmc_man (r.name_prefix ++ d.name)) _ (rw (e, add_bmc) at h) in
        subst (IsKept r) (ok-injective rest) (record {
          base = refl;
          port = refl;
          far = refl;
          prefix = refl;
          bare = λ f e. e;
          known = λ k h. add-Known r.bmc_man man _ bmc k first h;
        })
  ]

  module _ (parse_ip : Bytes → Option NetIp) where
    pub add_host_device-IsKept :
        (d : Device Ip) (r r' : Runner Ip NetIp)
        → add_host_device parse_ip d r ≡ ok r'
        → IsKept r r'
    unfolding add_host_device
    add_host_device-IsKept d r r' h = elim (Bool-cases (same_function (function d) fake)) [
      | inl e ↦ subst (IsKept r) (ok-injective (rw (e, add_host_device) at h)) (IsKept-refl r)
      | inr e ↦
          let (ip, _, h₁) =
            >>=-eq-ok (tunnel_ip_of parse_ip r d) _ (rw (e, add_host_device) at h) in
          let (config, _, h₂) = >>=-eq-ok (config_of r d) _ h₁ in
          let (v, first, h₃) = >>=-eq-ok (add_bmc r d) _ h₂ in
          subst (IsKept r) (ok-injective h₃) (
            IsKept-trans r v _ (add_bmc-IsKept r v d first) (record {
              base = refl;
              port = refl;
              far = refl;
              prefix = refl;
              bare = λ f e. total-insert_bare f d.name _ v.devices refl e;
              known = λ k h. h;
            }))
    ]

    pub add_host_devices-IsKept :
        (ds : List (Device Ip)) (r r' : Runner Ip NetIp)
        → add_host_devices parse_ip ds r ≡ ok r'
        → IsKept r r'
    unfolding add_host_devices
    add_host_devices-IsKept [] r r' h = subst (IsKept r) (ok-injective h) (IsKept-refl r)
    add_host_devices-IsKept (d ∷ ds) r r' h =
        let (v, first, rest) = >>=-eq-ok (add_host_device parse_ip d r) _ h in
        IsKept-trans r v r' (add_host_device-IsKept d r v first)
          (add_host_devices-IsKept ds v r' rest)
