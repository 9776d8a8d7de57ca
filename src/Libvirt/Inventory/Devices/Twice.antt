-- ===== src/Libvirt/Inventory/Devices/Twice.antt =====
-- The loop over the devices of `buildInventory` in runner/libvirt/runner.go, gone through a second time.
use runtopo.Prelude.{
  ◌≡◌, ◌≢◌, refl, sym, ap, subst, true, false, Bytes, codes, Option, List, [], ◌∷◌, ◌++◌, arith,
  Outcome, ok, err, panic, ◌>>=◌, In, >>=-eq-ok, ok-injective, Bool-cases, Option-cases, inl, inr,
}
use runtopo.Prelude.Dict.{lookup}
use runtopo.Errors.{Error}
use runtopo.Topology.AutoMgmt.{is_empty}
use runtopo.Topology.Device.{Device, attr, function}
use runtopo.Topology.Function.{fake, same_function}
use runtopo.Libvirt.Runner.{Runner}
use runtopo.Libvirt.Vbmc.{BmcMan, add}
use runtopo.Libvirt.Inventory.Devices.{
  add_bmc, config_of, tunnel_ip_of, add_host_device, add_host_devices,
}
use runtopo.Libvirt.Inventory.Devices.Bmcs.{wants_bmc}
use runtopo.Libvirt.Inventory.Devices.Kept.{
  Known, add-new, add_host_device-IsKept, add_host_devices-IsKept,
}

module _ {A B : Type 0} where
  >>=-ne-panic :
      (q : Outcome Error A) (k : A → Outcome Error B)
      → q ≢ panic
      → ((a : A) → k a ≢ panic)
      → (q >>= k) ≢ panic
  >>=-ne-panic panic k calm rest h = calm refl
  >>=-ne-panic (err e) k calm rest h = cc
  >>=-ne-panic (ok a) k calm rest h = rest a h

add-ne-panic : (m : BmcMan) (name : Bytes) → add m name ≢ panic
unfolding add
add-ne-panic m name h = elim (Option-cases (lookup name m.all)) [
  | inl e ↦ cc (rw (e, add) at h)
  | inr (x, e) ↦ cc (rw (e, add) at h)
]

module _ {Ip NetIp : Type 0} where
  -- The name under which the device's BMC is kept.
  abbrev pub domain_name : Runner Ip NetIp → Device Ip → Bytes
  domain_name r d = r.name_prefix ++ d.name

  config_of-ne-panic : (r : Runner Ip NetIp) (d : Device Ip) → config_of r d ≢ panic
  unfolding config_of
  config_of-ne-panic r d h = elim (Option-cases r.config_fs) [
    | inl e ↦ cc (rw (e, config_of) at h)
    | inr (read_file, e) ↦ elim (Bool-cases (is_empty (attr d (codes "config")))) [
      | inl f ↦ cc (rw (e, f, config_of) at h)
      | inr f ↦ elim (Option-cases (read_file (attr d (codes "config")))) [
        | inl g ↦ cc (rw (e, f, g, config_of) at h)
        | inr (p, g) ↦ cc (rw (e, f, g, config_of) at h)
      ]
    ]
  ]

  add_bmc-ne-panic : (r : Runner Ip NetIp) (d : Device Ip) → add_bmc r d ≢ panic
  unfolding add_bmc
  add_bmc-ne-panic r d h = elim (Bool-cases (is_empty (attr d (codes "bmc")))) [
    | inl e ↦ cc (rw (e, add_bmc) at h)
    | inr e ↦
        >>=-ne-panic (add r.bmc_man (domain_name r d)) _ (add-ne-panic r.bmc_man (domain_name r d))
          (λ _ g. cc) (rw (e, add_bmc) at h)
  ]

  -- A second BMC for a device is refused.
  add_bmc-Known_refused :
      (r v : Runner Ip NetIp) (d : Device Ip)
      → is_empty (attr d (codes "bmc")) ≡ false
      → Known (domain_name r d) r.bmc_man
      → add_bmc r d ≢ ok v
  unfolding add_bmc add
  add_bmc-Known_refused r v d e (x, f) h = cc (rw (e, f, add_bmc, add) at h)

  -- A BMC that has been added is known.
  add_bmc-new :
      (r v : Runner Ip NetIp) (d : Device Ip)
      → is_empty (attr d (codes "bmc")) ≡ false
      → add_bmc r d ≡ ok v
      → Known (domain_name r d) v.bmc_man
  unfolding add_bmc
  add_bmc-new r v d e h =
      let ((m, b), first, rest) =
        >>=-eq-ok (add r.bmc_man (domain_name r d)) _ (rw (e, add_bmc) at h) in
      subst (λ (s : Runner Ip NetIp). Known (domain_name r d) s.bmc_man) (ok-injective rest)
        (add-new r.bmc_man m (domain_name r d) b first)

module _ {Ip NetIp : Type 0} (parse_ip : Bytes → Option NetIp) where
  tunnel_ip_of-ne-panic : (r : Runner Ip NetIp) (d : Device Ip) → tunnel_ip_of parse_ip r d ≢ panic
  unfolding tunnel_ip_of
  tunnel_ip_of-ne-panic r d h = elim (Bool-cases (is_empty (attr d (codes "tunnelip")))) [
    | inl e ↦ cc (rw (e, tunnel_ip_of) at h)
    | inr e ↦ elim (Option-cases (parse_ip (attr d (codes "tunnelip")))) [
      | inl f ↦ cc (rw (e, f, tunnel_ip_of) at h)
      | inr (ip, f) ↦ cc (rw (e, f, tunnel_ip_of) at h)
    ]
  ]

  add_host_device-ne-panic :
      (d : Device Ip) (r : Runner Ip NetIp) → add_host_device parse_ip d r ≢ panic
  unfolding add_host_device
  add_host_device-ne-panic d r h = elim (Bool-cases (same_function (function d) fake)) [
    | inl e ↦ cc (rw (e, add_host_device) at h)
    | inr e ↦
        >>=-ne-panic (tunnel_ip_of parse_ip r d) _ (tunnel_ip_of-ne-panic r d)
          (λ ip.
            >>=-ne-panic (config_of r d) _ (config_of-ne-panic r d)
              (λ config. >>=-ne-panic (add_bmc r d) _ (add_bmc-ne-panic r d) (λ v g. cc)))
          (rw (e, add_host_device) at h)
  ]

  -- The BMC of a device that wants one, in a round for it that returns.
  add_host_device-bmc :
      (d : Device Ip) (r r' : Runner Ip NetIp)
      → wants_bmc d ≡ true
      → add_host_device parse_ip d r ≡ ok r'
      → (v : Runner Ip NetIp) × (add_bmc r d ≡ ok v) × (r'.bmc_man ≡ v.bmc_man)
  unfolding add_host_device
  add_host_device-bmc d r r' w h =
      let e : same_function (function d) fake ≡ false = ground arith in
      let (ip, _, h₁) = >>=-eq-ok (tunnel_ip_of parse_ip r d) _ (rw (e, add_host_device) at h) in
      let (c, _, h₂) = >>=-eq-ok (config_of r d) _ h₁ in
      let (v, first, rest) = >>=-eq-ok (add_bmc r d) _ h₂ in
      (v, first, ap (λ (y : Runner Ip NetIp). y.bmc_man) (sym (ok-injective rest)))

  -- After the loop the BMC of each device that wants one is known.
  pub add_host_devices-Known :
      (d : Device Ip) (ds : List (Device Ip)) (r r' : Runner Ip NetIp)
      → In d ds
      → wants_bmc d ≡ true
      → add_host_devices parse_ip ds r ≡ ok r'
      → Known (domain_name r d) r'.bmc_man
  unfolding add_host_devices
  add_host_devices-Known d [] r r' i w h = absurd i
  add_host_devices-Known d (x ∷ ds) r r' i w h =
      let (v, first, rest) = >>=-eq-ok (add_host_device parse_ip x r) _ h in
      by_place i v first rest (λ j.
        subst (λ p. Known (p ++ d.name) r'.bmc_man)
          (add_host_device-IsKept parse_ip x r v first).prefix
          (add_host_devices-Known d ds v r' j w rest))
    where
      by_place :
          In d (x ∷ ds)
          → (v : Runner Ip NetIp) → add_host_device parse_ip x r ≡ ok v
          → add_host_devices parse_ip ds v ≡ ok r'
          → (In d ds → Known (domain_name r d) r'.bmc_man)
          → Known (domain_name r d) r'.bmc_man
      by_place (inr j) v first rest later = later j
      by_place (inl same) v first rest later =
          let (u, added, man) =
            add_host_device-bmc d r v w
              (subst (λ y. add_host_device parse_ip y r ≡ ok v) (sym same) first) in
          (add_host_devices-IsKept parse_ip ds v r' rest).known (domain_name r d)
            (subst (Known (domain_name r d)) (sym man) (add_bmc-new r u d (ground arith) added))

  -- Where the BMC of a device that wants one is known before, the loop over that device and others
  -- returns an error.
  pub add_host_devices-refused :
      (d : Device Ip) (ds : List (Device Ip)) (r : Runner Ip NetIp)
      → In d ds
      → wants_bmc d ≡ true
      → Known (domain_name r d) r.bmc_man
      → (e : Error) × (add_host_devices parse_ip ds r ≡ err e)
  unfolding add_host_devices
  add_host_devices-refused d [] r i w k = absurd i
  add_host_devices-refused d (x ∷ ds) r i w k =
      by_round (add_host_device parse_ip x r) refl i (λ v j first.
        let kept = add_host_device-IsKept parse_ip x r v first in
        add_host_devices-refused d ds v j w (
          subst (λ p. Known (p ++ d.name) v.bmc_man) (sym kept.prefix)
            (kept.known (domain_name r d) k)))
    where
      by_round :
          (q : Outcome Error (Runner Ip NetIp))
          → add_host_device parse_ip x r ≡ q
          → In d (x ∷ ds)
          → ((v : Runner Ip NetIp)
              → In d ds
              → add_host_device parse_ip x r ≡ ok v
              → (e : Error) × (add_host_devices parse_ip ds v ≡ err e))
          → (e : Error) × ((q >>= add_host_devices parse_ip ds) ≡ err e)
      by_round panic f i rest = absurd (add_host_device-ne-panic x r f)
      by_round (err e) f i rest = (e, refl)
      by_round (ok v) f (inr j) rest = rest v j f
      by_round (ok v) f (inl same) rest =
          let (u, added, _) =
            add_host_device-bmc d r v w
              (subst (λ y. add_host_device parse_ip y r ≡ ok v) (sym same) f) in
          absurd (add_bmc-Known_refused r u d (ground arith) k added)
