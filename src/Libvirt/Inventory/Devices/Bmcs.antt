-- ===== src/Libvirt/Inventory/Devices/Bmcs.antt =====
-- The virtual BMCs that the loop over the devices configures.
use runtopo.Prelude.{
  ◌+◌, ◌≡◌, refl, sym, ap, ap₂, subst, ◌∙◌, Bool, true, false, ◌&&◌, not, Bytes, codes, Option,
  List, [], ◌∷◌, ◌++◌, append_assoc, append-nil, arith, ok, >>=-eq-ok, ok-injective, ok-pair,
  if◌then◌else◌, Bool-cases, Option-cases, inl, inr,
}
use runtopo.Prelude.Dict.{lookup}
use runtopo.Strconv.Format.{format_decimal}
use runtopo.Topology.AutoMgmt.{is_empty}
use runtopo.Topology.Device.{Device, attr, function}
use runtopo.Topology.Function.{fake, same_function}
use runtopo.Libvirt.Device.{HostBmc}
use runtopo.Libvirt.Runner.{Runner}
use runtopo.Libvirt.Vbmc.{BmcMan, Bmc, add, join_host_port}
use runtopo.Libvirt.Inventory.Devices.{
  add_bmc, config_of, tunnel_ip_of, add_host_device, add_host_devices,
}
use runtopo.Libvirt.Inventory.Devices.Addresses.{Numbered, DistinctAddrs, Numbered-Distinct}

abbrev pub wants_bmc : {Ip : Type 0} → Device Ip → Bool
wants_bmc d = not (same_function (function d) fake) && not (is_empty (attr d (codes "bmc")))

-- The names of the devices that have a BMC.
abbrev pub bmc_names : {Ip : Type 0} → List (Device Ip) → List Bytes
bmc_names [] = []
bmc_names (d ∷ ds) = if wants_bmc d then d.name ∷ bmc_names ds else bmc_names ds

abbrev pub names_of : List HostBmc → List Bytes
names_of [] = []
names_of (b ∷ bs) = b.name ∷ names_of bs

add-ok :
    (m m' : BmcMan) (name : Bytes) (b : Bmc)
    → add m name ≡ ok (m', b)
    → (m'.addr ≡ m.addr)
      × (m'.next_port ≡ m.next_port + 1)
      × (b.addr ≡ join_host_port m.addr (format_decimal m.next_port))
unfolding add
add-ok m m' name b h = elim (Option-cases (lookup name m.all)) [
  | inl e ↦
      let (p, q) = ok-pair (rw (e, add) at h) in
      (
        ap (λ (x : BmcMan). x.addr) p,
        ap (λ (x : BmcMan). x.next_port) p,
        ap (λ (x : Bmc). x.addr) q,
      )
  | inr (x, e) ↦ absurd (cc (rw (e, add) at h))
]

module _ {Ip NetIp : Type 0} where
  -- What a part of the loop does to the BMCs.
  pub record AddsBmcs (ds : List (Device Ip)) (r r' : Runner Ip NetIp) : Type 0 where
    pub added : List HostBmc
    pub appended : r'.bmcs ≡ r.bmcs ++ added
    pub names : names_of added ≡ bmc_names ds
    pub numbered : Numbered r.bmc_man.addr r.bmc_man.next_port added
    pub distinct : DistinctAddrs added

  -- One BMC, at the next port.
  record AddsBmc (d : Device Ip) (r r' : Runner Ip NetIp) : Type 0 where
    new : HostBmc
    name : new.name ≡ d.name
    address : new.bmc.addr ≡ join_host_port r.bmc_man.addr (format_decimal r.bmc_man.next_port)
    appended : r'.bmcs ≡ r.bmcs ++ new ∷ []
    host : r'.bmc_man.addr ≡ r.bmc_man.addr
    next : r'.bmc_man.next_port ≡ r.bmc_man.next_port + 1

  add_bmc-AddsBmc :
      (r r' : Runner Ip NetIp) (d : Device Ip)
      → is_empty (attr d (codes "bmc")) ≡ false
      → add_bmc r d ≡ ok r'
      → AddsBmc d r r'
  unfolding add_bmc
  add_bmc-AddsBmc r r' d e h =
      let ((m, b), first, rest) =
        >>=-eq-ok (add r.bmc_man (r.name_prefix ++ d.name)) _ (rw (e, add_bmc) at h) in
      let (a, n, x) = add-ok r.bmc_man m (r.name_prefix ++ d.name) b first in
      let q = sym (ok-injective rest) in
      record {
        new = record { name = d.name; bmc = b };
        name = refl;
        address = x;
        appended = ap (λ (y : Runner Ip NetIp). y.bmcs) q;
        host = ap (λ (y : Runner Ip NetIp). y.bmc_man.addr) q ∙ a;
        next = ap (λ (y : Runner Ip NetIp). y.bmc_man.next_port) q ∙ n;
      }

  add_bmc-none :
      (r r' : Runner Ip NetIp) (d : Device Ip)
      → is_empty (attr d (codes "bmc")) ≡ true
      → add_bmc r d ≡ ok r'
      → r' ≡ r
  unfolding add_bmc
  add_bmc-none r r' d e h = sym (ok-injective (rw (e, add_bmc) at h))

module _ {Ip NetIp : Type 0} (parse_ip : Bytes → Option NetIp) where
  -- A round for a device that is not a fake one: its BMC, and then its entry in the map.
  add_host_device-real :
      (d : Device Ip) (r r' : Runner Ip NetIp)
      → same_function (function d) fake ≡ false
      → add_host_device parse_ip d r ≡ ok r'
      → (v : Runner Ip NetIp) × (add_bmc r d ≡ ok v) × (r'.bmcs ≡ v.bmcs) × (r'.bmc_man ≡ v.bmc_man)
  unfolding add_host_device
  add_host_device-real d r r' e h =
      let (ip, _, h₁) = >>=-eq-ok (tunnel_ip_of parse_ip r d) _ (rw (e, add_host_device) at h) in
      let (c, _, h₂) = >>=-eq-ok (config_of r d) _ h₁ in
      let (v, first, rest) = >>=-eq-ok (add_bmc r d) _ h₂ in
      let q = sym (ok-injective rest) in
      (v, first, ap (λ (y : Runner Ip NetIp). y.bmcs) q, ap (λ (y : Runner Ip NetIp). y.bmc_man) q)

  -- A round for a device that gets no BMC.
  add_host_device-none :
      (d : Device Ip) (r r' : Runner Ip NetIp)
      → wants_bmc d ≡ false
      → add_host_device parse_ip d r ≡ ok r'
      → (r'.bmcs ≡ r.bmcs) × (r'.bmc_man ≡ r.bmc_man)
  unfolding add_host_device
  add_host_device-none d r r' e h = elim (Bool-cases (same_function (function d) fake)) [
    | inl f ↦
        let q = sym (ok-injective (rw (f, add_host_device) at h)) in
        (ap (λ (y : Runner Ip NetIp). y.bmcs) q, ap (λ (y : Runner Ip NetIp). y.bmc_man) q)
    | inr f ↦
        let (v, first, bmcs, man) = add_host_device-real d r r' f h in
        let q = add_bmc-none r v d (ground (arith, rw f at e)) first in
        (
          bmcs ∙ ap (λ (y : Runner Ip NetIp). y.bmcs) q,
          man ∙ ap (λ (y : Runner Ip NetIp). y.bmc_man) q,
        )
  ]

  add_host_device-some :
      (d : Device Ip) (r r' : Runner Ip NetIp)
      → wants_bmc d ≡ true
      → add_host_device parse_ip d r ≡ ok r'
      → AddsBmc d r r'
  add_host_device-some d r r' e h =
      let (v, first, bmcs, man) = add_host_device-real d r r' (ground arith) h in
      let a = add_bmc-AddsBmc r v d (ground arith) first in
      record {
        new = a.new;
        name = a.name;
        address = a.address;
        appended = bmcs ∙ a.appended;
        host = ap (λ (m : BmcMan). m.addr) man ∙ a.host;
        next = ap (λ (m : BmcMan). m.next_port) man ∙ a.next;
      }

  loop-Numbered :
      (ds : List (Device Ip)) (r r' : Runner Ip NetIp)
      → add_host_devices parse_ip ds r ≡ ok r'
      → (added : List HostBmc) × (r'.bmcs ≡ r.bmcs ++ added)
        × (names_of added ≡ bmc_names ds)
        × Numbered r.bmc_man.addr r.bmc_man.next_port added
  unfolding add_host_devices
  loop-Numbered [] r r' h = (
    [],
    ap (λ (y : Runner Ip NetIp). y.bmcs) (sym (ok-injective h)) ∙ sym (append-nil r.bmcs),
    refl,
    tt,
  )
  loop-Numbered (d ∷ ds) r r' h =
      let (v, first, rest) = >>=-eq-ok (add_host_device parse_ip d r) _ h in
      let (bs, app, names, num) = loop-Numbered ds v r' rest in
      elim (Bool-cases (wants_bmc d)) [
        | inl e ↦
            let a = add_host_device-some d r v e first in
            (
              a.new ∷ bs,
              app ∙ ap (λ l. l ++ bs) a.appended ∙ append_assoc r.bmcs (a.new ∷ []) bs,
              rw e (ap₂ (λ n ns. n ∷ ns) a.name names),
              (
                a.address,
                subst (λ p. Numbered r.bmc_man.addr p bs) a.next
                    (subst (λ x. Numbered x v.bmc_man.next_port bs) a.host num),
              ),
            )
        | inr e ↦
            let (bmcs, man) = add_host_device-none d r v e first in
            (
              bs,
              app ∙ ap (λ l. l ++ bs) bmcs,
              rw e names,
              subst (λ (m : BmcMan). Numbered m.addr m.next_port bs) man num,
            )
      ]

  -- The loop over the devices, when it returns no error, adds one BMC for each device that is not
  -- a fake one and has the attribute bmc, in the order of the visit, at consecutive ports; no two of
  -- them have one address.
  pub add_host_devices-AddsBmcs :
      (ds : List (Device Ip)) (r r' : Runner Ip NetIp)
      → add_host_devices parse_ip ds r ≡ ok r'
      → AddsBmcs ds r r'
  add_host_devices-AddsBmcs ds r r' h =
      let (added, app, names, num) = loop-Numbered ds r r' h in
      record {
        added = added;
        appended = app;
        names = names;
        numbered = num;
        distinct = Numbered-Distinct r.bmc_man.addr r.bmc_man.next_port added num;
      }
