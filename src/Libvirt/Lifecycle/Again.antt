-- ===== src/Libvirt/Lifecycle/Again.antt =====
-- `Run` and then `Destroy` of runner/libvirt/runner.go, on one runner.
use runtopo.Prelude.{
  ◌≡◌, refl, sym, subst, Bool, true, false, Bytes, Option, List, ◌++◌, Outcome, ok, err, panic,
  >>=-eq-ok, ok-injective, In, length, ◌==◌,
}
use runtopo.Errors.{Error, bad_mac_base}
use runtopo.Topology.Netaddr.{Netaddr}
use runtopo.Topology.Topo.{Topo, devices, links}
use runtopo.Topology.Device.{Device}
use runtopo.Libvirt.Runner.{Runner}
use runtopo.Libvirt.Vbmc.{BmcMan}
use runtopo.Libvirt.Inventory.{wire_links}
use runtopo.Libvirt.Inventory.Build.{build_inventory, inventory_left, sort_devices}
use runtopo.Libvirt.Inventory.Devices.{add_host_devices}
use runtopo.Libvirt.Inventory.Devices.Bmcs.{wants_bmc}
use runtopo.Libvirt.Inventory.Devices.Kept.{Known, add_host_devices-IsKept}
use runtopo.Libvirt.Inventory.Devices.Twice.{
  domain_name, add_host_devices-Known, add_host_devices-refused,
}
use runtopo.Libvirt.Exec.{continue, raise, ◌>>=◌, ◌>>◌}
use runtopo.Libvirt.Hypervisor.{Session}
use runtopo.Libvirt.Hypervisor.Holds.{Held, Holds-continue}
use runtopo.Libvirt.Lifecycle.{
  Outside, Orders, set_runner, load_inventory, open_connection, run_connected, run, destroy,
}
use runtopo.Libvirt.Lifecycle.Frame.{open_connection-Holds, run_connected-Holds}

module _ (N : Netaddr) {NetIp : Type 0} (parse_ip : Bytes → Option NetIp)
    (parse_mac : Bytes → Option Bytes) (order : List Bytes) (t : Topo N) (d : Device N.Ip)
    (visited : In d (devices N t order)) (wanted : wants_bmc d ≡ true) where
  -- After `buildInventory` the BMC of the device is known.
  build_inventory-Known :
      (r r' : Runner N.Ip NetIp)
      → build_inventory N parse_ip parse_mac order t r ≡ ok r'
      → Known (domain_name r' d) r'.bmc_man
  unfolding build_inventory
  build_inventory-Known r r' h =
      let (s, first, h₁) = >>=-eq-ok (add_host_devices parse_ip (devices N t order) r) _ h in
      let (w, _, h₂) = >>=-eq-ok (wire_links parse_mac s (links N t) _) _ h₁ in
      let (m, _, h₃) = >>=-eq-ok (sort_devices w.devices) _ h₂ in
      let known = add_host_devices-Known parse_ip d (devices N t order) r s visited wanted first in
      let kept = add_host_devices-IsKept parse_ip (devices N t order) r s first in
      subst (λ (x : Runner N.Ip NetIp). Known (domain_name x d) x.bmc_man) (ok-injective h₃)
        (subst (λ p. Known (p ++ d.name) s.bmc_man) (sym kept.prefix) known)

  -- Where it is known before, `buildInventory` returns an error.
  build_inventory-refused :
      (r : Runner N.Ip NetIp)
      → Known (domain_name r d) r.bmc_man
      → (e : Error) × (build_inventory N parse_ip parse_mac order t r ≡ err e)
  unfolding build_inventory
  build_inventory-refused r known =
      let (e, f) = add_host_devices-refused parse_ip d (devices N t order) r visited wanted known in
      (e, rw f)

module _ (N : Netaddr) {NetIp : Type 0} (o : Outside N.Ip NetIp) where
  abbrev St : Type 0
  St = Session N.Ip NetIp

  -- The BMC of the device is known to the runner.
  abbrev HasBmc : Device N.Ip → BmcMan → Bytes → Type 0
  HasBmc d man prefix = Known (prefix ++ d.name) man

  run-HasBmc :
      (orders : Orders) (t : Topo N) (d : Device N.Ip) (s s' : St)
      → In d (devices N t orders.devices)
      → wants_bmc d ≡ true
      → run N o orders t s ≡ (ok tt, s')
      → Held (HasBmc d) s'
  unfolding run load_inventory set_runner
  run-HasBmc orders t d s s' visited wanted h = by_length (length s.runner.mac_base == 6) h
    where
      left : Runner N.Ip NetIp
      left = inventory_left N o.parse_net_ip o.parse_mac orders.devices t s.runner

      by_inventory :
          (q : Outcome Error (Runner N.Ip NetIp))
          → build_inventory N o.parse_net_ip o.parse_mac orders.devices t s.runner ≡ q
          → ◌≡◌ {A = Outcome Error (Unit {0}) × St}
              (continue
                (run_connected N o orders t)
                (continue (λ _. open_connection N o orders) (set_runner N o orders left q s)))
              (ok tt, s')
          → Held (HasBmc d) s'
      by_inventory (ok r) e g =
          subst (λ (p : Outcome Error (Unit {0}) × St). Held (HasBmc d) p.1) g
            (Holds-continue (HasBmc d) (run_connected N o orders t)
              (open_connection N o orders (record s { runner = r }))
              (open_connection-Holds (HasBmc d) N o orders (record s { runner = r })
                (build_inventory-Known N o.parse_net_ip o.parse_mac orders.devices t d visited
                  wanted s.runner r e))
              (run_connected-Holds (HasBmc d) N o orders t))
      by_inventory (err x) e g = cc
      by_inventory panic e g = cc

      by_length :
          (b : Bool)
          → ◌≡◌ {A = Outcome Error (Unit {0}) × St}
              (elim b [
                | false ↦ raise (bad_mac_base (length s.runner.mac_base)) s
                | true ↦
                    (load_inventory N o orders t
                        >> open_connection N o orders
                        >>= run_connected N o orders t)
                      s
              ])
              (ok tt, s')
          → Held (HasBmc d) s'
      by_length false g = cc
      by_length true g = by_inventory _ refl g

  -- After a `Run` that returned no error, a `Destroy` of the same topology on the same runner returns an
  -- error and makes no call, if each of the two visits some device that is not fake and has the attribute
  -- bmc.
  pub destroy-again :
      (orders orders' : Orders) (t : Topo N) (d : Device N.Ip) (s s' : St)
      → In d (devices N t orders.devices)
      → In d (devices N t orders'.devices)
      → wants_bmc d ≡ true
      → run N o orders t s ≡ (ok tt, s')
      → (e : Error) × ((destroy N o orders' t s').0 ≡ err e)
        × ((destroy N o orders' t s').1.log ≡ s'.log)
  unfolding destroy load_inventory set_runner
  destroy-again orders orders' t d s s' visited again wanted h =
      let (e, f) =
        build_inventory-refused N o.parse_net_ip o.parse_mac orders'.devices t d again wanted
          s'.runner (run-HasBmc orders t d s s' visited wanted h) in
      (e, rw f, rw f)
