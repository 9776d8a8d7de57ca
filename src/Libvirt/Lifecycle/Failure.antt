-- ===== src/Libvirt/Lifecycle/Failure.antt =====
-- The ways in which `Run` of runner/libvirt/runner.go returns an error.
use runtopo.Prelude.{
  ℕ, ◌≡◌, refl, sym, ap, Bool, true, false, Option, none, some, Outcome, ok, err, panic, length,
  ◌==◌,
}
use runtopo.Errors.{Error, no_connection, bad_mac_base}
use runtopo.Topology.Netaddr.{Netaddr}
use runtopo.Topology.Topo.{Topo}
use runtopo.Libvirt.Runner.{Runner}
use runtopo.Libvirt.Exec.{Exec, continue, pure, raise, ◌>>=◌, ◌>>◌}
use runtopo.Libvirt.Hypervisor.{connect, Hypervisor, Session, branch, logged}
use runtopo.Libvirt.Inventory.Build.{inventory_left}
use runtopo.Libvirt.Lifecycle.{
  Outside, Orders, run_connected, run, open_connection, load_inventory, set_runner, set_conn,
}
use runtopo.Libvirt.Lifecycle.Release.{Released, run_connected-Released}

module _ (N : Netaddr) {NetIp : Type 0} (o : Outside N.Ip NetIp) (orders : Orders) where
  abbrev hv : Hypervisor
  hv = o.hypervisor

  abbrev St : Type 0
  St = Session N.Ip NetIp

  -- What `Run` has done before the connection, and what the connection was answered.
  pub data Failed (t : Topo N) (s s' : St) : Type 0 where
    no_call : s'.log ≡ s.log → s'.conn ≡ s.conn → Failed t s s'
    refused :
        (r : Runner N.Ip NetIp)
        → hv.number s.log (connect r.uri) ≡ none
        → s' ≡ logged hv (connect r.uri) (record s { runner = r })
        → Failed t s s'
    behind :
        (r : Runner N.Ip NetIp) (c : ℕ)
        → hv.number s.log (connect r.uri) ≡ some c
        → Released N o orders t c
            (record (logged hv (connect r.uri) (record s { runner = r })) { conn = some c })
            s'
        → Failed t s s'

  behind_inventory :
      (t : Topo N) (s : St) (r : Runner N.Ip NetIp) (e : Error) (s' : St)
      → (open_connection N o orders >>= run_connected N o orders t) (record s { runner = r })
        ≡ (err e, s')
      → Failed t s s'
  unfolding open_connection
  behind_inventory t s r e s' h = by_answer (hv.number s.log (connect r.uri)) refl h
    where
      by_answer :
          (a : Option ℕ)
          → hv.number s.log (connect r.uri) ≡ a
          → ◌≡◌ {A = Outcome Error (Unit {0}) × St}
              (continue (run_connected N o orders t) (
                continue
                  (λ c. set_conn N o orders (some c) >> pure c)
                  (branch {B = Exec St ℕ}
                    (raise (no_connection r.uri))
                    pure
                    a
                    (logged hv (connect r.uri) (record s { runner = r })))))
              (err e, s')
          → Failed t s s'
      by_answer none f g = refused r f (sym (ap (λ q. q.1) g))
      by_answer (some c) f g = behind r c f (run_connected-Released N o orders t c _ e s' g)

  -- A `Run` that returns an error has failed in one of three ways: before any call, with the connection as
  -- it was; with a connection that libvirt refused; or behind the connection. Then its last call closes the
  -- connection, and the runner has none; if the images had been downloaded, it has no images any more; if
  -- the volumes had been created too, its map of domains is nil.
  pub run-Failed :
      (t : Topo N) (s : St) (e : Error) (s' : St) → run N o orders t s ≡ (err e, s') → Failed t s s'
  unfolding run load_inventory set_runner
  run-Failed t s e s' h = by_length (length s.runner.mac_base == 6) h
    where
      left : Runner N.Ip NetIp
      left = inventory_left N o.parse_net_ip o.parse_mac orders.devices t s.runner

      by_inventory :
          (q : Outcome Error (Runner N.Ip NetIp))
          → ◌≡◌ {A = Outcome Error (Unit {0}) × St}
              (continue
                (run_connected N o orders t)
                (continue (λ _. open_connection N o orders) (set_runner N o orders left q s)))
              (err e, s')
          → Failed t s s'
      by_inventory (ok r) g = behind_inventory t s r e s' g
      by_inventory (err x) g = no_call (ap (λ q. q.1.log) (sym g)) (ap (λ q. q.1.conn) (sym g))
      by_inventory panic g = cc

      by_length :
          (b : Bool)
          → ◌≡◌ {A = Outcome Error (Unit {0}) × St}
              (elim b [
                | false ↦ raise (bad_mac_base (length s.runner.mac_base)) s
                | true ↦
                    (load_inventory N o orders t
                        >> open_connection N o orders
                        >>= run_connected N o orders t)
                      s
              ])
              (err e, s')
          → Failed t s s'
      by_length false g = no_call (ap (λ q. q.1.log) (sym g)) (ap (λ q. q.1.conn) (sym g))
      by_length true g = by_inventory _ g
