-- ===== src/Libvirt/Lifecycle.antt =====
-- `Run` and `Destroy` of runner/libvirt/runner.go: the parts of the runner one after the other, with the
-- deferred clean-ups. What the other packages compute is in a record of arguments, and so are the orders in
-- which ranges over maps visit their keys and in which results arrive.
pub mod Cleanups
pub mod Release
pub mod Failure
pub mod Cleared
pub mod Frame
pub mod Again
use runtopo.Prelude.{
  ℕ, Bool, true, false, Bytes, Option, none, some, List, [], ◌∷◌, Outcome, ok, err, panic, length,
  ◌==◌, if◌then◌else◌,
}
use runtopo.Prelude.Dict.{Dict, lookup}
use runtopo.Errors.{Error, bad_mac_base, no_connection}
use runtopo.Topology.Netaddr.{Netaddr}
use runtopo.Topology.Topo.{Topo, devices}
use runtopo.Libvirt.Device.{HostBmc}
use runtopo.Libvirt.Exec.{Exec, pure, raise, crash, modify, ◌>>=◌, ◌>>◌, on_error}
use runtopo.Libvirt.Hypervisor.{
  Call, connect, close, free_domain, Hypervisor, Session, ask_or, tell, tell_all,
}
use runtopo.Libvirt.Runner.{Runner}
use runtopo.Libvirt.Inventory.Build.{build_inventory, inventory_left}
use runtopo.Libvirt.Template.{DomainTemplateArgs}
use runtopo.Libvirt.Volumes.{StorageVolume}
use runtopo.Libvirt.Volumes.Images.{free_images, download_base_images}
use runtopo.Libvirt.Volumes.Disks.{create_volumes, delete_volumes}
use runtopo.Libvirt.Domains.{
  set_domains, define_domains, undefine_domains, start_domains, stop_bmcs,
}
use runtopo.Libvirt.Customize.{PrefixText}
use runtopo.Libvirt.Customize.Domains.{customize_domains}
use runtopo.Libvirt.Output.{Wait, write_ssh_config, write_bmc_config}

-- What packages outside the repository compute, each where the module that uses it describes it.
pub record Outside (Ip NetIp : Type 0) : Type 0 where
  pub hypervisor : Hypervisor
  pub parse_net_ip : Bytes → Option NetIp
  pub parse_mac : Bytes → Option Bytes
  pub ip_text : NetIp → Bytes
  pub render : DomainTemplateArgs → Option Bytes
  pub split : Bytes → Option (Bytes × Bytes)
  pub image_name : Bytes → Option Bytes
  pub marshal : StorageVolume → Option Bytes
  pub parse_prefix : Bytes → Option PrefixText
  pub crypt_pw : Bytes → Bytes
  pub print : Ip → Bytes
  pub waits : ℕ → Wait
  pub json : List HostBmc → Option Bytes

-- The orders: of each call of `t.Devices()` (in `buildInventory`, `startDomains` and `writeSSHConfig`), of
-- each range over `r.devices` (`hosts` is the one of `gatherHosts` for the device of that name), over the
-- BMCs, over the images (in `downloadBaseImages`, and at their release) and over `r.domains`, and of the
-- results that arrive.
pub record Orders : Type 0 where
  pub devices : List Bytes
  pub start_devices : List Bytes
  pub ssh_devices : List Bytes
  pub download_range : List Bytes
  pub create_range : List Bytes
  pub delete_range : List Bytes
  pub define_range : List Bytes
  pub undefine_range : List Bytes
  pub customize_range : List Bytes
  pub hosts : Bytes → List Bytes
  pub bmcs : List Bytes
  pub images : List Bytes
  pub kept_images : List Bytes
  pub names : List Bytes
  pub arrivals : List Bytes
  pub customized : List Bytes

-- `d.Free()` for the domains of a map.
unfoldable pub domain_frees : List Bytes → Option (Dict ℕ) → List Call
domain_frees names none = []
domain_frees [] (some m) = []
domain_frees (n ∷ names) (some m) = elim (lookup n m) [
  | none ↦ domain_frees names (some m)
  | some dom ↦ free_domain dom ∷ domain_frees names (some m)
]

module _ (N : Netaddr) {NetIp : Type 0} (o : Outside (N.Ip) NetIp) (orders : Orders) where
  abbrev pub State : Type 0
  State = Session N.Ip NetIp

  abbrev pub hv : Hypervisor
  hv = o.hypervisor

  -- `left` is the runner behind an error.
  unfoldable pub set_runner :
      Runner N.Ip NetIp → Outcome Error (Runner N.Ip NetIp) → Exec State (Unit {0})
  set_runner left (ok r) = modify (λ s. record s { runner = r })
  set_runner left (err e) = modify (λ s. record s { runner = left }) >> raise e
  set_runner left panic = crash

  -- `buildInventory`
  unfoldable pub load_inventory : Topo N → Exec State (Unit {0})
  unfolding set_runner
  load_inventory t s =
      set_runner (inventory_left N o.parse_net_ip o.parse_mac orders.devices t s.runner)
        (build_inventory N o.parse_net_ip o.parse_mac orders.devices t s.runner) s

  abbrev pub set_conn : Option ℕ → Exec State (Unit {0})
  set_conn c = modify (λ s. record s { conn = c })

  unfoldable pub drop_domains : Exec State (Unit {0})
  drop_domains s = (tell_all hv (domain_frees orders.names s.domains) >> set_domains hv none) s

  unfoldable pub drop_images : Exec State (Unit {0})
  drop_images s =
      (tell_all hv (free_images orders.kept_images s.base_images)
          >> modify (λ r. record r { base_images = [] }))
        s

  unfoldable pub when : Bool → Exec State (Unit {0}) → Exec State (Unit {0})
  when true m = m
  when false m = pure tt

  -- `Run` from the customization on, from the definition of the domains on, and so on backwards.
  unfoldable pub run_defined : Topo N → Exec State (Unit {0})
  unfolding when
  run_defined t s =
      (customize_domains hv o.parse_prefix o.crypt_pw N.is_zero o.print t.dot orders.hosts
            orders.customize_range orders.customized
          >> start_domains hv o.split orders.bmcs (devices N t orders.start_devices)
          >> when s.runner.ssh_config_out
              (write_ssh_config hv N.parse_ip o.print o.waits (devices N t orders.ssh_devices))
          >> when s.runner.bmc_config_out (write_bmc_config hv o.json))
        s

  unfoldable pub run_created : Topo N → Exec State (Unit {0})
  run_created t =
      define_domains hv o.ip_text o.render orders.define_range
      >> on_error (undefine_domains hv orders.undefine_range >> drop_domains) (run_defined t)

  unfoldable pub run_downloaded : Topo N → Exec State (Unit {0})
  run_downloaded t =
      create_volumes hv o.marshal orders.create_range
      >> on_error (delete_volumes hv orders.delete_range) (run_created t)

  unfoldable pub run_connected : Topo N → ℕ → Exec State (Unit {0})
  run_connected t c = on_error (tell hv (close c) >> set_conn none) (
      download_base_images hv o.image_name o.marshal orders.download_range orders.arrivals
        orders.images
      >> on_error drop_images (run_downloaded t))

  -- `libvirt.NewConnect(r.uri)`, and `r.conn = c`.
  unfoldable pub open_connection : Exec State ℕ
  open_connection s =
      (ask_or hv (no_connection s.runner.uri) (connect s.runner.uri) >>= λ c.
      set_conn (some c) >> pure c)
        s

  unfoldable pub run : Topo N → Exec State (Unit {0})
  run t s = elim (length s.runner.mac_base == 6) [
    | false ↦ raise (bad_mac_base (length s.runner.mac_base)) s
    | true ↦ (load_inventory t >> open_connection >>= run_connected t) s
  ]

  -- The connection is opened where there is none.
  unfoldable pub ensure_connected : Option ℕ → Exec State (Unit {0})
  ensure_connected none = open_connection >>= λ c. pure tt
  ensure_connected (some c) = pure tt

  unfoldable pub destroy : Topo N → Exec State (Unit {0})
  unfolding ensure_connected
  destroy t =
      load_inventory t
      >> (λ s. ensure_connected s.conn s)
      >> stop_bmcs hv o.split orders.bmcs
      >> undefine_domains hv orders.undefine_range
      >> drop_domains
      >> delete_volumes hv orders.delete_range
      >> drop_images
