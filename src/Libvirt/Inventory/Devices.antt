-- ===== src/Libvirt/Inventory/Devices.antt =====
-- The first loop of `buildInventory` in runner/libvirt/runner.go: the runner's device for each device
-- of the topology that is not a fake one. What `net.ParseIP` returns on a text is an argument.
pub mod Addresses
pub mod Bmcs
pub mod Kept
pub mod Twice
use runtopo.Prelude.{
  Bytes, codes, str_eq, Option, none, some, List, [], ◌∷◌, ◌++◌, Outcome, ok, err, panic,
  ok-injective, >>=-eq-ok, ◌≡◌, ◌>>=◌, if◌then◌else◌,
}
use runtopo.Prelude.Dict.{insert}
use runtopo.Errors.{Error, bad_tunnel_ip, bad_config}
use runtopo.Topology.AutoMgmt.{is_empty}
use runtopo.Topology.Device.{Device, attr, function}
use runtopo.Topology.Function.{fake, same_function}
use runtopo.Libvirt.Device.{HostDevice, HostBmc}
use runtopo.Libvirt.Runner.{Runner}
use runtopo.Libvirt.Vbmc.{add}

module _ {Ip NetIp : Type 0} where
  -- The contents of the file that the attribute names; nothing where there are no files.
  unfoldable pub config_of : Runner Ip NetIp → Device Ip → Outcome Error Bytes
  config_of r d = elim r.config_fs [
    | none ↦ ok []
    | some read_file ↦
        if is_empty (attr d (codes "config"))
        then ok []
        else elim (read_file (attr d (codes "config"))) [
          | none ↦ err (bad_config d.name)
          | some p ↦ ok p
        ]
  ]

  -- `if topoDev.Attr("bmc") != ""`
  unfoldable pub add_bmc : Runner Ip NetIp → Device Ip → Outcome Error (Runner Ip NetIp)
  add_bmc r d = if is_empty (attr d (codes "bmc")) then ok r else do
    (man, bmc) ← add r.bmc_man (r.name_prefix ++ d.name)
    ok (record r { bmc_man = man; bmcs = r.bmcs ++ (record { name = d.name; bmc = bmc }) ∷ [] })

module _ {Ip NetIp : Type 0} (parse_ip : Bytes → Option NetIp) where
  unfoldable pub tunnel_ip_of : Runner Ip NetIp → Device Ip → Outcome Error NetIp
  tunnel_ip_of r d =
      let s = attr d (codes "tunnelip") in
      if is_empty s
      then ok r.tunnel_ip
      else elim (parse_ip s) [ none ↦ err (bad_tunnel_ip d.name s) | some ip ↦ ok ip ]

  unfoldable pub add_host_device : Device Ip → Runner Ip NetIp → Outcome Error (Runner Ip NetIp)
  add_host_device d r = if same_function (function d) fake then ok r else do
    tunnel_ip ← tunnel_ip_of r d
    config ← config_of r d
    r' ← add_bmc r d
    ok (record r' {
      devices =
          insert d.name
            (record {
              device = d;
              name = r'.name_prefix ++ d.name;
              tunnel_ip = tunnel_ip;
              interfaces = [];
              pool = r'.storage_pool;
              config = config;
            })
            r'.devices;
    })

  unfoldable pub add_host_devices :
      List (Device Ip) → Runner Ip NetIp → Outcome Error (Runner Ip NetIp)
  add_host_devices [] r = ok r
  add_host_devices (d ∷ ds) r = do r' ← add_host_device d r; add_host_devices ds r'

  -- What the loop leaves in the runner: at its end, or where it returns an error. The round that returns an
  -- error changes nothing, since `add` refuses a name before it changes anything.
  unfoldable pub devices_left : List (Device Ip) → Runner Ip NetIp → Runner Ip NetIp
  devices_left [] r = r
  devices_left (d ∷ ds) r = elim (add_host_device d r) [
    | ok r' ↦ devices_left ds r'
    | err e ↦ r
    | panic ↦ r
  ]

  -- The loop that returns no error leaves what it returns.
  pub devices_left-ok :
      (ds : List (Device Ip)) (r r' : Runner Ip NetIp)
      → add_host_devices ds r ≡ ok r'
      → devices_left ds r ≡ r'
  unfolding devices_left add_host_devices
  devices_left-ok [] r r' h = ok-injective h
  devices_left-ok (d ∷ ds) r r' h =
      let (q, e, f) = >>=-eq-ok (add_host_device d r) (add_host_devices ds) h in
      rw (e, devices_left) (devices_left-ok ds q r' f)
