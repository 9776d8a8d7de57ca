-- ===== src/Tests/Inventories.antt =====
-- The theorems on `buildInventory`, for two devices and a cable between them.
use runtopo.Prelude.{
  ℕ, ◌≡◌, ◌≤◌, refl, false, Bytes, codes, Option, none, List, [], ◌∷◌, arith, str_eq, inl, inr,
  ◌==◌, Outcome, ok, err, panic,
}
use runtopo.Prelude.Dict.{lookup, insert, attr as map_attr}
use runtopo.Errors.{Error}
use runtopo.Topology.Topo.{Topo, links, devices}
use runtopo.Topology.Link.{from_mac, to_mac}
use runtopo.Libvirt.Mac.{mac_int_from, mac_addr_from_uint64}
use runtopo.Libvirt.Runner.{Runner, new_runner, to_uint}
use runtopo.Libvirt.Inventory.Build.{build_inventory, sort_devices}
use runtopo.Libvirt.Inventory.Sort.{name_less, sink, sort_from, sort_interfaces}
use runtopo.Libvirt.Inventory.Devices.{
  add_host_devices, add_host_device, tunnel_ip_of, config_of, add_bmc,
}
use runtopo.Topology.AutoMgmt.{is_empty}
use runtopo.Topology.Device.{function}
use runtopo.Topology.Function.{same_function, device_function_from_string}
use runtopo.Libvirt.Inventory.{
  wire_link, wire_links, mac_or_new, allocate_mac, wire_left, wire_right, add_interface, is_uplink,
  is_network_link, bump_port,
}
use runtopo.Libvirt.Inventory.Build.Apart.{from_base, build_inventory-apart}
use runtopo.Libvirt.Inventory.Ports.{listens}
use runtopo.Libvirt.Inventory.Macs.{same_mac}
use runtopo.Libvirt.Inventory.Sums.{total}
use runtopo.Libvirt.Inventory.Build.Plugged.{gather_hosts-returns}
use runtopo.Libvirt.Customize.Hosts.{EtherHost, gather_hosts}
use runtopo.Tests.Graphs.{web, db, cable}
use runtopo.Tests.Network.{net}

abbrev pair : Topo net
pair = record {
  nodes = [];
  lines = [];
  devs = (codes "web-1", web) ∷ (codes "db", db) ∷ [];
  dot = [];
  auto_mgmt = false;
  mgmt_links = cable ∷ [];
}

abbrev visits : List Bytes
visits = codes "db" ∷ codes "web-1" ∷ []

abbrev mac : Bytes
mac = 0x44 ∷ 0x38 ∷ 0x39 ∷ 0 ∷ 0 ∷ 1 ∷ []

abbrev no_address : Bytes → Option Bytes
no_address s = none

abbrev no_ip : Bytes → Option ℕ
no_ip s = none

-- A runner with addresses as numbers.
starting : Runner ℕ ℕ
starting = new_runner (codes "secret") 127 []

-- What an outcome holds, where it is a value.
abbrev value_or : Outcome Error (Runner ℕ ℕ) → Runner ℕ ℕ → Runner ℕ ℕ
value_or (ok a) default = a
value_or (err e) default = default
value_or panic default = default

built : Runner ℕ ℕ
built = value_or (build_inventory net no_ip no_address visits pair starting) starting

built_run : build_inventory net no_ip no_address visits pair starting ≡ ok built
unfolding built build_inventory starting new_runner add_host_devices devices lookup str_eq
    add_host_device same_function function device_function_from_string tunnel_ip_of is_empty
    config_of add_bmc wire_links links wire_link insert mac_or_new sort_devices name_less sink
    sort_from sort_interfaces add_interface allocate_mac is_network_link is_uplink wire_left
    wire_right mac_addr_from_uint64 map_attr from_mac to_mac mac_int_from bump_port
built_run = refl

build_inventory-apart_example :
    (total (listens 11000) built.devices ≤ 1)
    × (total (λ i. same_mac i.mac mac) built.devices ≤ from_base mac starting.mac_base)
unfolding starting new_runner to_uint links from_mac to_mac map_attr lookup
build_inventory-apart_example =
    build_inventory-apart net no_ip no_address visits pair starting built 11000 mac refl
      (omega arith) (omega arith) (((λ h. cc), (λ h. cc)), tt) built_run

gather_hosts-returns_example :
    (hosts : List (EtherHost ℕ)) × (gather_hosts (λ ip. ip == 0) visits built.devices ≡ ok hosts)
unfolding links is_uplink str_eq is_network_link map_attr lookup
gather_hosts-returns_example =
    gather_hosts-returns net no_ip no_address visits visits pair starting built (λ ip. ip == 0)
      (inr (inl (inr (refl, refl, refl))), (inr (inl (inl refl)), tt)) built_run
