-- ===== src/Tests/Hosts.antt =====
-- The runner's theorems on two devices and a cable between them.
use mathlib.Core.List.{Perm}
use runtopo.Prelude.{
  ◌>>=◌, ◌≤◌, ap, ◌≡◌, ◌↔◌, ℕ, refl, Bytes, codes, str_eq, Option, none, List, [], ◌∷◌, ◌++◌, arith,
  Outcome, ok, err, panic,
}
use runtopo.Prelude.Int.{ℤ, pos}
use runtopo.Prelude.Order.{flip}
use runtopo.Prelude.Dict.{lookup, insert, attr as map_attr}
use runtopo.Errors.{Error}
use runtopo.Strconv.{is_digit}
use runtopo.Topology.Device.{Device, function}
use runtopo.Topology.Function.{same_function, device_function_from_string}
use runtopo.Topology.Link.{from_mac, to_mac}
use runtopo.Libvirt.Mac.{mac_addr_from_uint64, mac_int_from, mac_int_from-mac_addr}
use runtopo.Libvirt.NatCompare.{nat_compare, nat_compare_loop}
use runtopo.Libvirt.NatCompare.Fuel.{nat_compare_loop-enough}
use runtopo.Libvirt.NatCompare.Runs.{runs}
use runtopo.Libvirt.NatCompare.Order.{IsSortable, sign, natural_order, nat_compare-sign, Before}
use runtopo.Libvirt.NatCompare.Laws.{Before-iff, Before-trans, nat_compare_zero, nat_compare_swap}
use runtopo.Libvirt.Device.{Iface, HostDevice}
use runtopo.Libvirt.Runner.{Runner, new_runner, to_uint}
use runtopo.Libvirt.Inventory.{
  Wiring, wire_link, wire_links, network_iface, mac_or_new, allocate_mac, wire_left, wire_right,
  add_interface, is_uplink, is_network_link,
}
use runtopo.Libvirt.Inventory.Wires.{IsWired, wire_link-IsWired}
use runtopo.Libvirt.Inventory.Devices.{
  add_host_devices, add_host_device, tunnel_ip_of, config_of, add_bmc,
}
use runtopo.Libvirt.Vbmc.{add, new_bmc_man}
use runtopo.Topology.AutoMgmt.{is_empty}
use runtopo.Libvirt.Inventory.Devices.Bmcs.{AddsBmcs, add_host_devices-AddsBmcs}
use runtopo.Libvirt.Inventory.Sort.{sort_interfaces}
use runtopo.Libvirt.Inventory.Sort.Sorted.{Rising, sort_interfaces-Rising}
use runtopo.Libvirt.Inventory.Ports.{listeners}
use runtopo.Libvirt.Inventory.Ports.Rounds.{wire_links-one_listener}
use runtopo.Tests.Graphs.{device, web, db, cable}

abbrev base : ℕ
base = 0x443839000000

mac_run : mac_addr_from_uint64 base ≡ ok (0x44 ∷ 0x38 ∷ 0x39 ∷ 0 ∷ 0 ∷ 0 ∷ [])
unfolding mac_addr_from_uint64
mac_run = refl

mac_int_from-mac_addr_example : mac_int_from 0 (0x44 ∷ 0x38 ∷ 0x39 ∷ 0 ∷ 0 ∷ 0 ∷ []) ≡ base
mac_int_from-mac_addr_example =
    mac_int_from-mac_addr base (0x44 ∷ 0x38 ∷ 0x39 ∷ 0 ∷ 0 ∷ 0 ∷ []) mac_run

swp_2-IsSortable : IsSortable (codes "swp2")
unfolding runs is_digit
swp_2-IsSortable = ((λ h. omega arith), ((λ h. omega arith), tt))

swp_10-IsSortable : IsSortable (codes "swp10")
unfolding runs is_digit
swp_10-IsSortable = ((λ h. omega arith), ((λ h. omega arith), tt))

eth_0-IsSortable : IsSortable (codes "eth0")
unfolding runs is_digit
eth_0-IsSortable = ((λ h. omega arith), ((λ h. omega arith), tt))

nat_compare-sign_example :
    (q : ℤ) × (nat_compare (codes "swp2") (codes "swp10") ≡ ok q)
    × (sign q ≡ natural_order (codes "swp2") (codes "swp10"))
nat_compare-sign_example =
    nat_compare-sign (codes "swp2") (codes "swp10") swp_2-IsSortable swp_10-IsSortable

nat_compare_zero_example :
    (nat_compare (codes "swp2") (codes "swp10") ≡ ok (pos 0)) ↔ (codes "swp2" ≡ codes "swp10")
nat_compare_zero_example =
    nat_compare_zero (codes "swp2") (codes "swp10") swp_2-IsSortable swp_10-IsSortable

nat_compare_swap_example :
    (p q : ℤ) × (nat_compare (codes "swp2") (codes "swp10") ≡ ok p)
    × (nat_compare (codes "swp10") (codes "swp2") ≡ ok q)
    × (sign q ≡ flip (sign p))
nat_compare_swap_example =
    nat_compare_swap (codes "swp2") (codes "swp10") swp_2-IsSortable swp_10-IsSortable

nat_compare_loop-enough_example :
    nat_compare_loop (ok (pos 7)) 9 (codes "swp2") (codes "swp10")
    ≡ nat_compare (codes "swp2") (codes "swp10")
nat_compare_loop-enough_example =
    nat_compare_loop-enough (ok (pos 7)) 9 (codes "swp2") (codes "swp10") (omega arith)

eth_0-Before : Before (codes "eth0") (codes "swp2")
unfolding runs is_digit
eth_0-Before = (Before-iff (codes "eth0") (codes "swp2") eth_0-IsSortable swp_2-IsSortable).1 refl

swp_2-Before : Before (codes "swp2") (codes "swp10")
unfolding runs is_digit
swp_2-Before = (Before-iff (codes "swp2") (codes "swp10") swp_2-IsSortable swp_10-IsSortable).1 refl

Before-trans_example : Before (codes "eth0") (codes "swp10")
Before-trans_example =
    Before-trans (codes "eth0") (codes "swp2") (codes "swp10") eth_0-IsSortable swp_2-IsSortable
      swp_10-IsSortable eth_0-Before swp_2-Before

abbrev plug : Bytes → Iface ℕ
plug name = network_iface name [] []

abbrev plugs : List (Iface ℕ)
plugs = plug (codes "swp10") ∷ plug (codes "swp2") ∷ plug (codes "eth0") ∷ []

sort_interfaces-Rising_example :
    (ys : List (Iface ℕ)) × (sort_interfaces plugs ≡ ok ys) × Perm plugs ys × Rising ys
unfolding network_iface
sort_interfaces-Rising_example =
    sort_interfaces-Rising plugs (swp_10-IsSortable, (swp_2-IsSortable, (eth_0-IsSortable, tt)))

-- A runner with addresses as numbers and no options.
runner : Runner ℕ ℕ
runner = new_runner (codes "secret") 127 []

abbrev no_ip : Bytes → Option ℕ
no_ip s = none

abbrev no_mac : Bytes → Option Bytes
no_mac s = none

abbrev server : Device ℕ
server = device (codes "srv") ((codes "bmc", codes "yes") ∷ [])

-- What an outcome holds, where it is a value.
abbrev value : {A : Type 0} → Outcome Error A → A → A
value (ok a) default = a
value (err e) default = default
value panic default = default

hosted : Runner ℕ ℕ
hosted = value (add_host_devices no_ip (web ∷ server ∷ []) runner) runner

hosted_run : add_host_devices no_ip (web ∷ server ∷ []) runner ≡ ok hosted
unfolding hosted add_host_devices runner new_runner add_host_device same_function function
    device_function_from_string str_eq lookup tunnel_ip_of is_empty config_of add_bmc add
    new_bmc_man
hosted_run = refl

add_host_devices-AddsBmcs_example : AddsBmcs (web ∷ server ∷ []) runner hosted
add_host_devices-AddsBmcs_example =
    add_host_devices-AddsBmcs no_ip (web ∷ server ∷ []) runner hosted hosted_run

abbrev pub host_device : Device ℕ → ℕ → HostDevice ℕ ℕ
host_device d ip = record {
  device = d;
  name = codes "runtopo-" ++ d.name;
  tunnel_ip = ip;
  interfaces = [];
  pool = codes "default";
  config = [];
}

abbrev start : Wiring ℕ ℕ
start = record {
  devices = (codes "web-1", host_device web 1) ∷ (codes "db", host_device db 2) ∷ [];
  mac_int = base;
  next_port = 10000;
}

wired : Wiring ℕ ℕ
wired = value (wire_link no_mac runner cable start) start

wired_run : wire_link no_mac runner cable start ≡ ok wired
unfolding wired wire_link runner new_runner lookup str_eq mac_or_new from_mac map_attr allocate_mac
    mac_addr_from_uint64 wire_left is_uplink is_network_link wire_right add_interface insert to_mac
wired_run = refl

wire_link-IsWired_example : IsWired cable (host_device web 1) (host_device db 2) start wired
unfolding lookup str_eq is_uplink is_network_link map_attr
wire_link-IsWired_example =
    wire_link-IsWired no_mac runner cable start wired (host_device web 1) (host_device db 2)
      (λ h. cc) refl refl refl refl wired_run

wires_run : wire_links no_mac runner (cable ∷ []) start ≡ ok wired
unfolding wire_links
wires_run = ap (λ o. o >>= ok) wired_run

wired_once : listeners 11000 wired.devices ≤ 1
unfolding runner new_runner to_uint
wired_once =
    wire_links-one_listener no_mac runner (cable ∷ []) start wired (λ q. refl) (omega arith)
      (omega arith) wires_run 11000
