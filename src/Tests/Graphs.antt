-- ===== src/Tests/Graphs.antt =====
-- The topology's theorems on a graph with two hosts.
use runtopo.Prelude.{
  Distinct, ◌≡◌, ◌↔◌, refl, true, Bytes, codes, str_eq, List, [], ◌∷◌, arith, Outcome, ok, err,
  panic, All,
}
use runtopo.Prelude.Dict.{Dict, lookup, insert}
use runtopo.Errors.{Error}
use runtopo.Topology.Device.{Device, attr, function, has_function}
use runtopo.Topology.Function.{
  leaf, function_string, device_function_from_string, function_round_trip, same_function, among,
  to_int,
}
use runtopo.Topology.Hostname.{is_valid_hostname, IsHostname, is_valid_hostname_iff}
use runtopo.Topology.Link.{Link}
use runtopo.Topology.IpAllocator.{new_ip_allocator, reserve, allocate}
use runtopo.Topology.IpAllocator.Laws.{
  Request, reserving, allocating, serve, hand_out, IsHost, hand_out-new,
}
use runtopo.Topology.Topo.{Topo}
use runtopo.Topology.AutoMgmt.{
  server_name, switch_name, setup_auto_mgmt_network, reserve_all, wire_all, find_or_add, is_empty,
  new_server, new_switch, reserve_explicit, reserve_for, is_attached, is_oob_or_fake,
  allocate_missing, give,
}
use runtopo.Topology.AutoMgmt.Setup.{HasNoIps, IsManaged, setup-IsManaged}
use runtopo.Topology.Parse.{
  add_devices, attach_links, attach_link, add_ends, add_link, is_missing, is_mgmt_port,
}
use runtopo.Topology.Parse.Endpoints.{incident, with_links, lookup-attach_links}
use runtopo.Topology.Parse.Names.{IsNamed, insert_all, add_devices_iff}
use runtopo.Tests.Network.{
  Range, net, net-IsNetaddr, read_range, read_ip, span, member, without, in_range,
}

abbrev pub device : Bytes → Dict Bytes → Device net.Ip
device name attrs = record { name = name; attrs = attrs; links = []; mgmt_ip = 0 }

abbrev pub web : Device net.Ip
web = device (codes "web-1") ((codes "mgmt_ip", codes "192.168.200.3") ∷ [])

abbrev pub db : Device net.Ip
db = device (codes "db") []

abbrev hosts : Dict (Device net.Ip)
hosts = (codes "web-1", web) ∷ (codes "db", db) ∷ []

abbrev topo : Topo net
topo = record { nodes = []; lines = []; devs = hosts; dot = []; auto_mgmt = true; mgmt_links = [] }

abbrev pub cable : Link
cable = record {
  from = codes "web-1";
  from_port = codes "eth1";
  to = codes "db";
  to_port = codes "eth1";
  attrs = [];
}

leaf_read : device_function_from_string (function_string leaf) ≡ leaf
leaf_read = function_round_trip leaf

is_valid_hostname_iff_example :
    (is_valid_hostname (codes "web-1") ≡ true) ↔ IsHostname (codes "web-1")
is_valid_hostname_iff_example = is_valid_hostname_iff (codes "web-1")

abbrev range : Range
range = record { ip = 1006; below = 999; count = 8 }

-- A reservation, one of an address that is gone, and two allocations.
abbrev requests : List (Request net)
requests = reserving 1003 ∷ reserving 1003 ∷ allocating ∷ allocating ∷ []

hand_out_run : hand_out net (new_ip_allocator net range) requests ≡ 1003 ∷ 1001 ∷ 1002 ∷ []
unfolding hand_out serve new_ip_allocator reserve allocate span member without
hand_out_run = refl

hand_out-new_example :
    Distinct (hand_out net (new_ip_allocator net range) requests)
    × All (IsHost net range) (hand_out net (new_ip_allocator net range) requests)
hand_out-new_example = hand_out-new net net-IsNetaddr range requests

add_devices_iff_example :
    (add_devices net (web ∷ db ∷ []) [] ≡ ok hosts)
    ↔ (All (IsNamed net) (web ∷ db ∷ []) × (insert_all net (web ∷ db ∷ []) [] ≡ hosts))
add_devices_iff_example = add_devices_iff net (web ∷ db ∷ []) [] hosts

abbrev cabled : Dict (Device net.Ip)
cabled =
    (codes "web-1", record web { links = cable ∷ [] })
    ∷ (codes "db", record db { links = cable ∷ [] })
    ∷ []

attach_links_run : attach_links net (cable ∷ []) hosts ≡ ok cabled
unfolding attach_links attach_link add_ends add_link is_missing is_mgmt_port lookup insert str_eq
    is_empty
attach_links_run = refl

lookup-attach_links_example :
    lookup (codes "db") cabled
    ≡ with_links net (incident (codes "db") (cable ∷ [])) (lookup (codes "db") hosts)
lookup-attach_links_example =
    lookup-attach_links net (codes "db") (cable ∷ []) hosts cabled attach_links_run

hosts-HasNoIps : HasNoIps net net-IsNetaddr hosts
unfolding lookup
hosts-HasNoIps k d h = ground arith

abbrev order : List Bytes
order = codes "db" ∷ codes "web-1" ∷ server_name ∷ switch_name ∷ []

-- What an outcome holds, where it is a value.
abbrev value : Outcome Error (Topo net) → Topo net
value (ok t) = t
value (err e) = topo
value panic = topo

managed : Topo net
unfolding setup_auto_mgmt_network reserve_all wire_all find_or_add attr lookup insert str_eq
    is_empty new_server new_switch reserve_explicit reserve_for is_attached is_oob_or_fake
    has_function function among same_function allocate_missing give reserve allocate
    new_ip_allocator read_range read_ip span member without in_range function_string
    device_function_from_string
managed = value (setup_auto_mgmt_network net order order topo)

setup_run : setup_auto_mgmt_network net order order topo ≡ ok managed
unfolding managed setup_auto_mgmt_network reserve_all wire_all find_or_add attr lookup insert str_eq
    is_empty new_server new_switch reserve_explicit reserve_for is_attached is_oob_or_fake
    has_function function among same_function allocate_missing give reserve allocate
    new_ip_allocator read_range read_ip span member without in_range function_string
    device_function_from_string to_int
setup_run = refl

setup-IsManaged_example : IsManaged net net-IsNetaddr order topo managed
setup-IsManaged_example =
    setup-IsManaged net net-IsNetaddr order order topo managed hosts-HasNoIps setup_run
