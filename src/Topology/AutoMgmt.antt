-- ===== src/Topology/AutoMgmt.antt =====
-- `setupAutoMgmtNetwork` of topology/topology.go. Its two loops range over the map of devices; the
-- sequences of keys that they visit are the arguments `order` and `wire_order`.
pub mod Addresses
pub mod Wiring
pub mod Setup
use runtopo.Prelude.{
  ℕ, ◌+◌, Bool, true, false, ◌&&◌, ◌||◌, not, Bytes, codes, Option, none, some, List, [], ◌∷◌, ◌++◌,
  Outcome, ok, err, ◌>>=◌, if◌then◌else◌,
}
use runtopo.Prelude.Dict.{Dict, lookup, insert}
use runtopo.Errors.{Error, bad_prefix, bad_mgmt_ip, cannot_reserve, range_exhausted}
use runtopo.Strconv.Format.{format_decimal}
use runtopo.Topology.Device.{Device, attr, has_function}
use runtopo.Topology.Function.{fake, oob_server, oob_switch, function_string}
use runtopo.Topology.Link.{Link}
use runtopo.Topology.Netaddr.{Netaddr}
use runtopo.Topology.IpAllocator.{IpAllocator, new_ip_allocator, reserve, allocate}
use runtopo.Topology.Topo.{Topo}

abbrev pub server_name : Bytes
server_name = codes "oob-mgmt-server"

abbrev pub switch_name : Bytes
switch_name = codes "oob-mgmt-switch"

unfoldable pub is_empty : Bytes → Bool
is_empty [] = true
is_empty (c ∷ s) = false

-- `Sprintf("swp%d", i)`
unfoldable pub swp : ℕ → Bytes
unfolding format_decimal
swp i = codes "swp" ++ format_decimal i

unfoldable pub server_uplink : Link
server_uplink = record {
  from = server_name;
  from_port = codes "eth0";
  to = [];
  to_port = [];
  attrs = [];
}

unfoldable pub switch_mgmt_link : Link
switch_mgmt_link = record {
  from = switch_name;
  from_port = codes "eth0";
  to = [];
  to_port = [];
  attrs = [];
}

unfoldable pub server_switch_link : Link
server_switch_link = record {
  from = server_name;
  from_port = codes "eth1";
  to = switch_name;
  to_port = codes "swp1";
  attrs = [];
}

-- The link from port `i` of the switch to a device.
unfoldable pub switch_link : Bytes → ℕ → Bytes → Link
unfolding swp
switch_link switch i name = record {
  from = switch;
  from_port = swp i;
  to = name;
  to_port = codes "eth0";
  attrs = [];
}

module _ (N : Netaddr) where
  open N use {Ip, zero_ip, is_zero, parse_ip, parse_ip_prefix, prefix_ip}

  unfoldable pub new_server : Device Ip
  unfolding function_string
  new_server = record {
    name = server_name;
    attrs =
        (codes "function", function_string oob_server)
        ∷ (codes "mgmt_ip", codes "192.168.200.254/24")
        ∷ [];
    links = [];
    mgmt_ip = zero_ip;
  }

  unfoldable pub new_switch : Device Ip
  unfolding function_string
  new_switch = record {
    name = switch_name;
    attrs = (codes "function", function_string oob_switch) ∷ [];
    links = [];
    mgmt_ip = zero_ip;
  }

  -- The device of that name, which joins the map if it is missing.
  unfoldable pub find_or_add : Bytes → Device Ip → Dict (Device Ip) → Device Ip × Dict (Device Ip)
  find_or_add key new devs = elim (lookup key devs) [
    | none ↦ (new, insert key new devs)
    | some d ↦ (d, devs)
  ]

  -- The devices that both loops pass over.
  unfoldable pub is_oob_or_fake : Device Ip → Bool
  is_oob_or_fake d = has_function d (oob_switch ∷ oob_server ∷ fake ∷ [])

  -- The reservation of an address that was read.
  unfoldable pub reserve_for :
      Device Ip → IpAllocator N → Option Ip → Outcome Error (Device Ip × IpAllocator N)
  reserve_for d a none = err (bad_mgmt_ip d.name (attr d (codes "mgmt_ip")))
  reserve_for d a (some ip) =
      let (b, success) = reserve N a ip in
      if success then ok (record d { mgmt_ip = ip }, b) else err (cannot_reserve d.name)

  -- The body of the first loop: an address that the device asks for is reserved for it.
  unfoldable pub reserve_explicit :
      Device Ip → IpAllocator N → Outcome Error (Device Ip × IpAllocator N)
  reserve_explicit d a =
      let ip_str = attr d (codes "mgmt_ip") in
      if is_oob_or_fake d
      then ok (d, a)
      else if is_empty ip_str || not (is_empty (attr d (codes "no_mgmt")))
      then ok (d, a)
      else reserve_for d a (parse_ip ip_str)

  unfoldable pub reserve_all :
      List Bytes
      → Dict (Device Ip)
      → IpAllocator N
      → Outcome Error (Dict (Device Ip) × IpAllocator N)
  reserve_all [] devs a = ok (devs, a)
  reserve_all (k ∷ order) devs a = elim (lookup k devs) [
    | none ↦ reserve_all order devs a
    | some d ↦ reserve_explicit d a >>= λ (d', b). reserve_all order (insert k d' devs) b
  ]

  -- The devices that the second loop wires to the switch.
  unfoldable pub is_attached : Device Ip → Bool
  is_attached d = is_empty (attr d (codes "no_mgmt")) && not (is_oob_or_fake d)

  -- What `allocate` returned, for a device.
  unfoldable pub give :
      Device Ip → IpAllocator N × Option Ip → Outcome Error (Device Ip × IpAllocator N)
  give d (b, none) = err (range_exhausted d.name)
  give d (b, some ip) = ok (record d { mgmt_ip = ip }, b)

  -- A device with no address yet gets the next free one.
  unfoldable pub allocate_missing :
      Device Ip → IpAllocator N → Outcome Error (Device Ip × IpAllocator N)
  allocate_missing d a = if is_zero d.mgmt_ip then give d (allocate N a) else ok (d, a)

  -- The second loop, from port `i` on: the devices, and the links that it appends.
  unfoldable pub wire_all :
      Bytes
      → List Bytes
      → ℕ
      → Dict (Device Ip)
      → IpAllocator N
      → Outcome Error (Dict (Device Ip) × List Link)
  wire_all switch [] i devs a = ok (devs, [])
  wire_all switch (k ∷ order) i devs a = elim (lookup k devs) [
    | none ↦ wire_all switch order i devs a
    | some d ↦ elim (is_attached d) [
      | false ↦ wire_all switch order i devs a
      | true ↦ allocate_missing d a >>= λ (d', b).
          wire_all switch order (i + 1) (insert k d' devs) b >>= λ (devs', ls).
          ok (devs', switch_link switch i d.name ∷ ls)
    ]
  ]

  unfoldable pub setup_auto_mgmt_network : List Bytes → List Bytes → Topo N → Outcome Error (Topo N)
  setup_auto_mgmt_network order wire_order t =
      let (server, devs₁) = find_or_add server_name new_server t.devs in
      let (switch, devs₂) = find_or_add switch_name new_switch devs₁ in
      let prefix_text = attr server (codes "mgmt_ip") in
      elim (parse_ip_prefix prefix_text) [
        | none ↦ err (bad_prefix prefix_text)
        | some p ↦
            let (a, _) = reserve N (new_ip_allocator N p) (prefix_ip p) in
            reserve_all order devs₂ a >>= λ (devs₃, b).
            wire_all switch.name wire_order 2 devs₃ b >>= λ (devs₄, ls). ok (record t {
              devs = devs₄;
              mgmt_links =
                  t.mgmt_links ++ (server_uplink ∷ switch_mgmt_link ∷ server_switch_link ∷ ls);
            })
      ]
