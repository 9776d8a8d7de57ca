-- ===== src/Topology/Parse.antt =====
-- `Parse` of topology/topology.go. What gonum's DOT reader makes of the input is the argument
-- `read_dot`: the nodes and lines of the graph, or none for its error. The sequences of keys that
-- the loops of the management network visit are arguments too.
pub mod Endpoints
pub mod Names
use runtopo.Prelude.{
  Bool, true, false, ◌&&◌, ◌||◌, not, Bytes, codes, str_eq, Option, none, some, List, [], ◌∷◌, ◌++◌,
  Outcome, ok, err, panic, ◌>>=◌, if◌then◌else◌,
}
use runtopo.Prelude.Dict.{Dict, lookup, insert}
use runtopo.Errors.{Error, unreadable, unmarshal, invalid_hostname, unknown_nodes}
use runtopo.Topology.AutoMgmt.{server_name, switch_name, is_empty, setup_auto_mgmt_network}
use runtopo.Topology.Device.{Device, function}
use runtopo.Topology.Function.{fake, same_function}
use runtopo.Topology.Graph.{DotNode, DotLine}
use runtopo.Topology.Hostname.{is_valid_hostname}
use runtopo.Topology.Link.{Link}
use runtopo.Topology.Netaddr.{Netaddr}
use runtopo.Topology.Topo.{Topo, graph_devices, links}

-- `t.devs[key] == nil`
unfoldable pub is_missing {ℓ} : {V : Type ℓ} → Bytes → Dict V → Bool
is_missing key devs = elim (lookup key devs) [ none ↦ true | some _ ↦ false ]

-- A link with no end to the right: the management port of the server or the switch.
unfoldable pub is_mgmt_port : Link → Bool
is_mgmt_port l = not (
    not (str_eq l.from server_name) && not (str_eq l.from switch_name)
    || not (str_eq l.from_port (codes "eth0"))
    || not (is_empty l.to))

module _ (N : Netaddr) where
  open N use {Ip}

  -- The option `WithAutoMgmtNetwork`.
  unfoldable pub with_auto_mgmt_network : Topo N → Topo N
  with_auto_mgmt_network t = record t { auto_mgmt = true }

  unfoldable pub apply_options : List (Topo N → Topo N) → Topo N → Topo N
  apply_options [] t = t
  apply_options (opt ∷ opts) t = apply_options opts (opt t)

  -- The loop over the graph's devices; a second device of one name takes the place of the first.
  unfoldable pub add_devices :
      List (Device Ip) → Dict (Device Ip) → Outcome Error (Dict (Device Ip))
  add_devices [] devs = ok devs
  add_devices (d ∷ ds) devs =
      let rest = add_devices ds (insert d.name d devs) in
      if not (is_valid_hostname d.name) && not (same_function (function d) fake)
      then err (invalid_hostname d.name)
      else rest

  -- `t.devs[key].links = append(t.devs[key].links, l)`; a missing device is a nil pointer.
  unfoldable pub add_link : Bytes → Link → Dict (Device Ip) → Outcome Error (Dict (Device Ip))
  add_link key l devs = elim (lookup key devs) [
    | none ↦ panic
    | some d ↦ ok (insert key (record d { links = d.links ++ l ∷ [] }) devs)
  ]

  unfoldable pub add_ends : Link → Dict (Device Ip) → Outcome Error (Dict (Device Ip))
  add_ends l devs = do
    devs' ← add_link l.from l devs
    if is_empty l.to then ok devs' else add_link l.to l devs'

  -- The body of the loop that associates the links with their endpoints.
  unfoldable pub attach_link : Link → Dict (Device Ip) → Outcome Error (Dict (Device Ip))
  attach_link l devs =
      if (is_missing l.from devs || is_missing l.to devs) && not (is_mgmt_port l)
      then err (unknown_nodes l.from l.to)
      else add_ends l devs

  unfoldable pub attach_links : List Link → Dict (Device Ip) → Outcome Error (Dict (Device Ip))
  attach_links [] devs = ok devs
  attach_links (l ∷ ls) devs = do devs' ← attach_link l devs; attach_links ls devs'

  unfoldable pub setup_if_auto : List Bytes → List Bytes → Topo N → Outcome Error (Topo N)
  setup_if_auto order wire_order t =
      if t.auto_mgmt then setup_auto_mgmt_network N order wire_order t else ok t

  -- What `Parse` does with the graph.
  unfoldable pub build : List Bytes → List Bytes → Bytes → Topo N → Outcome Error (Topo N)
  build order wire_order dot_bytes t = do
    devs ← add_devices (graph_devices N t) t.devs
    t₁ ← setup_if_auto order wire_order (record t { devs = devs })
    devs₁ ← attach_links (links N t₁) t₁.devs
    ok (record t₁ { devs = devs₁; dot = dot_bytes })

  unfoldable pub new_topo : List DotNode → List DotLine → Topo N
  new_topo nodes lines = record {
    nodes = nodes;
    lines = lines;
    devs = [];
    dot = [];
    auto_mgmt = false;
    mgmt_links = [];
  }

  unfoldable pub parse :
      (Bytes → Option (List DotNode × List DotLine))
      → List Bytes
      → List Bytes
      → Bytes
      → List (Topo N → Topo N)
      → Outcome Error (Topo N)
  parse read_dot order wire_order dot_bytes opts = elim (read_dot dot_bytes) [
    | none ↦ err unmarshal
    | some (nodes, lines) ↦
        build order wire_order dot_bytes (apply_options opts (new_topo nodes lines))
  ]

  -- `ParseFile`; `read_file` is what `ioutil.ReadFile` returns.
  unfoldable pub parse_file :
      (Bytes → Option Bytes)
      → (Bytes → Option (List DotNode × List DotLine))
      → List Bytes
      → List Bytes
      → Bytes
      → List (Topo N → Topo N)
      → Outcome Error (Topo N)
  unfolding parse
  parse_file read_file read_dot order wire_order path opts = elim (read_file path) [
    | none ↦ err (unreadable path)
    | some p ↦ parse read_dot order wire_order p opts
  ]
