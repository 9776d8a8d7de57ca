-- ===== src/Topology/Topo.antt =====
-- The type `T` of topology/topology.go, with `devices` and `Links`.
use runtopo.Prelude.{Bool, Bytes, List, [], ◌∷◌, ◌++◌, map, none, some}
use runtopo.Prelude.Dict.{Dict, lookup}
use runtopo.Topology.Device.{Device}
use runtopo.Topology.Graph.{DotNode, DotLine, link_of_line}
use runtopo.Topology.Link.{Link}
use runtopo.Topology.Netaddr.{Netaddr}

module _ (N : Netaddr) where
  open N use {Ip, zero_ip}

  -- The graph is what gonum hands out of it: its nodes, and its lines, in some order each.
  pub record Topo : Type 0 where
    pub nodes : List DotNode
    pub lines : List DotLine
    pub devs : Dict (Device Ip)
    pub dot : Bytes
    pub auto_mgmt : Bool
    pub mgmt_links : List Link

  unfoldable pub device_of_node : DotNode → Device Ip
  device_of_node n = record { name = n.dot_id; attrs = n.attrs; links = []; mgmt_ip = zero_ip }

  -- `devices`, before the map of devices is filled.
  unfoldable pub graph_devices : Topo → List (Device Ip)
  unfolding device_of_node
  graph_devices t = map device_of_node t.nodes

  unfoldable pub links : Topo → List Link
  unfolding link_of_line
  links t = map link_of_line t.lines ++ t.mgmt_links

  -- The devices under the visited keys.
  visit : Dict (Device Ip) → List Bytes → List (Device Ip)
  visit devs [] = []
  visit devs (k ∷ ks) = elim (lookup k devs) [ none ↦ visit devs ks | some d ↦ d ∷ visit devs ks ]

  -- `Devices` ranges over the map: `order` is the sequence of keys that it visits.
  unfoldable pub devices : Topo → List Bytes → List (Device Ip)
  unfolding visit
  devices t order = visit t.devs order

  -- `DOT`: a copy.
  unfoldable pub dot_of : Topo → Bytes
  dot_of t = t.dot
