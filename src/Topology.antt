-- ===== src/Topology.antt =====
-- The package topology/: the devices and links of a DOT graph, and the management network.
pub mod Function
pub mod Device
pub mod Link
pub mod Hostname
pub mod Netaddr
pub mod IpAllocator
pub mod Graph
pub mod Topo
pub mod AutoMgmt
pub mod Parse
