-- ===== src/Lib.antt =====
-- runtopo runs a network topology as virtual machines under libvirt. A topology is a graph in the
-- DOT language: its nodes are devices, its edges are cables.
--
-- The parts, and the files that model them:
--   Topology/Graph        topology/graph.go: the nodes and lines that the DOT reader fills in.
--   Topology/Device, Topology/Function, Topology/Link
--                         topology/device.go, defaults.go, devicefunction_string.go, link.go: the
--                         attributes of devices and cables, and what they default to.
--   Topology/Hostname, Topology/IpAllocator
--                         topology/helper.go: isValidHostname and ipAllocator.
--   Topology/Netaddr      what the code uses of inet.af/netaddr, as a record of operations with the
--                         laws that the package documents.
--   Topology/Topo, Topology/Parse, Topology/AutoMgmt
--                         topology/topology.go: the type T, Parse, and setupAutoMgmtNetwork.
--   Libvirt/NatCompare, Libvirt/Mac
--                         runner/libvirt/helper.go: natCompare and macAddrFromUint64.
--   Libvirt/Vbmc          runner/libvirt/vbmc.go: the configuration of the virtual BMCs, and the
--                         commands that start and stop them (Commands).
--   Libvirt/Runner, Libvirt/Device, Libvirt/Inventory
--                         runner/libvirt/runner.go: the options, NewRunner, and the loops of
--                         buildInventory (Devices: over the devices; Inventory itself: over the
--                         links; Ports, Macs, Plugs, Sums: what the links use up; Sort: the sort of
--                         the interfaces; Build: all together).
--   Libvirt/Exec, Libvirt/Hypervisor
--                         runner/libvirt/runner.go: a method with an error and deferred clean-ups,
--                         the calls of libvirt and of other programs, and the state of a run (Rollback,
--                         Quiet, Holds: what pieces of code acquire, undo and leave alone).
--   Libvirt/Template      runner/libvirt/template.go, and templateArgs of runner.go.
--   Libvirt/Volumes       runner/libvirt/volume.go and the fetches of helper.go (Upload: what becomes
--                         of the handles); Images (Accounts, Owned: where volumes are) and Disks:
--                         downloadBaseImages, createVolumes and deleteVolumes of runner.go.
--   Libvirt/Domains       runner/libvirt/runner.go: defineDomains, undefineDomains, startDomains
--                         (Define, Nil, Start, Order: the results of the two loops).
--   Libvirt/Customize     runner/libvirt/customize.go (Hosts, Lines: the lists of hosts, and how a
--                         command is read; Domain), and customizeDomains of runner.go (Jobs, Domains;
--                         Complete: what is customized in the end).
--   Libvirt/Output        waitForLease of runner/libvirt/helper.go; writeSSHConfig and writeBMCConfig of
--                         runner.go.
--   Libvirt/Lifecycle     runner/libvirt/runner.go: Run and Destroy (Frame: what a Run does not
--                         change; Again: a Destroy behind it).
--   Libvirt/Random, Libvirt/TempFiles
--                         randomString, writeTempFile and validateDomainXML of
--                         runner/libvirt/helper.go.
--   CommandLine           runtopo.go: the flags and the options of the runner, and main (Main).
--   Strconv, Prelude      what the code uses of Go's strings, maps, integers and package strconv.
--   Errors                the errors, by what they report.
--   Tests                 the theorems at concrete data.
--
-- Parse fills a Topo: it reads the graph's devices into a map by name (add_devices), adds the
-- management network (setup_auto_mgmt_network, which takes addresses from an IpAllocator and appends
-- links), and hands each link to its two devices (attach_links). The runner's buildInventory reads
-- the devices and links of a Topo: each device becomes a HostDevice, each end of a link an Iface.
-- Run then opens a connection, fetches the images, creates the volumes, defines, customizes and starts
-- the domains and writes the files of configuration, one step after the other, each with its clean-up
-- for an error of a later step. These steps work on a Session: the runner, its connection, domains and
-- images, and the log of the calls that have been made. What is answered to a call, given the log, is an
-- argument (Hypervisor), so that any failure of any call is covered.
--
-- A Go string is the list of its bytes. A map is an association list, and where the code ranges over
-- a map, the sequence of the keys that it visits is an argument, one for each range (Orders, for a Run). A function that can fail returns an
-- Outcome: a value, an error, or a panic. An int64 or uint keeps its wrap-around; the next port of a
-- BMC, which grows by one for each BMC in memory, has no bound. State is passed
-- explicitly. Parse and the loops of buildInventory return an error without their state: a failed Parse
-- returns nothing else, and inventory_left is what a failed buildInventory leaves in the runner.
--
-- Fuel: nat_compare_loop takes the length of its first text, since each round shortens both texts
-- (NatCompare/Fuel), and what stands for the end of the fuel is an argument of it; format_loop takes one more than the number, since a division by ten makes a number
-- of two digits or more smaller; waitForLease polls without bound, and wait_loop takes the number of polls
-- as fuel: writeSSHConfig has as many as there are up to the one after which the context is done.
--
-- Not modelled: the DOT reader and the multigraph (gonum), net.ParseIP, net.ParseMAC, net.SplitHostPort,
-- url.Parse, text/template, the XML of libvirt-go-xml, bcrypt and json.Marshal, which are arguments, as is
-- what vbmc, virt-customize, libvirt and the web servers answer. The fetches of the images and the calls of
-- virt-customize run side by side in the source; here they run one after the other, in the order in which
-- their results arrive, so that their calls are not interleaved, and the context is left out. Also left out:
-- signals, the text of the log, the close of the two written files at the end of main, the empty reader
-- eofReader, and runner/runner.go, an interface without code.
pub mod Prelude
pub mod Errors
pub mod Strconv
pub mod Topology
pub mod Libvirt
pub mod CommandLine
pub mod Tests
