-- ===== src/Tests/Programs.antt =====
-- A process that parses an empty graph, and whose `Run` finds no storage pool.
use runtopo.Prelude.{ℕ, ◌≡◌, refl, codes, some, none, [], ◌∷◌, true, Bytes, List}
use runtopo.Errors.{no_pool}
use runtopo.Libvirt.Lifecycle.{Outside}
use runtopo.CommandLine.{Environment, Files, Flags, default_flags}
use runtopo.CommandLine.Main.{World, main, failed}
use runtopo.Tests.Network.{net}
use runtopo.Tests.Lifecycle.{nowhere, orders}

abbrev at_home : Files
at_home = record {
  public_keys = λ home. some [];
  read_file = λ path. some [];
  create = λ path. true;
  home_dir = some (codes "/root");
}

abbrev world : World net ℕ
world = record {
  outside = record nowhere { parse_net_ip = λ s. some 127 };
  orders = orders;
  files = at_home;
  read_dot = λ p. some ([], []);
  order = [];
  wire_order = [];
  config_fs = λ path file. none;
  random = codes "secret";
  local = 127;
}

abbrev unset : Environment
unset key = []

main_run :
    (main net world unset (default_flags unset) (codes "net.dot" ∷ [])).0
    ≡ failed (no_pool (codes "default"))
unfolding main default_flags runtopo.CommandLine.load_ssh_public_keys
    runtopo.Topology.AutoMgmt.is_empty runtopo.Topology.Parse.parse_file
    runtopo.Topology.Parse.build runtopo.Topology.Parse.add_devices
    runtopo.Topology.Topo.graph_devices runtopo.Topology.Parse.apply_options
    runtopo.Topology.Parse.new_topo runtopo.Topology.Parse.setup_if_auto
    runtopo.Topology.Parse.attach_links runtopo.Topology.Topo.links
    runtopo.CommandLine.runner_options runtopo.Libvirt.Lifecycle.run
    runtopo.Libvirt.Runner.new_runner runtopo.Libvirt.Runner.with_config_fs
    runtopo.Libvirt.Runner.with_authorized_keys runtopo.Libvirt.Runner.with_tunnel_ip
    runtopo.Libvirt.Runner.with_storage_pool runtopo.Libvirt.Runner.with_port_gap
    runtopo.Libvirt.Runner.with_port_base runtopo.Libvirt.Runner.with_name_prefix
    runtopo.Libvirt.Lifecycle.load_inventory runtopo.Libvirt.Inventory.Build.build_inventory
    runtopo.Libvirt.Inventory.Devices.add_host_devices runtopo.Topology.Topo.devices
    runtopo.Prelude.Dict.lookup runtopo.Libvirt.Inventory.wire_links
    runtopo.Libvirt.Inventory.Build.sort_devices runtopo.Libvirt.Lifecycle.open_connection
    runtopo.Libvirt.Lifecycle.run_connected runtopo.Libvirt.Volumes.Images.download_base_images
    runtopo.Libvirt.Hypervisor.tell
main_run = refl
