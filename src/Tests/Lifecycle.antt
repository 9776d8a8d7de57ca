-- ===== src/Tests/Lifecycle.antt =====
-- The theorems on `Run` and `Destroy`, for a topology with no device.
use runtopo.Prelude.{ℕ, ◌≡◌, refl, false, codes, Option, none, some, [], ◌∷◌, ok, err}
use runtopo.Prelude.Dict.{lookup}
use runtopo.Errors.{no_pool}
use runtopo.Topology.Topo.{Topo}
use runtopo.Libvirt.Runner.{new_runner}
use runtopo.Libvirt.Hypervisor.{
  Call, connect, define_domain, create_domain, lookup_pool, create_volume, Event, Log, Hypervisor,
  Session, logged,
}
use runtopo.Libvirt.Domains.{define_domains, start_domains, by_function}
use runtopo.Libvirt.Volumes.{StorageVolume, create_volume_from_url}
use runtopo.Libvirt.Volumes.Disks.{create_volumes}
use runtopo.Libvirt.Output.{polled}
use runtopo.Libvirt.Lifecycle.{Outside, Orders, run, destroy}
use runtopo.Libvirt.Lifecycle.Failure.{Failed, run-Failed}
use runtopo.Tests.Network.{net}
use runtopo.Libvirt.Lifecycle.Cleared.{destroy-cleared}
use runtopo.Tests.Runs.{hv, order, session, bare_runner, ip_text, render, split, marshal}

abbrev pub outside : Outside ℕ ℕ
outside = record {
  hypervisor = hv;
  parse_net_ip = λ s. none;
  parse_mac = λ s. none;
  ip_text = ip_text;
  render = render;
  split = split;
  image_name = λ url. some url;
  marshal = marshal;
  parse_prefix = λ s. none;
  crypt_pw = λ name. name;
  print = ip_text;
  waits = λ dom. record { polls = λ n. polled []; limit = 0 };
  json = λ bmcs. some [];
}

abbrev pub orders : Orders
orders = record {
  devices = order;
  start_devices = order;
  ssh_devices = order;
  download_range = order;
  create_range = order;
  delete_range = order;
  define_range = order;
  undefine_range = order;
  customize_range = order;
  hosts = λ name. order;
  bmcs = [];
  arrivals = [];
  customized = [];
  images = [];
  kept_images = [];
  names = codes "runtopo-web-1" ∷ [];
}

-- Libvirt has a connection, and no storage pool.
abbrev no_pools : Log → Call → Option ℕ
no_pools log (connect uri) = some 1
no_pools log c = none

abbrev pub nowhere : Outside ℕ ℕ
nowhere = record outside { hypervisor = record hv { number = no_pools } }

abbrev pub empty_topo : Topo net
empty_topo = record {
  nodes = [];
  lines = [];
  devs = [];
  dot = [];
  auto_mgmt = false;
  mgmt_links = [];
}

abbrev pub fresh : Session ℕ ℕ
fresh = record session { runner = bare_runner; conn = none }

failed : Session ℕ ℕ
failed = (run net nowhere orders empty_topo fresh).1

run_failed : run net nowhere orders empty_topo fresh ≡ (err (no_pool (codes "default")), failed)
unfolding failed run new_runner runtopo.Libvirt.Lifecycle.load_inventory
    runtopo.Libvirt.Inventory.Build.build_inventory
    runtopo.Libvirt.Inventory.Devices.add_host_devices runtopo.Topology.Topo.devices lookup
    runtopo.Libvirt.Inventory.wire_links runtopo.Topology.Topo.links
    runtopo.Libvirt.Inventory.Build.sort_devices runtopo.Libvirt.Lifecycle.open_connection
    runtopo.Libvirt.Lifecycle.run_connected runtopo.Libvirt.Volumes.Images.download_base_images
    runtopo.Libvirt.Hypervisor.tell
run_failed = refl

run-Failed_example : Failed net nowhere orders empty_topo fresh failed
run-Failed_example =
    run-Failed net nowhere orders empty_topo fresh (no_pool (codes "default")) failed run_failed

gone : Session ℕ ℕ
gone = (destroy net outside orders empty_topo fresh).1

destroyed : destroy net outside orders empty_topo fresh ≡ (ok tt, gone)
unfolding gone destroy runtopo.Libvirt.Lifecycle.load_inventory
    runtopo.Libvirt.Inventory.Build.build_inventory
    runtopo.Libvirt.Inventory.Devices.add_host_devices runtopo.Topology.Topo.devices lookup
    runtopo.Libvirt.Inventory.wire_links runtopo.Topology.Topo.links
    runtopo.Libvirt.Inventory.Build.sort_devices new_runner
    runtopo.Libvirt.Lifecycle.open_connection runtopo.Libvirt.Domains.stop_bmcs
    runtopo.Libvirt.Vbmc.Commands.stop_all runtopo.Libvirt.Vbmc.Commands.stop_names
    runtopo.Libvirt.Vbmc.Commands.visited runtopo.Libvirt.Domains.undefine_domains
    runtopo.Libvirt.Lifecycle.drop_domains runtopo.Libvirt.Hypervisor.tell_all
    runtopo.Libvirt.Lifecycle.domain_frees runtopo.Libvirt.Volumes.Disks.delete_volumes
    runtopo.Libvirt.Hypervisor.tell runtopo.Libvirt.Lifecycle.drop_images
    runtopo.Libvirt.Volumes.Images.free_images
destroyed = refl

destroy-cleared_example : (gone.base_images ≡ []) × (gone.domains ≡ none)
destroy-cleared_example = destroy-cleared net outside orders empty_topo fresh gone destroyed
