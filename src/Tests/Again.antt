-- ===== src/Tests/Again.antt =====
-- `Run` and then `Destroy`, for one device with a BMC and a libvirt that grants all calls.
use runtopo.Prelude.{ℕ, ◌≡◌, refl, codes, [], ◌∷◌, some, ok, err, inl, str_eq}
use runtopo.Prelude.Dict.{lookup}
use runtopo.Errors.{Error}
use runtopo.Topology.Device.{Device, function}
use runtopo.Topology.Function.{same_function, device_function_from_string}
use runtopo.Topology.AutoMgmt.{is_empty}
use runtopo.Topology.Topo.{Topo, devices}
use runtopo.Libvirt.Runner.{new_runner}
use runtopo.Libvirt.Hypervisor.{Session}
use runtopo.Libvirt.Lifecycle.{Outside, Orders, run, destroy}
use runtopo.Libvirt.Lifecycle.Again.{destroy-again}
use runtopo.Tests.Graphs.{device}
use runtopo.Tests.Network.{net}
use runtopo.Tests.Lifecycle.{outside, orders, fresh, empty_topo}
use runtopo.Tests.Runs.{hv}

abbrev granting : Outside ℕ ℕ
granting = record outside { hypervisor = record hv { number = λ log c. some 1 } }

abbrev machine : Device ℕ
machine = device (codes "db") ((codes "os", codes "none") ∷ (codes "bmc", codes "yes") ∷ [])

abbrev machines : Topo net
machines = record empty_topo { devs = (codes "db", machine) ∷ [] }

ran : Session ℕ ℕ
ran = (run net granting orders machines fresh).1

run_granted : run net granting orders machines fresh ≡ (ok tt, ran)
unfolding ran run new_runner runtopo.Libvirt.Lifecycle.load_inventory
    runtopo.Libvirt.Inventory.Build.build_inventory
    runtopo.Libvirt.Inventory.Devices.add_host_devices devices lookup str_eq
    runtopo.Libvirt.Inventory.Devices.add_host_device same_function function
    device_function_from_string runtopo.Libvirt.Inventory.Devices.tunnel_ip_of is_empty
    runtopo.Libvirt.Inventory.Devices.config_of runtopo.Libvirt.Inventory.Devices.add_bmc
    runtopo.Libvirt.Vbmc.add runtopo.Libvirt.Vbmc.new_bmc_man runtopo.Libvirt.Inventory.wire_links
    runtopo.Topology.Topo.links runtopo.Libvirt.Inventory.Build.sort_devices
    runtopo.Prelude.Dict.insert runtopo.Libvirt.Inventory.Sort.sort_interfaces
    runtopo.Libvirt.Inventory.Sort.sort_from runtopo.Libvirt.Lifecycle.open_connection
    runtopo.Libvirt.Lifecycle.run_connected runtopo.Libvirt.Volumes.Images.download_base_images
    runtopo.Libvirt.Hypervisor.tell runtopo.Topology.Device.os_image
    runtopo.Libvirt.Lifecycle.run_downloaded runtopo.Libvirt.Volumes.Disks.create_volumes
    runtopo.Libvirt.Volumes.Disks.create_each runtopo.Libvirt.Volumes.Disks.create_one
    runtopo.Libvirt.Volumes.Disks.volume_of runtopo.Libvirt.Volumes.Disks.volume_with
    runtopo.Libvirt.Hypervisor.tell_all runtopo.Libvirt.Lifecycle.run_created
    runtopo.Libvirt.Domains.define_domains runtopo.Libvirt.Domains.define_each
    runtopo.Libvirt.Volumes.Disks.mark_pool runtopo.Libvirt.Domains.put_domain
    runtopo.Libvirt.Lifecycle.run_defined runtopo.Libvirt.Customize.Domains.customize_domains
    runtopo.Libvirt.Domains.start_domains runtopo.Libvirt.Domains.start_each
    runtopo.Libvirt.Domains.by_function runtopo.Libvirt.Domains.insert_device
    runtopo.Libvirt.Domains.is_skipped runtopo.Libvirt.Domains.start_bmcs
    runtopo.Libvirt.Domains.finish_start runtopo.Libvirt.Vbmc.Commands.start_all
    runtopo.Libvirt.Vbmc.Commands.start_from runtopo.Libvirt.Vbmc.Commands.start_added
run_granted = refl

destroy-again_example :
    (e : Error) × ((destroy net granting orders machines ran).0 ≡ err e)
    × ((destroy net granting orders machines ran).1.log ≡ ran.log)
unfolding devices lookup str_eq same_function function device_function_from_string is_empty
destroy-again_example =
    destroy-again net granting orders orders machines machine fresh ran (inl refl) (inl refl) refl
      run_granted
