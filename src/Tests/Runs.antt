-- ===== src/Tests/Runs.antt =====
-- The theorems on the life cycle, for a device with two interfaces and a libvirt that answers as the
-- functions here say.
use mathlib.Core.List.{Perm}
use runtopo.Prelude.{
  ◌≢◌, ok, arith, ℕ, ◌≡◌, refl, arith, true, false, Bytes, codes, str_eq, Option, none, some, List,
  [], ◌∷◌, length, ◌==◌, if◌then◌else◌, ◌*◌, ◌^◌,
}
use runtopo.Prelude.Int.{pos}
use runtopo.Prelude.Dict.{Dict, lookup}
use runtopo.Strconv.{is_digit}
use runtopo.Topology.Device.{Device, attr}
use runtopo.Topology.Device.Sizes.{Spells}
use runtopo.Libvirt.Device.{Iface, HostDevice}
use runtopo.Libvirt.Runner.{Runner, new_runner}
use runtopo.Libvirt.Hypervisor.{
  Call, connect, define_domain, create_domain, lookup_pool, create_volume, Log, Hypervisor, Session,
  logged,
}
use runtopo.Libvirt.Template.{DomainTemplateArgs, template_args, interface_args, source_of, udp}
use runtopo.Libvirt.Template.Arguments.{template_args-all, template_args-memory, source_of-mirrored}
use runtopo.Libvirt.Inventory.Wires.{IsTunnel}
use runtopo.Libvirt.Domains.{define_domains, start_domains, by_function}
use runtopo.Libvirt.Volumes.{StorageVolume, create_volume_from_url}
use runtopo.Libvirt.Volumes.Disks.{create_volumes}
use runtopo.Libvirt.Volumes.Disks.Create
use runtopo.Libvirt.Volumes.Upload.{Balanced}
use runtopo.Libvirt.Volumes.Upload.Paths.{create_volume_from_url-Balanced}
use runtopo.Libvirt.Domains.Nil.{define_domains-not_ok}
use runtopo.Libvirt.Domains.Define
use runtopo.Libvirt.Domains.Start
use runtopo.Libvirt.Domains.Order.{Ascending, by_function-Ascending}
use runtopo.Tests.Graphs.{device, web, db}
use runtopo.Tests.Hosts.{host_device}

-- The answers: the third domain, and volumes but one, cannot be had.
abbrev answers : Log → Call → Option ℕ
answers log (connect uri) = some 1
answers log (define_domain xml) = if length log == 2 then none else some 7
answers log (create_domain dom) = some 0
answers log (lookup_pool name) = some 2
answers log (create_volume pool xml) = if length log == 2 then none else some 9
answers log c = none

abbrev pub hv : Hypervisor
hv = record { number = answers; text = λ log c. []; vbmc = λ log commands c. true }

abbrev eth : Bytes → ℕ → ℕ → ℕ → Iface ℕ
eth name port local_port remote = record {
  name = name;
  mac = 0x44 ∷ 0x38 ∷ 0x39 ∷ 0 ∷ 0 ∷ 1 ∷ [];
  network = [];
  port = port;
  local_port = local_port;
  remote_tunnel_ip = some remote;
  pxe = false;
}

abbrev small : Device ℕ
small = device (codes "web-1") ((codes "memory", codes "512") ∷ (codes "os", codes "none") ∷ [])

abbrev pub left : HostDevice ℕ ℕ
left = record (host_device small 1) { interfaces = eth (codes "eth1") 11000 10000 2 ∷ [] }

abbrev right : HostDevice ℕ ℕ
right = record (host_device db 2) { interfaces = eth (codes "eth1") 10000 11000 1 ∷ [] }

abbrev pub hosts : Dict (HostDevice ℕ ℕ)
hosts = (codes "web-1", left) ∷ (codes "db", right) ∷ []

abbrev pub order : List Bytes
order = codes "web-1" ∷ codes "db" ∷ []

abbrev pub bare_runner : Runner ℕ ℕ
bare_runner = new_runner (codes "secret") 127 []

abbrev pub session : Session ℕ ℕ
session = record {
  runner = record bare_runner { devices = hosts };
  conn = some 1;
  domains = some [];
  base_images = [];
  log = [];
  commands = [];
}

abbrev pub ip_text : ℕ → Bytes
ip_text n = n ∷ []

abbrev pub render : DomainTemplateArgs → Option Bytes
render args = some args.name

abbrev pub marshal : StorageVolume → Option Bytes
marshal v = some v.name

abbrev pub split : Bytes → Option (Bytes × Bytes)
split addr = none

define_domains-Ends_example :
    Define.Ends
      (Define.found order hosts)
      []
      session
      (define_domains hv ip_text render order session)
define_domains-Ends_example = Define.define_domains-Ends hv ip_text render order session

start_domains-Ends_example :
    Start.Ends
      (Start.to_start (codes "runtopo-") (some []) (by_function (web ∷ db ∷ [])))
      []
      session
      (start_domains hv split [] (web ∷ db ∷ []) session)
unfolding new_runner
start_domains-Ends_example = Start.start_domains-Ends hv split [] (web ∷ db ∷ []) session

create_volumes-Ends_example :
    Create.Ends 2
      (length (Define.found order hosts))
      []
      (logged hv (lookup_pool session.runner.storage_pool) session)
      (create_volumes hv marshal order session)
create_volumes-Ends_example = Create.create_volumes-Ends hv marshal order session 2 refl

create_volume_from_url-Balanced_example :
    Balanced [] [] session
      (create_volume_from_url hv (λ url. some url) marshal 2 (codes "http://host/image") session)
create_volume_from_url-Balanced_example =
    create_volume_from_url-Balanced hv (λ url. some url) marshal 2 (codes "http://host/image")
      session

define_domains-not_ok_example :
    (define_domains hv ip_text render order (record session { domains = none })).0 ≢ ok tt
unfolding lookup str_eq Define.found
define_domains-not_ok_example =
    define_domains-not_ok hv ip_text render order (record session { domains = none }) refl
      (λ h. ground (arith, h))

by_function-Ascending_example :
    Perm (web ∷ db ∷ []) (by_function (web ∷ db ∷ [])) × Ascending (by_function (web ∷ db ∷ []))
by_function-Ascending_example = by_function-Ascending (web ∷ db ∷ [])

memory-Spells : Spells 512 (codes "512")
unfolding is_digit
memory-Spells = record {
  first = b'5';
  rest = codes "12";
  text = refl;
  digits = (refl, (refl, (refl, tt)));
  no_zero = refl;
  value = refl;
}

template_args-all_example :
    ((template_args ip_text left).interfaces
      ≡ interface_args ip_text 1 (eth (codes "eth1") 11000 10000 2) ∷ [])
    × ((template_args ip_text left).pxe_boot ≡ false)
template_args-all_example = template_args-all ip_text left

template_args-memory_example : (template_args ip_text left).memory ≡ pos (512 * 2 ^ 10)
unfolding attr lookup str_eq
template_args-memory_example = template_args-memory ip_text left 512 memory-Spells (omega arith)

ends-IsTunnel :
    IsTunnel left right (eth (codes "eth1") 11000 10000 2) (eth (codes "eth1") 10000 11000 1)
ends-IsTunnel = record {
  sends = refl;
  returns = refl;
  to_right = refl;
  to_left = refl;
  no_network = (refl, refl);
}

source_of-mirrored_example :
    (source_of (interface_args ip_text 1 (eth (codes "eth1") 11000 10000 2))
      ≡ udp (2 ∷ []) 11000 (1 ∷ []) 10000)
    × (source_of (interface_args ip_text 2 (eth (codes "eth1") 10000 11000 1))
        ≡ udp (1 ∷ []) 10000 (2 ∷ []) 11000)
source_of-mirrored_example =
    source_of-mirrored ip_text left right (eth (codes "eth1") 11000 10000 2)
      (eth (codes "eth1") 10000 11000 1) ends-IsTunnel
