-- ===== src/Libvirt/Template.antt =====
-- runner/libvirt/template.go, and `templateArgs` of runner/libvirt/runner.go: what the templates of a
-- domain and of the udev rules are filled with. The XML that libvirt-go-xml makes of an interface is an
-- argument, and so is what `net.IP.String` returns on an address that is not nil.
pub mod Arguments
use runtopo.Prelude.{
  ℕ, ◌+◌, ◌-◌, ◌/◌, ◌%◌, Bool, true, false, not, Bytes, codes, str_eq, Option, none, some, List, [],
  ◌∷◌, ◌++◌, ltb, Outcome, ok, panic, if◌then◌else◌,
}
use runtopo.Prelude.Int.{ℤ, shr64}
use runtopo.Errors.{Error}
use runtopo.Topology.AutoMgmt.{is_empty}
use runtopo.Topology.Device.{attr, vcpus, memory}
use runtopo.Libvirt.Device.{Iface, HostDevice}

pub record UdpSource : Type 0 where
  pub address : Bytes
  pub port : ℕ
  pub local_address : Bytes
  pub local_port : ℕ

pub record DomainInterface : Type 0 where
  pub typ : Bytes
  pub mac_addr : Bytes
  pub target_dev : Bytes
  pub model : Bytes
  pub pxe : Bool
  pub network_source : Bytes
  pub udp_source : UdpSource

pub record DomainTemplateArgs : Type 0 where
  pub name : Bytes
  pub vcpus : ℤ
  pub memory : ℤ
  pub pool : Bytes
  pub pxe_boot : Bool
  pub uefi : Bool
  pub interfaces : List DomainInterface

-- `net.HardwareAddr.String`: two hexadecimal digits for each byte, with colons between.
hex_digit : ℕ → ℕ
hex_digit d = if ltb d 10 then b'0' + d else b'a' + (d - 10)

hex_byte : ℕ → Bytes
hex_byte b = hex_digit (b / 16 % 16) ∷ hex_digit (b % 16) ∷ []

unfoldable pub mac_string : Bytes → Bytes
unfolding hex_byte hex_digit
mac_string [] = []
mac_string (b ∷ []) = hex_byte b
mac_string (b ∷ c ∷ bs) = hex_byte b ++ b':' ∷ mac_string (c ∷ bs)

module _ {NetIp : Type 0} (ip_text : NetIp → Bytes) where
  -- The nil address has a text too.
  unfoldable pub ip_string : Option NetIp → Bytes
  ip_string none = codes "<nil>"
  ip_string (some ip) = ip_text ip

  -- The body of the loop of `templateArgs`, for a device with that tunnel address.
  unfoldable pub interface_args : NetIp → Iface NetIp → DomainInterface
  unfolding ip_string
  interface_args tunnel_ip i = record {
    typ = if is_empty i.network then codes "udp" else codes "network";
    mac_addr = mac_string i.mac;
    target_dev = i.name;
    model = codes "virtio";
    pxe = i.pxe;
    network_source = i.network;
    udp_source = record {
      address = ip_string i.remote_tunnel_ip;
      port = i.port;
      local_address = ip_text tunnel_ip;
      local_port = i.local_port;
    };
  }

  unfoldable pub add_interfaces :
      NetIp → List (Iface NetIp) → DomainTemplateArgs → DomainTemplateArgs
  add_interfaces tunnel_ip [] args = args
  add_interfaces tunnel_ip (i ∷ is) args = add_interfaces tunnel_ip is (record args {
    interfaces = args.interfaces ++ interface_args tunnel_ip i ∷ [];
    pxe_boot = if i.pxe then true else args.pxe_boot;
  })

  unfoldable pub template_args : {Ip : Type 0} → HostDevice Ip NetIp → DomainTemplateArgs
  template_args d = add_interfaces d.tunnel_ip d.interfaces (record {
    name = d.name;
    vcpus = vcpus d.device;
    memory = shr64 (memory d.device) 10;
    pool = d.pool;
    pxe_boot = false;
    uefi = not (is_empty (attr d.device (codes "efi")));
    interfaces = [];
  })

-- `libvirtxml.DomainInterfaceSource`, as far as the code fills it.
pub data InterfaceSource : Type 0 where
  no_source : InterfaceSource
  network : Bytes → InterfaceSource
  udp : Bytes → ℕ → Bytes → ℕ → InterfaceSource

-- `libvirtxml.DomainInterface`; `boot_order` is none where the field Boot is nil.
pub record InterfaceXml : Type 0 where
  pub mac_address : Bytes
  pub source : InterfaceSource
  pub model : Bytes
  pub boot_order : Option ℕ

unfoldable pub source_of : DomainInterface → InterfaceSource
source_of i =
    if str_eq i.typ (codes "network")
    then network i.network_source
    else if str_eq i.typ (codes "udp")
    then udp i.udp_source.address i.udp_source.port i.udp_source.local_address
        i.udp_source.local_port
    else no_source

unfoldable pub interface_xml : DomainInterface → InterfaceXml
unfolding source_of
interface_xml i = record {
  mac_address = i.mac_addr;
  source = source_of i;
  model = i.model;
  boot_order = if i.pxe then some 1 else none;
}

-- The template function `marshalInterface`.
unfoldable pub marshal_interface :
    (InterfaceXml → Option Bytes) → DomainInterface → Outcome Error Bytes
unfolding interface_xml
marshal_interface marshal i = elim (marshal (interface_xml i)) [ none ↦ panic | some xml ↦ ok xml ]

-- One round of the template of the udev rules.
unfoldable pub udev_rule : {NetIp : Type 0} → Iface NetIp → Bytes
unfolding mac_string
udev_rule i =
    codes "\nACTION==\"add\", SUBSYSTEM==\"net\", ATTR{address}==\""
    ++ (mac_string i.mac ++ (codes "\", NAME=\"" ++ (i.name ++ codes "\", SUBSYSTEMS==\"pci\"\n")))

unfoldable pub render_udev_rules : {NetIp : Type 0} → List (Iface NetIp) → Bytes
unfolding udev_rule
render_udev_rules [] = []
render_udev_rules (i ∷ is) = udev_rule i ++ render_udev_rules is
