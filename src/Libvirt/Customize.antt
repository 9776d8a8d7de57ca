-- ===== src/Libvirt/Customize.antt =====
-- The text that runner/libvirt/customize.go writes for virt-customize. What bcrypt makes of the random
-- password, what `netaddr.MustParseIPPrefix` reads (none where it panics), and what addresses print as are
-- arguments.
pub mod Lines
pub mod Hosts
pub mod Domain
pub mod Jobs
pub mod Domains
pub mod Complete
use runtopo.Prelude.{
  ℕ, Bool, true, false, Bytes, codes, str_eq, Option, none, some, List, [], ◌∷◌, ◌++◌, Outcome, ok,
  panic, ◌>>=◌, ◌==◌, if◌then◌else◌, map,
}
use runtopo.Errors.{Error}
use runtopo.Strconv.Format.{format_decimal}
use runtopo.Topology.Device.{Device, attr, function, has_function}
use runtopo.Topology.Function.{
  DeviceFunction, oob_server, oob_switch, exit, super_spine, spine, leaf, tor, same_function,
}
use runtopo.Libvirt.Device.{Iface, HostDevice}

-- The parts of a text one after the other.
abbrev pub text : List Bytes → Bytes
text [] = []
text (part ∷ parts) = part ++ text parts

-- `strings.Replace(s, "\n", "\\\n", -1)`
unfoldable pub continued : Bytes → Bytes
continued [] = []
continued (c ∷ s) = if c == b'\n' then b'\\' ∷ b'\n' ∷ continued s else c ∷ continued s

-- `strings.Join(parts, " ")`
unfoldable pub join_words : List Bytes → Bytes
join_words [] = []
join_words (w ∷ []) = w
join_words (w ∷ v ∷ ws) = w ++ b' ' ∷ join_words (v ∷ ws)

unfoldable pub bridge_ports : {NetIp : Type 0} → List (Iface NetIp) → List Bytes
bridge_ports [] = []
bridge_ports (i ∷ is) = elim (str_eq i.name (codes "eth0")) [
  | true ↦ bridge_ports is
  | false ↦ i.name ∷ bridge_ports is
]

module _ {Ip NetIp : Type 0} where
  unfoldable pub has_cumulus_function : HostDevice Ip NetIp → Bool
  has_cumulus_function d =
      has_function d.device (oob_switch ∷ exit ∷ super_spine ∷ spine ∷ leaf ∷ tor ∷ [])

  unfoldable pub bridge_conf : HostDevice Ip NetIp → Bytes
  unfolding join_words
  bridge_conf d = text (
      codes "auto bridge\niface bridge\n    bridge-ports "
      ∷ join_words (bridge_ports d.interfaces)
      ∷ codes "\n"
      ∷ [])

  unfoldable pub write_extra_mgmt_switch_commands : HostDevice Ip NetIp → Bytes
  write_extra_mgmt_switch_commands d = text (
      codes "write /etc/network/interfaces.d/bridge.intf:"
      ∷ continued (bridge_conf d)
      ∷ codes "\n"
      ∷ [])

abbrev nftables_ruleset : Bytes
nftables_ruleset =
    codes
      "\ntable ip nat {\n\tchain postrouting {\n\t\ttype nat hook postrouting priority srcnat; policy accept;\n\t\tmasquerade\n\t}\n}\n"

-- The formats, with their verbs filled in.
unfoldable pub dnsmasq_conf : Bytes → Bytes
dnsmasq_conf network = text (
    codes "\nstrict-order\ninterface=eth1\ndhcp-range="
    ∷ network
    ∷ codes ",static\ndhcp-no-override\ndhcp-authoritative\ndhcp-hostsfile=/etc/dnsmasq.hostsfile\n"
    ∷ [])

unfoldable pub ifcfg_eth1 : Bytes → ℕ → Bytes
ifcfg_eth1 ip bits = text (
    codes "\nTYPE=Ethernet\nDEVICE=eth1\nONBOOT=yes\nBOOTPROTO=none\nIPADDR="
    ∷ ip
    ∷ codes "\nPREFIX="
    ∷ format_decimal bits
    ∷ codes "\n"
    ∷ [])

-- A prefix: its address, its length, and the address of its network.
pub record PrefixText : Type 0 where
  pub ip : Bytes
  pub bits : ℕ
  pub masked_ip : Bytes

unfoldable pub extra_mgmt_server_commands : PrefixText → Bytes
unfolding dnsmasq_conf ifcfg_eth1
extra_mgmt_server_commands p = text (
    codes "install nftables,dnsmasq\n"
    ∷ codes
        "write /etc/sysconfig/network-scripts/ifcfg-eth0:TYPE=Ethernet\\\nDEVICE=eth0\\\nPEERDNS=yes\\\nBOOTPROTO=dhcp\\\nONBOOT=yes\n"
    ∷ codes "write /etc/sysconfig/network-scripts/ifcfg-eth1:"
    ∷ continued (ifcfg_eth1 p.ip p.bits)
    ∷ codes "\nwrite /etc/sysconfig/nftables.conf:"
    ∷ continued nftables_ruleset
    ∷ codes
        "\nrun-command systemctl enable nftables.service\nwrite /etc/sysctl.d/98-ipfwd.conf:net.ipv4.ip_forward=1\nwrite /etc/dnsmasq.conf:"
    ∷ continued (dnsmasq_conf p.masked_ip)
    ∷ codes
        "\nrun-command systemctl disable systemd-resolved.service\ndelete /etc/resolv.conf\nwrite /etc/resolv.conf:#placeholder\nrun-command systemctl enable dnsmasq.service\n"
    ∷ [])

module _ (parse_prefix : Bytes → Option PrefixText) (crypt_pw : Bytes) {Ip NetIp : Type 0} where
  unfoldable pub write_extra_mgmt_server_commands : HostDevice Ip NetIp → Outcome Error Bytes
  write_extra_mgmt_server_commands d = elim (parse_prefix (attr d.device (codes "mgmt_ip"))) [
    | none ↦ panic
    | some p ↦ ok (extra_mgmt_server_commands p)
  ]

  unfoldable pub cumulus_commands : HostDevice Ip NetIp → Bytes
  cumulus_commands d = text (
      codes
        "run-command systemctl disable netq-agent.service\nrun-command systemctl disable netqd@mgmt.service\nrun-command passwd -x 99999 cumulus\nwrite /etc/sudoers.d/no-passwd:%sudo     ALL=(ALL:ALL) NOPASSWD: ALL\nrun-command usermod -p "
      ∷ crypt_pw
      ∷ codes " cumulus\nwrite /etc/hostname:"
      ∷ d.device.name
      ∷ codes "\\\n\n"
      ∷ (if same_function (function d.device) oob_switch
          then write_extra_mgmt_switch_commands d
          else [])
      ∷ [])

  unfoldable pub other_commands : HostDevice Ip NetIp → Outcome Error Bytes
  other_commands d = do
    extra ←
        if same_function (function d.device) oob_server
        then write_extra_mgmt_server_commands d
        else ok []
    ok (
        text (
          codes
            "run-command systemctl disable cloud-init.service\nrun-command systemctl disable cloud-init-local.service\nrun-command systemctl disable cloud-config.service\nrun-command systemctl disable cloud-final.service\ninstall lldpd\nrun-command systemctl enable lldpd.service\nwrite /etc/lldpd.d/ifname.conf:configure lldp portidsubtype ifname\\\n\n"
          ∷ extra
          ∷ codes "selinux-relabel\n"
          ∷ []))

  unfoldable pub commands_for_function : HostDevice Ip NetIp → Outcome Error Bytes
  unfolding cumulus_commands other_commands
  commands_for_function d =
      if has_cumulus_function d then ok (cumulus_commands d) else other_commands d
