-- ===== src/Libvirt/Customize/Jobs.antt =====
-- The commands that `customizeDomains` of runner/libvirt/runner.go collects for each device. `dot` is what
-- `DOT` of topology/topology.go returns, `print` an address as the verb %s prints it.
use runtopo.Prelude.{
  Bool, true, false, Bytes, codes, str_eq, none, some, List, [], ◌∷◌, ◌++◌, Outcome, ok, ◌>>=◌,
  if◌then◌else◌,
}
use runtopo.Prelude.Dict.{Dict, lookup}
use runtopo.Errors.{Error}
use runtopo.Topology.Device.{function, os_image}
use runtopo.Topology.Function.{oob_server, same_function}
use runtopo.Topology.AutoMgmt.{is_empty}
use runtopo.Libvirt.Device.{HostDevice}
use runtopo.Libvirt.Runner.{Runner}
use runtopo.Libvirt.Customize.{text, continued, has_cumulus_function}
use runtopo.Libvirt.Customize.Hosts.{EtherHost, gather_hosts, generate_dnsmasq_hosts_file}

unfoldable pub ssh_inject : Bytes → List Bytes → Bytes
ssh_inject user [] = []
ssh_inject user (k ∷ keys) = text (
    codes "ssh-inject "
    ∷ user
    ∷ codes ":string:"
    ∷ k
    ∷ codes "\n"
    ∷ (if str_eq user (codes "root")
        then []
        else text (codes "ssh-inject root:string:" ∷ k ∷ codes "\n" ∷ []))
    ∷ ssh_inject user keys
    ∷ [])

unfoldable pub host_lines : {Ip : Type 0} → (Ip → Bytes) → List (EtherHost Ip) → Bytes
host_lines print [] = []
host_lines print (h ∷ hs) =
    text (codes "append-line /etc/hosts:" ∷ print h.ip ∷ codes " " ∷ h.name ∷ codes "\n" ∷ [])
    ++ host_lines print hs

unfoldable pub host_commands : {Ip : Type 0} → (Ip → Bytes) → List (EtherHost Ip) → Bytes
unfolding host_lines
host_commands print hosts = text (
    host_lines print hosts
    ∷ codes "write /etc/dnsmasq.hostsfile:"
    ∷ continued (generate_dnsmasq_hosts_file print hosts)
    ∷ codes "\n"
    ∷ [])

module _ {Ip NetIp : Type 0} (is_zero : Ip → Bool) (print : Ip → Bytes) (dot : Bytes) where
  unfoldable pub ptm_commands : HostDevice Ip NetIp → Bytes
  ptm_commands d =
      if has_cumulus_function d
      then text (codes "write /etc/ptm.d/topology.dot:" ∷ continued dot ∷ codes "\n" ∷ [])
      else []

  unfoldable pub user_of : HostDevice Ip NetIp → Bytes
  user_of d = if has_cumulus_function d then codes "cumulus" else codes "root"

  -- `hosts` is the order in which the hosts are gathered.
  unfoldable pub server_commands :
      List Bytes → Dict (HostDevice Ip NetIp) → HostDevice Ip NetIp → Outcome Error Bytes
  unfolding host_commands
  server_commands order ds d =
      if same_function (function d.device) oob_server
      then (gather_hosts is_zero order ds >>= λ hosts. ok (host_commands print hosts))
      else ok []

  unfoldable pub extra_commands :
      List Bytes → Runner Ip NetIp → HostDevice Ip NetIp → Outcome Error Bytes
  unfolding ptm_commands user_of server_commands
  extra_commands order r d = server_commands order r.devices d >>= λ server.
      ok (text (ptm_commands d ∷ ssh_inject (user_of d) r.authorized_keys ∷ server ∷ []))

  -- What the first loop starts: for each device with an image the commands that it is customized with.
  -- `hosts` is the order in which the hosts are gathered for the device of that name.
  unfoldable pub jobs_of :
      (Bytes → List Bytes)
      → List Bytes
      → Runner Ip NetIp
      → Outcome Error (Dict (HostDevice Ip NetIp × Bytes))
  unfolding extra_commands
  jobs_of hosts [] r = ok []
  jobs_of hosts (k ∷ order) r = elim (lookup k r.devices) [
    | none ↦ jobs_of hosts order r
    | some d ↦ elim (is_empty (os_image d.device)) [
      | true ↦ jobs_of hosts order r
      | false ↦ extra_commands (hosts k) r d >>= λ extra.
          jobs_of hosts order r >>= λ jobs. ok ((k, (d, extra)) ∷ jobs)
    ]
  ]
