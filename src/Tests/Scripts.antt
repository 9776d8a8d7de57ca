-- ===== src/Tests/Scripts.antt =====
-- The theorems on the text for virt-customize, and on the wait for a lease.
use runtopo.Prelude.{ℕ, ◌≡◌, arith, false, Bytes, codes, some, [], ◌∷◌, ◌++◌, ◌==◌, if◌then◌else◌}
use runtopo.Libvirt.Customize.{continued, bridge_conf, write_extra_mgmt_switch_commands}
use runtopo.Libvirt.Customize.Lines.{
  last_byte_of, read_command, read_command-continued, write_extra_mgmt_switch_commands-one,
}
use runtopo.Libvirt.Customize.Hosts
use runtopo.Libvirt.Customize.Hosts.{gather_hosts}
use runtopo.Libvirt.Output.{Poll, polled, wait_for_lease}
use runtopo.Libvirt.Output.Lease.{Returned, wait_for_lease-returns}
use runtopo.Tests.Runs.{left, hosts, order}

abbrev lines : Bytes
lines = codes "auto bridge\niface bridge\n"

read_command-continued_example :
    read_command false (continued lines ++ b'\n' ∷ codes "install lldpd\n")
    ≡ (lines, codes "install lldpd\n")
unfolding last_byte_of
read_command-continued_example =
    read_command-continued lines (codes "install lldpd\n") (λ e. omega (arith, e))

write_extra_mgmt_switch_commands-one_example :
    read_command false (write_extra_mgmt_switch_commands left ++ codes "x")
    ≡ (codes "write /etc/network/interfaces.d/bridge.intf:" ++ bridge_conf left, codes "x")
write_extra_mgmt_switch_commands-one_example = write_extra_mgmt_switch_commands-one left (codes "x")

gather_hosts-Ends_example :
    Hosts.Ends (λ ip. ip == 0) hosts order (gather_hosts (λ ip. ip == 0) order hosts)
gather_hosts-Ends_example = Hosts.gather_hosts-Ends (λ ip. ip == 0) order hosts

-- No lease at first, then one.
abbrev poll : ℕ → Poll
poll n = if n == 0 then polled [] else polled ((codes "10.0.0.5" ∷ []) ∷ [])

wait_for_lease-returns_example :
    (f : Returned (λ s. some s) poll (λ n. false) 0 1) × (wait_for_lease
        (λ s. some s)
        poll
        (λ n. false)
        5
      ≡ some f.result)
wait_for_lease-returns_example =
    wait_for_lease-returns (λ s. some s) poll (λ n. false) 5 1 (omega arith)
      (λ w. ground (arith, w.0))
