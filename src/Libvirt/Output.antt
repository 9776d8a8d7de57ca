-- ===== src/Libvirt/Output.antt =====
-- `waitForLease` of runner/libvirt/helper.go, and `writeSSHConfig` and `writeBMCConfig` of
-- runner/libvirt/runner.go. What libvirt answers to the polls for a lease, whether the context is done
-- after a poll, what `netaddr.ParseIP` and `json.Marshal` return are arguments.
pub mod Lease
use runtopo.Prelude.{
  ℕ, zero, suc, Bool, true, false, Bytes, codes, Option, none, some, List, [], ◌∷◌, ◌++◌, Outcome,
  ok, err, panic, leb, if◌then◌else◌,
}
use runtopo.Errors.{Error, no_lease, cancelled, write_failed}
use runtopo.Topology.Device.{Device, has_function}
use runtopo.Topology.Function.{oob_server, oob_switch, exit, super_spine, spine, leaf, tor}
use runtopo.Libvirt.Device.{HostBmc, HostDevice}
use runtopo.Libvirt.Exec.{Exec, pure, raise, crash, lift, ◌>>=◌}
use runtopo.Libvirt.Hypervisor.{Call, write_ssh, write_bmc, Hypervisor, Session, attempt}
use runtopo.Libvirt.Customize.{text}
use runtopo.Libvirt.Domains.{domain_named}

-- The answer to a poll: an error, or the interfaces with a lease, by their addresses.
pub data Poll : Type 0 where
  failed : Poll
  polled : List (List Bytes) → Poll

module _ (poll : ℕ → Poll) (done : ℕ → Bool) where
  -- What a poll settles, if it does.
  unfoldable pub settled : ℕ → Option (Outcome Error (List Bytes))
  settled n = elim (poll n) [
    | failed ↦ some (err no_lease)
    | polled [] ↦ if done n then some (err cancelled) else none
    | polled (addrs ∷ xs) ↦ some (ok addrs)
  ]

  -- The loop, from poll n on; `none` where the fuel is used up.
  unfoldable pub wait_loop : ℕ → ℕ → Option (Outcome Error (List Bytes))
  wait_loop zero n = none
  wait_loop (suc fuel) n = elim (settled n) [ some r ↦ some r | none ↦ wait_loop fuel (suc n) ]

-- The first address of the interface.
unfoldable pub first_address :
    {A : Type 0} → (Bytes → Option A) → Outcome Error (List Bytes) → Outcome Error A
first_address parse_ip panic = panic
first_address parse_ip (err e) = err e
first_address parse_ip (ok []) = err no_lease
first_address parse_ip (ok (a ∷ addrs)) = elim (parse_ip a) [
  | none ↦ err no_lease
  | some ip ↦ ok ip
]

unfoldable pub wait_for_lease :
    {A : Type 0} → (Bytes → Option A) → (ℕ → Poll) → (ℕ → Bool) → ℕ → Option (Outcome Error A)
unfolding first_address wait_loop
wait_for_lease parse_ip poll done fuel = elim (wait_loop poll done fuel 0) [
  | none ↦ none
  | some r ↦ some (first_address parse_ip r)
]

-- What libvirt answers to the polls of a wait, and the first poll after which the context is done. A context
-- that is not done before the wait ends has any limit from there on.
pub record Wait : Type 0 where
  pub polls : ℕ → Poll
  pub limit : ℕ

-- `waitForLease`; its fuel lasts up to the limit, so it is not used up.
unfoldable pub lease_of : {A : Type 0} → (Bytes → Option A) → Wait → Outcome Error A
unfolding wait_for_lease
lease_of parse_ip w = elim (wait_for_lease parse_ip w.polls (λ n. leb w.limit n) (suc w.limit)) [
  | none ↦ panic
  | some r ↦ r
]

unfoldable pub jump_host : Bytes → Bytes
jump_host ip = text (
    codes "Host oob-mgmt-server\n  Hostname "
    ∷ ip
    ∷ codes "\n  User root\n  UserKnownHostsFile /dev/null\n  StrictHostKeyChecking no\n"
    ∷ [])

module _ {Ip : Type 0} where
  login_of : Device Ip → Bytes
  login_of d =
      if has_function d (oob_switch ∷ exit ∷ super_spine ∷ spine ∷ leaf ∷ tor ∷ [])
      then codes "cumulus"
      else codes "root"

  host_entry : Device Ip → Bytes
  unfolding login_of
  host_entry d = text (
      codes "Host "
      ∷ d.name
      ∷ codes "\n  User "
      ∷ login_of d
      ∷ codes
          "\n  ProxyJump oob-mgmt-server\n  UserKnownHostsFile /dev/null\n  StrictHostKeyChecking no\n"
      ∷ [])

  unfoldable pub host_entries : List (Device Ip) → Bytes
  unfolding host_entry
  host_entries [] = []
  host_entries (d ∷ ds) = elim (has_function d (oob_server ∷ oob_switch ∷ [])) [
    | true ↦ host_entries ds
    | false ↦ host_entry d ++ host_entries ds
  ]

module _ (hv : Hypervisor) {Ip NetIp : Type 0} where
  unfoldable pub lease_of_domain :
      (Bytes → Option Ip) → (ℕ → Wait) → Option ℕ → Exec (Session Ip NetIp) Ip
  unfolding lease_of
  lease_of_domain parse_ip waits none = crash
  lease_of_domain parse_ip waits (some dom) = lift (lease_of parse_ip (waits dom))

  -- `waits` is the wait for the lease of each domain; `ds` is `t.Devices()`.
  unfoldable pub write_ssh_config :
      (Bytes → Option Ip)
      → (Ip → Bytes)
      → (ℕ → Wait)
      → List (Device Ip)
      → Exec (Session Ip NetIp) (Unit {0})
  unfolding lease_of_domain jump_host host_entries
  write_ssh_config parse_ip print waits ds s =
      (lease_of_domain parse_ip waits
            (domain_named (s.runner.name_prefix ++ codes "oob-mgmt-server") s.domains)
          >>= λ ip.
              attempt hv (write_ssh (jump_host (print ip) ++ host_entries ds)) (raise write_failed)
                (λ _. pure tt))
        s

  unfoldable pub written_json : Option Bytes → Exec (Session Ip NetIp) (Unit {0})
  written_json none = raise write_failed
  written_json (some p) = attempt hv (write_bmc p) (raise write_failed) (λ _. pure tt)

  unfoldable pub write_bmc_config :
      (List HostBmc → Option Bytes) → Exec (Session Ip NetIp) (Unit {0})
  unfolding written_json
  write_bmc_config json s = written_json (json s.runner.bmcs) s
