-- ===== src/Libvirt/Lifecycle/Frame/Outputs.antt =====
-- `customizeDomains`, `writeSSHConfig` and `writeBMCConfig` of runner/libvirt/runner.go leave the BMCs and
-- the names' prefix alone.
use runtopo.Prelude.{
  ℕ, Bool, Bytes, codes, Option, none, some, List, [], ◌∷◌, ◌++◌, Option-cases, inl, inr,
}
use runtopo.Prelude.Dict.{Dict, lookup}
use runtopo.Errors.{Error}
use runtopo.Topology.Device.{Device}
use runtopo.Libvirt.Device.{HostDevice, HostBmc}
use runtopo.Libvirt.Vbmc.{BmcMan}
use runtopo.Libvirt.Exec.{lift}
use runtopo.Libvirt.Hypervisor.{write_temp, remove, write_ssh, write_bmc, Hypervisor, tell}
use runtopo.Libvirt.Hypervisor.Holds.{
  Holds, Holds-continue, Holds->>=, Holds-finally, Holds-attempt, tell-Holds,
}
use runtopo.Libvirt.Customize.{PrefixText, commands_for_function}
use runtopo.Libvirt.Customize.Jobs.{jobs_of}
use runtopo.Libvirt.Customize.Domain.{run_customize, with_config, customize_domain}
use runtopo.Libvirt.Customize.Domains.{note_result, run_jobs, raise_first, customize_domains}
use runtopo.Libvirt.Domains.{domain_named}
use runtopo.Libvirt.Output.{
  Wait, lease_of_domain, jump_host, host_entries, write_ssh_config, written_json, write_bmc_config,
}

module _ (Q : BmcMan → Bytes → Type 0) (hv : Hypervisor) {Ip NetIp : Type 0} where
  module _ (parse_prefix : Bytes → Option PrefixText) (crypt_pw : Bytes → Bytes) where
    run_customize-Holds :
        (uri : Bytes) (d : HostDevice Ip NetIp) (commands : Bytes)
        → Holds Q (run_customize hv parse_prefix crypt_pw uri d commands)
    unfolding run_customize
    run_customize-Holds uri d commands =
        Holds->>= Q {A = Bytes} {B = Unit {0}}
          (lift (commands_for_function parse_prefix (crypt_pw d.device.name) d)) _ (λ t g. g)
          (λ own. Holds-attempt Q hv _ _ _ (λ t g. g) (λ n t g. g))

    with_config-Holds :
        (uri : Bytes) (d : HostDevice Ip NetIp) (extra config : Bytes)
        → Holds Q (with_config hv parse_prefix crypt_pw uri d extra config)
    unfolding with_config
    with_config-Holds uri d extra [] s h = run_customize-Holds uri d extra s h
    with_config-Holds uri d extra (c ∷ cs) s h =
        Holds-attempt Q hv (write_temp (d.name ++ codes "-config") (c ∷ cs)) _ _ (λ t g. g)
          (λ _.
            Holds-finally Q (tell hv (remove _)) _ (tell-Holds Q hv _)
              (run_customize-Holds uri d _))
          s h

    run_jobs-Holds :
        (arrivals : List Bytes) (jobs : Dict (HostDevice Ip NetIp × Bytes)) (first : Option Error)
        → Holds Q (run_jobs hv parse_prefix crypt_pw arrivals jobs first)
    unfolding run_jobs note_result customize_domain
    run_jobs-Holds [] jobs first s h = h
    run_jobs-Holds (k ∷ arrivals) jobs first s h = elim (Option-cases (lookup k jobs)) [
      | inl e ↦ rw (e, run_jobs) (run_jobs-Holds arrivals jobs first s h)
      | inr ((d, extra), e) ↦
          rw (e, run_jobs)
            (Holds-continue Q (run_jobs hv parse_prefix crypt_pw arrivals jobs) _
              (with_config-Holds s.runner.uri d extra d.config s h) (run_jobs-Holds arrivals jobs))
    ]

    raise_first-Holds :
        (first : Option Error)
        → Holds Q {Ip = Ip} {NetIp = NetIp} (raise_first hv parse_prefix crypt_pw first)
    unfolding raise_first
    raise_first-Holds none s h = h
    raise_first-Holds (some e) s h = h

    pub customize_domains-Holds :
        (is_zero : Ip → Bool) (print : Ip → Bytes) (dot : Bytes) (hosts : Bytes → List Bytes)
        (order arrivals : List Bytes)
        → Holds Q {Ip = Ip} {NetIp = NetIp}
            (customize_domains hv parse_prefix crypt_pw is_zero print dot hosts order arrivals)
    unfolding customize_domains
    customize_domains-Holds is_zero print dot hosts order arrivals s =
        Holds->>= Q {A = Dict (HostDevice Ip NetIp × Bytes)} {B = Unit {0}}
          (lift (jobs_of is_zero print dot hosts order s.runner)) _ (λ t g. g)
          (λ jobs.
            Holds->>= Q (run_jobs hv parse_prefix crypt_pw arrivals jobs none) _
              (run_jobs-Holds arrivals jobs none) raise_first-Holds)
          s

  lease_of_domain-Holds :
      (parse_ip : Bytes → Option Ip) (waits : ℕ → Wait) (dom : Option ℕ)
      → Holds Q {Ip = Ip} {NetIp = NetIp} (lease_of_domain hv parse_ip waits dom)
  unfolding lease_of_domain
  lease_of_domain-Holds parse_ip waits none s h = h
  lease_of_domain-Holds parse_ip waits (some dom) s h = h

  pub write_ssh_config-Holds :
      (parse_ip : Bytes → Option Ip) (print : Ip → Bytes) (waits : ℕ → Wait) (ds : List (Device Ip))
      → Holds Q {Ip = Ip} {NetIp = NetIp} (write_ssh_config hv parse_ip print waits ds)
  unfolding write_ssh_config
  write_ssh_config-Holds parse_ip print waits ds s =
      Holds->>= Q {A = Ip} {B = Unit {0}}
        (lease_of_domain hv parse_ip waits
          (domain_named (s.runner.name_prefix ++ codes "oob-mgmt-server") s.domains))
        _ (lease_of_domain-Holds parse_ip waits _)
        (λ ip.
          Holds-attempt Q hv (write_ssh (jump_host (print ip) ++ host_entries ds)) _ _ (λ t g. g)
            (λ n t g. g))
        s

  written_json-Holds : (p : Option Bytes) → Holds Q {Ip = Ip} {NetIp = NetIp} (written_json hv p)
  unfolding written_json
  written_json-Holds none s h = h
  written_json-Holds (some p) s h = Holds-attempt Q hv (write_bmc p) _ _ (λ t g. g) (λ n t g. g) s h

  pub write_bmc_config-Holds :
      (json : List HostBmc → Option Bytes)
      → Holds Q {Ip = Ip} {NetIp = NetIp} (write_bmc_config hv json)
  unfolding write_bmc_config
  write_bmc_config-Holds json s h = written_json-Holds (json s.runner.bmcs) s h
