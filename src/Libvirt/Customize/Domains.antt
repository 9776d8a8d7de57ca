-- ===== src/Libvirt/Customize/Domains.antt =====
-- `customizeDomains` of runner/libvirt/runner.go. The domains are customized side by side in the source;
-- here one after the other, in the order in which the results arrive.
use runtopo.Prelude.{Bool, Bytes, Option, none, some, List, [], ◌∷◌, Outcome, ok, err, panic}
use runtopo.Prelude.Dict.{Dict, lookup}
use runtopo.Errors.{Error}
use runtopo.Libvirt.Device.{HostDevice}
use runtopo.Libvirt.Exec.{Exec, pure, raise, lift, continue, ◌>>=◌}
use runtopo.Libvirt.Hypervisor.{Hypervisor, Session}
use runtopo.Libvirt.Customize.{PrefixText}
use runtopo.Libvirt.Customize.Jobs.{jobs_of}
use runtopo.Libvirt.Customize.Domain.{customize_domain}

-- Of the results that arrive, the first error.
first_error : Option Error → Outcome Error (Unit {0}) → Outcome Error (Option Error)
first_error first panic = panic
first_error first (ok u) = ok first
first_error (some f) (err e) = ok (some f)
first_error none (err e) = ok (some e)

module _ (hv : Hypervisor) (parse_prefix : Bytes → Option PrefixText) (crypt_pw : Bytes → Bytes)
    {Ip NetIp : Type 0} where
  -- A result that has arrived.
  unfoldable pub note_result :
      Option Error
      → Outcome Error (Unit {0}) × Session Ip NetIp
      → Outcome Error (Option Error) × Session Ip NetIp
  unfolding first_error
  note_result first (o, s) = (first_error first o, s)

  unfoldable pub run_jobs :
      List Bytes
      → Dict (HostDevice Ip NetIp × Bytes)
      → Option Error
      → Exec (Session Ip NetIp) (Option Error)
  unfolding note_result
  run_jobs [] jobs first s = pure first s
  run_jobs (k ∷ arrivals) jobs first s = elim (lookup k jobs) [
    | none ↦ run_jobs arrivals jobs first s
    | some (d, extra) ↦
        continue (run_jobs arrivals jobs)
          (note_result first (customize_domain hv parse_prefix crypt_pw s.runner.uri d extra s))
  ]

  unfoldable pub raise_first : Option Error → Exec (Session Ip NetIp) (Unit {0})
  raise_first none = pure tt
  raise_first (some e) = raise e

  unfoldable pub customize_domains :
      (Ip → Bool)
      → (Ip → Bytes)
      → Bytes
      → (Bytes → List Bytes)
      → List Bytes
      → List Bytes
      → Exec (Session Ip NetIp) (Unit {0})
  unfolding raise_first run_jobs jobs_of
  customize_domains is_zero print dot hosts order arrivals s =
      (lift (jobs_of is_zero print dot hosts order s.runner) >>= λ jobs.
      run_jobs arrivals jobs none >>= raise_first)
        s
