-- ===== src/Libvirt/Customize/Complete/Jobs.antt =====
-- `customizeDomains` of runner/libvirt/runner.go customizes each device that has an image.
use runtopo.Prelude.{
  ◌≡◌, refl, sym, ap, ◌∙◌, subst, Bool, true, false, Bool-cases, Bytes, str_eq, str_eq_iff, Option,
  none, some, Option-cases, inl, inr, List, [], ◌∷◌, All, All-at, All-weaken, In, Outcome, ◌>>=◌,
  str_eq_refl, ok, ok-injective, >>=-eq-ok, err, panic, arith,
}
use runtopo.Prelude.Dict.{Dict, lookup}
use runtopo.Errors.{Error}
use runtopo.Topology.Device.{os_image}
use runtopo.Topology.AutoMgmt.{is_empty}
use runtopo.Libvirt.Device.{HostDevice}
use runtopo.Libvirt.Runner.{Runner}
use runtopo.Libvirt.Exec.{continue}
use runtopo.Libvirt.Hypervisor.{Hypervisor, Session}
use runtopo.Libvirt.Customize.{PrefixText}
use runtopo.Libvirt.Customize.Jobs.{extra_commands, jobs_of}
use runtopo.Libvirt.Customize.Domain.{customize_domain}
use runtopo.Libvirt.Customize.Domains.{note_result, run_jobs, raise_first, customize_domains}
use runtopo.Libvirt.Customize.Complete.{
  Grows, Grows-trans, IsCustomized, CustomizeEnds, customize_domain-Ends,
}

module _ {Ip NetIp : Type 0} where
  -- The device of a job has been customized.
  abbrev IsDone : Bytes → Dict (HostDevice Ip NetIp × Bytes) → Session Ip NetIp → Bytes → Type 0
  IsDone uri jobs t k =
      (d : HostDevice Ip NetIp) (extra : Bytes)
      → lookup k jobs ≡ some (d, extra)
      → IsCustomized uri d t

  -- Where no error was noted, every device whose result arrived has been customized.
  abbrev JobsEnd :
      List Bytes
      → Dict (HostDevice Ip NetIp × Bytes)
      → Option Error
      → Session Ip NetIp
      → Outcome Error (Option Error) × Session Ip NetIp
      → Type 0
  JobsEnd arrivals jobs first s (ok none, t) =
      (first ≡ none) × Grows s t × All (IsDone s.runner.uri jobs t) arrivals
  JobsEnd arrivals jobs first s (ok (some e), t) = Unit
  JobsEnd arrivals jobs first s (err e, t) = Unit
  JobsEnd arrivals jobs first s (panic, t) = Unit

  jobs-skip :
      (k : Bytes) (arrivals : List Bytes) (jobs : Dict (HostDevice Ip NetIp × Bytes))
      (first : Option Error) (s : Session Ip NetIp)
      (r : Outcome Error (Option Error) × Session Ip NetIp)
      → lookup k jobs ≡ none
      → JobsEnd arrivals jobs first s r
      → JobsEnd (k ∷ arrivals) jobs first s r
  jobs-skip k arrivals jobs first s (ok none, t) e (f, g, done) =
      (f, g, ((λ d extra h. absurd (ground (arith, e, h))), done))
  jobs-skip k arrivals jobs first s (ok (some x), t) e q = tt
  jobs-skip k arrivals jobs first s (err x, t) e q = tt
  jobs-skip k arrivals jobs first s (panic, t) e q = tt

  jobs-done :
      (k : Bytes) (d : HostDevice Ip NetIp) (extra : Bytes) (arrivals : List Bytes)
      (jobs : Dict (HostDevice Ip NetIp × Bytes)) (first : Option Error) (s t : Session Ip NetIp)
      (r : Outcome Error (Option Error) × Session Ip NetIp)
      → lookup k jobs ≡ some (d, extra)
      → Grows s t
      → IsCustomized s.runner.uri d t
      → JobsEnd arrivals jobs first t r
      → JobsEnd (k ∷ arrivals) jobs first s r
  jobs-done k d extra arrivals jobs first s t (ok none, u) e g (commands, n, i) (f, h, done) = (
    f,
    Grows-trans s t u g h,
    (
      (λ d' extra' e'.
          subst (λ x. IsCustomized s.runner.uri x u) (same_device d d' extra extra' (sym e ∙ e'))
            (commands, n, h.1 _ i)),
      subst (λ r. All (IsDone r.uri jobs u) arrivals) g.0 done,
    ),
  )
    where
      same_device :
          (c d : HostDevice Ip NetIp) (x y : Bytes)
          → ◌≡◌ {A = Option (HostDevice Ip NetIp × Bytes)} (some (c, x)) (some (d, y))
          → c ≡ d
      same_device c d x y h = cc
  jobs-done k d extra arrivals jobs first s t (ok (some x), u) e g c q = tt
  jobs-done k d extra arrivals jobs first s t (err x, u) e g c q = tt
  jobs-done k d extra arrivals jobs first s t (panic, u) e g c q = tt

  -- Behind a noted error there is one in the end.
  jobs-failed :
      (k : Bytes) (arrivals : List Bytes) (jobs : Dict (HostDevice Ip NetIp × Bytes)) (x : Error)
      (first : Option Error) (s t : Session Ip NetIp)
      (r : Outcome Error (Option Error) × Session Ip NetIp)
      → JobsEnd arrivals jobs (some x) t r
      → JobsEnd (k ∷ arrivals) jobs first s r
  jobs-failed k arrivals jobs x first s t (ok none, u) (f, g, done) = absurd (ground (arith, f))
  jobs-failed k arrivals jobs x first s t (ok (some y), u) q = tt
  jobs-failed k arrivals jobs x first s t (err y, u) q = tt
  jobs-failed k arrivals jobs x first s t (panic, u) q = tt

module _ (hv : Hypervisor) (parse_prefix : Bytes → Option PrefixText) (crypt_pw : Bytes → Bytes)
    {Ip NetIp : Type 0} where
  noted :
      (k : Bytes) (d : HostDevice Ip NetIp) (extra : Bytes) (arrivals : List Bytes)
      (jobs : Dict (HostDevice Ip NetIp × Bytes)) (first : Option Error) (s : Session Ip NetIp)
      (r : Outcome Error (Unit {0}) × Session Ip NetIp)
      → lookup k jobs ≡ some (d, extra)
      → CustomizeEnds s.runner.uri d s r
      → ((f : Option Error) (t : Session Ip NetIp)
          → JobsEnd arrivals jobs f t (run_jobs hv parse_prefix crypt_pw arrivals jobs f t))
      → JobsEnd (k ∷ arrivals) jobs first s (
          continue
            (run_jobs hv parse_prefix crypt_pw arrivals jobs)
            (note_result hv parse_prefix crypt_pw first r))
  unfolding note_result
  noted k d extra arrivals jobs first s (panic, t) e q rest = tt
  noted k d extra arrivals jobs first s (ok u, t) e (g, c) rest =
      jobs-done k d extra arrivals jobs first s t _ e g c (rest first t)
  noted k d extra arrivals jobs none s (err x, t) e q rest =
      jobs-failed k arrivals jobs x none s t _ (rest (some x) t)
  noted k d extra arrivals jobs (some y) s (err x, t) e q rest =
      jobs-failed k arrivals jobs y (some y) s t _ (rest (some y) t)

  run_jobs-JobsEnd :
      (arrivals : List Bytes) (jobs : Dict (HostDevice Ip NetIp × Bytes)) (first : Option Error)
      (s : Session Ip NetIp)
      → JobsEnd arrivals jobs first s (run_jobs hv parse_prefix crypt_pw arrivals jobs first s)
  unfolding run_jobs
  run_jobs-JobsEnd [] jobs none s = (refl, (refl, λ e i. i), tt)
  run_jobs-JobsEnd [] jobs (some e) s = tt
  run_jobs-JobsEnd (k ∷ arrivals) jobs first s = elim (Option-cases (lookup k jobs)) [
    | inl e ↦
        rw (e, run_jobs)
          (jobs-skip k arrivals jobs first s _ e (run_jobs-JobsEnd arrivals jobs first s))
    | inr ((d, extra), e) ↦
        rw (e, run_jobs)
          (noted k d extra arrivals jobs first s
            (customize_domain hv parse_prefix crypt_pw s.runner.uri d extra s) e
            (customize_domain-Ends hv parse_prefix crypt_pw s.runner.uri d extra s)
            (run_jobs-JobsEnd arrivals jobs))
  ]

module _ {Ip NetIp : Type 0} (is_zero : Ip → Bool) (print : Ip → Bytes) (dot : Bytes) where
  -- A device with an image has a job.
  abbrev HasJob : Runner Ip NetIp → Dict (HostDevice Ip NetIp × Bytes) → Bytes → Type 0
  HasJob r jobs k =
      (d : HostDevice Ip NetIp)
      → lookup k r.devices ≡ some d
      → is_empty (os_image d.device) ≡ false
      → (extra : Bytes) × (lookup k jobs ≡ some (d, extra))

  one :
      {a b : HostDevice Ip NetIp} → ◌≡◌ {A = Option (HostDevice Ip NetIp)} (some a) (some b) → a ≡ b
  one p = cc

  HasJob-own :
      (r : Runner Ip NetIp) (jobs : Dict (HostDevice Ip NetIp × Bytes)) (k : Bytes)
      (d : HostDevice Ip NetIp) (extra : Bytes)
      → lookup k r.devices ≡ some d
      → HasJob r ((k, (d, extra)) ∷ jobs) k
  unfolding lookup
  HasJob-own r jobs k d extra e d' f g =
      (extra, rw (str_eq_refl k) (ap (λ x. some (x, extra)) (one (sym e ∙ f))))

  -- One more job leaves each device its own.
  HasJob-more :
      (r : Runner Ip NetIp) (jobs : Dict (HostDevice Ip NetIp × Bytes)) (k j : Bytes)
      (d : HostDevice Ip NetIp) (extra : Bytes)
      → lookup k r.devices ≡ some d
      → HasJob r jobs j
      → HasJob r ((k, (d, extra)) ∷ jobs) j
  unfolding lookup
  HasJob-more r jobs k j d extra e h d' f g = elim (Bool-cases (str_eq k j)) [
    | inl q ↦
        let same : k ≡ j = (str_eq_iff k j).0 q in
        let alike : d ≡ d' = one (sym e ∙ ap (λ x. lookup x r.devices) same ∙ f) in
        (extra, rw (q) (ap (λ x. some (x, extra)) alike))
    | inr q ↦ let (x, i) = h d' f g in (x, rw (q) i)
  ]

  jobs_of-HasJob :
      (hosts : Bytes → List Bytes) (order : List Bytes) (r : Runner Ip NetIp)
      (jobs : Dict (HostDevice Ip NetIp × Bytes))
      → jobs_of is_zero print dot hosts order r ≡ ok jobs
      → All (HasJob r jobs) order
  unfolding jobs_of
  jobs_of-HasJob hosts [] r jobs h = tt
  jobs_of-HasJob hosts (k ∷ order) r jobs h = elim (Option-cases (lookup k r.devices)) [
    | inl e ↦
        let skipped : jobs_of is_zero print dot hosts (k ∷ order) r
            ≡ jobs_of is_zero print dot hosts order r =
          rw (e, jobs_of) refl in
        ((λ d f g. absurd (none_some e f)), jobs_of-HasJob hosts order r jobs (sym skipped ∙ h))
    | inr (d, e) ↦ elim (Bool-cases (is_empty (os_image d.device))) [
      | inl b ↦
          let skipped : jobs_of is_zero print dot hosts (k ∷ order) r
              ≡ jobs_of is_zero print dot hosts order r =
            rw (e, b, jobs_of) refl in
          (
            (λ d' f g. absurd (no_image d d' (sym e ∙ f) b g)),
            jobs_of-HasJob hosts order r jobs (sym skipped ∙ h),
          )
      | inr b ↦
          let taken : jobs_of is_zero print dot hosts (k ∷ order) r ≡ (
              extra_commands is_zero print dot (hosts k) r d >>= λ extra.
              jobs_of is_zero print dot hosts order r >>= λ jobs. ok ((k, (d, extra)) ∷ jobs)) =
            rw (e, b, jobs_of) refl in
          let (extra, f, g) =
            >>=-eq-ok (extra_commands is_zero print dot (hosts k) r d) _ (sym taken ∙ h) in
          let (rest, i, j) = >>=-eq-ok (jobs_of is_zero print dot hosts order r) _ g in
          subst (λ js. All (HasJob r js) (k ∷ order)) (ok-injective j)
            (
              HasJob-own r rest k d extra e,
              All-weaken order (λ l. HasJob-more r rest k l d extra e)
                  (jobs_of-HasJob hosts order r rest i),
            )
    ]
  ]
    where
      none_some :
          {o : Option (HostDevice Ip NetIp)} {d : HostDevice Ip NetIp} → o ≡ none → o ≡ some d → ⊥
      none_some e f = cc

      no_image :
          (d d' : HostDevice Ip NetIp)
          → ◌≡◌ {A = Option (HostDevice Ip NetIp)} (some d) (some d')
          → is_empty (os_image d.device) ≡ true
          → is_empty (os_image d'.device) ≡ false
          → ⊥
      no_image d d' e f g =
          let both : is_empty (os_image d'.device) ≡ true =
            subst (λ x. is_empty (os_image x.device) ≡ true) (one e) f in
          cc

module _ (hv : Hypervisor) (parse_prefix : Bytes → Option PrefixText) (crypt_pw : Bytes → Bytes)
    {Ip NetIp : Type 0} (is_zero : Ip → Bool) (print : Ip → Bytes) (dot : Bytes) where
  ended :
      (arrivals : List Bytes) (jobs : Dict (HostDevice Ip NetIp × Bytes)) (s t : Session Ip NetIp)
      (r : Outcome Error (Option Error) × Session Ip NetIp)
      → JobsEnd arrivals jobs none s r
      → continue (raise_first hv parse_prefix crypt_pw) r ≡ (ok tt, t)
      → All (IsDone s.runner.uri jobs t) arrivals
  unfolding raise_first
  ended arrivals jobs s t (panic, u) q h = absurd (cc)
  ended arrivals jobs s t (err x, u) q h = absurd (cc)
  ended arrivals jobs s t (ok (some x), u) q h = absurd (cc)
  ended arrivals jobs s t (ok none, u) (f, g, done) h =
      subst (λ x. All (IsDone s.runner.uri jobs x) arrivals) (ap (λ p. p.1) h) done

  -- Where customizeDomains returns no error, virt-customize has succeeded for each device that the range
  -- visits, that has an image, and whose result has arrived.
  pub customize_domains-IsCustomized :
      (hosts : Bytes → List Bytes) (order arrivals : List Bytes) (s t : Session Ip NetIp)
      → customize_domains hv parse_prefix crypt_pw is_zero print dot hosts order arrivals s
        ≡ (ok tt, t)
      → (k : Bytes) (d : HostDevice Ip NetIp) → In k order
      → In k arrivals
      → lookup k s.runner.devices ≡ some d
      → is_empty (os_image d.device) ≡ false
      → IsCustomized s.runner.uri d t
  unfolding customize_domains
  customize_domains-IsCustomized hosts order arrivals s t h k d i j e f =
      by_jobs (jobs_of is_zero print dot hosts order s.runner) refl h
    where
      by_jobs :
          (o : Outcome Error (Dict (HostDevice Ip NetIp × Bytes)))
          → jobs_of is_zero print dot hosts order s.runner ≡ o
          → continue
              (λ jobs s'.
                continue
                  (raise_first hv parse_prefix crypt_pw)
                  (run_jobs hv parse_prefix crypt_pw arrivals jobs none s'))
              (o, s)
            ≡ (ok tt, t)
          → IsCustomized s.runner.uri d t
      by_jobs panic g h = absurd (cc)
      by_jobs (err x) g h = absurd (cc)
      by_jobs (ok jobs) g h =
          let (extra, job) =
            All-at (HasJob is_zero print dot s.runner jobs) k order
              (jobs_of-HasJob is_zero print dot hosts order s.runner jobs g) i d e f in
          All-at (IsDone s.runner.uri jobs t) k arrivals
            (ended arrivals jobs s t _
              (run_jobs-JobsEnd hv parse_prefix crypt_pw arrivals jobs none s) h)
            j d extra job
