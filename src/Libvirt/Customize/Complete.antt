-- ===== src/Libvirt/Customize/Complete.antt =====
-- What `customizeDomain` of runner/libvirt/customize.go leaves in the log of the calls.
pub mod Jobs
use runtopo.Prelude.{
  ℕ, ◌≡◌, refl, sym, ap, ◌∙◌, subst, Bool, true, false, Bool-cases, Bytes, codes, str_eq,
  str_eq_iff, Option, none, some, Option-cases, ◌⊎◌, inl, inr, List, [], ◌∷◌, ◌++◌, All, In,
  In-append_left, In-append_right, Outcome, ok, err, panic, arith,
}
use runtopo.Prelude.Dict.{Dict, lookup}
use runtopo.Errors.{Error, temp_file_failed, customize_failed}
use runtopo.Libvirt.Device.{HostDevice}
use runtopo.Libvirt.Exec.{Exec, continue, pure, raise, lift, after_any, finally, ◌>>=◌}
use runtopo.Libvirt.Hypervisor.{
  Call, virt_customize, write_temp, remove, Event, Hypervisor, Session, attempt, branch, logged,
  tell,
}
use runtopo.Libvirt.Customize.{text, PrefixText, commands_for_function}
use runtopo.Libvirt.Customize.Domain.{
  customize_arguments, run_customize, with_config, customize_domain,
}
use runtopo.Libvirt.Customize.Domains.{note_result, run_jobs}

module _ {Ip NetIp : Type 0} where
  -- The calls that were made are still there, and the runner is the same.
  abbrev pub Grows : Session Ip NetIp → Session Ip NetIp → Type 0
  Grows s t = (t.runner ≡ s.runner) × ((e : Event) → In e s.log → In e t.log)

  pub Grows-trans : (s t u : Session Ip NetIp) → Grows s t → Grows t u → Grows s u
  Grows-trans s t u (e, f) (g, h) = (g ∙ e, λ x i. h x (f x i))

  -- virt-customize has succeeded for the device, with some commands.
  abbrev pub IsCustomized : Bytes → HostDevice Ip NetIp → Session Ip NetIp → Type 0
  IsCustomized uri d s =
      (commands : Bytes) × (n : ℕ) × In
        (record { call = virt_customize (customize_arguments uri d) commands; answer = some n })
        s.log

  abbrev pub CustomizeEnds :
      Bytes
      → HostDevice Ip NetIp
      → Session Ip NetIp
      → Outcome Error (Unit {0}) × Session Ip NetIp
      → Type 0
  CustomizeEnds uri d s (ok u, t) = Grows s t × IsCustomized uri d t
  CustomizeEnds uri d s (err e, t) = Grows s t
  CustomizeEnds uri d s (panic, t) = Unit

  CustomizeEnds-after :
      (uri : Bytes) (d : HostDevice Ip NetIp) (s t : Session Ip NetIp)
      (r : Outcome Error (Unit {0}) × Session Ip NetIp)
      → Grows s t
      → CustomizeEnds uri d t r
      → CustomizeEnds uri d s r
  CustomizeEnds-after uri d s t (panic, u) g q = tt
  CustomizeEnds-after uri d s t (err e, u) g q = Grows-trans s t u g q
  CustomizeEnds-after uri d s t (ok x, u) g (h, c) = (Grows-trans s t u g h, c)

module _ (hv : Hypervisor) {Ip NetIp : Type 0} where
  Grows-logged : (c : Call) (s : Session Ip NetIp) → Grows s (logged hv c s)
  Grows-logged c s =
      (refl, λ e i. In-append_left e s.log (record { call = c; answer = hv.number s.log c } ∷ []) i)

  -- A deferred call.
  CustomizeEnds-finally :
      (c : Call) (uri : Bytes) (d : HostDevice Ip NetIp) (s : Session Ip NetIp)
      (r : Outcome Error (Unit {0}) × Session Ip NetIp)
      → CustomizeEnds uri d s r
      → CustomizeEnds uri d s (after_any (tell hv c) r)
  unfolding tell
  CustomizeEnds-finally c uri d s (panic, t) q = tt
  CustomizeEnds-finally c uri d s (err e, t) q =
      Grows-trans s t (logged hv c t) q (Grows-logged c t)
  CustomizeEnds-finally c uri d s (ok x, t) (g, (commands, n, i)) =
      let h = Grows-logged c t in (Grows-trans s t (logged hv c t) g h, (commands, n, h.1 _ i))

  module _ (parse_prefix : Bytes → Option PrefixText) (crypt_pw : Bytes → Bytes) where
    run_customize-Ends :
        (uri : Bytes) (d : HostDevice Ip NetIp) (commands : Bytes) (s : Session Ip NetIp)
        → CustomizeEnds uri d s (run_customize hv parse_prefix crypt_pw uri d commands s)
    unfolding run_customize
    run_customize-Ends uri d commands s =
        by_commands (commands_for_function parse_prefix (crypt_pw d.device.name) d)
      where
        by_answer :
            (own : Bytes) (a : Option ℕ)
            → hv.number s.log (virt_customize (customize_arguments uri d) (commands ++ own)) ≡ a
            → CustomizeEnds uri d s (
                branch {B = Exec (Session Ip NetIp) (Unit {0})}
                  (raise (customize_failed d.name))
                  (λ _. pure tt)
                  a
                  (logged hv (virt_customize (customize_arguments uri d) (commands ++ own)) s))
        by_answer own none e = Grows-logged _ s
        by_answer own (some n) e = (
          Grows-logged _ s,
          (
            commands ++ own,
            n,
            In-append_right _ s.log _ (
                inl (
                  ap
                    (λ a. record {
                      call = virt_customize (customize_arguments uri d) (commands ++ own);
                      answer = a;
                    })
                    (sym e))),
          ),
        )

        by_commands :
            (o : Outcome Error Bytes)
            → CustomizeEnds uri d s (
                continue
                  (λ own.
                    attempt hv
                      (virt_customize (customize_arguments uri d) (commands ++ own))
                      (raise (customize_failed d.name))
                      (λ _. pure tt))
                  (o, s))
        by_commands panic = tt
        by_commands (err e) = (refl, λ x i. i)
        by_commands (ok own) = by_answer own (hv.number s.log _) refl

    with_config-Ends :
        (uri : Bytes) (d : HostDevice Ip NetIp) (extra config : Bytes) (s : Session Ip NetIp)
        → CustomizeEnds uri d s (with_config hv parse_prefix crypt_pw uri d extra config s)
    unfolding with_config
    with_config-Ends uri d extra [] s = run_customize-Ends uri d extra s
    with_config-Ends uri d extra (c ∷ cs) s = by_answer (hv.number s.log written)
      where
        written : Call
        written = write_temp (d.name ++ codes "-config") (c ∷ cs)

        file : Bytes
        file = hv.text s.log written

        by_answer :
            (a : Option ℕ)
            → CustomizeEnds uri d s (
                branch
                  (raise (temp_file_failed d.name))
                  (λ _. finally (tell hv (remove file)) (
                    run_customize hv parse_prefix crypt_pw uri d
                      (text (extra ∷ codes "run " ∷ file ∷ codes "\n" ∷ []))))
                  a
                  (logged hv written s))
        by_answer none = Grows-logged written s
        by_answer (some n) =
            CustomizeEnds-after uri d s (logged hv written s) _ (Grows-logged written s) (
              CustomizeEnds-finally (remove file) uri d (logged hv written s) _
                (run_customize-Ends uri d _ (logged hv written s)))

    pub customize_domain-Ends :
        (uri : Bytes) (d : HostDevice Ip NetIp) (extra : Bytes) (s : Session Ip NetIp)
        → CustomizeEnds uri d s (customize_domain hv parse_prefix crypt_pw uri d extra s)
    unfolding customize_domain
    customize_domain-Ends uri d extra s = with_config-Ends uri d extra d.config s
