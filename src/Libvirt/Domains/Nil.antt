-- ===== src/Libvirt/Domains/Nil.antt =====
-- `defineDomains` of runner/libvirt/runner.go on a nil map.
use runtopo.Prelude.{
  ◌≢◌, ℕ, ◌≡◌, refl, sym, ap, ◌∙◌, Bytes, Option, none, some, Option-cases, inl, inr, List, [], ◌∷◌,
  ◌++◌, Outcome, ok, err, panic,
}
use runtopo.Prelude.Dict.{lookup}
use runtopo.Errors.{Error, bad_template, define_failed}
use runtopo.Libvirt.Device.{HostDevice}
use runtopo.Libvirt.Exec.{continue, ◌>>◌}
use runtopo.Libvirt.Hypervisor.{define_domain, Hypervisor, Session, logged, branch}
use runtopo.Libvirt.Hypervisor.Rollback.{tell_all-log}
use runtopo.Libvirt.Template.{DomainTemplateArgs, template_args}
use runtopo.Libvirt.Domains.{
  undo_defined, put_domain, abandon_definitions, define_each, define_domains,
}
use runtopo.Libvirt.Domains.Define.{found, put_domain-none}

module _ (hv : Hypervisor) {Ip NetIp : Type 0} (ip_text : NetIp → Bytes)
    (render : DomainTemplateArgs → Option Bytes) where
  abandon_definitions-not_ok :
      (e : Error) (defined : List ℕ) (s : Session Ip NetIp)
      → (abandon_definitions hv e defined s).0 ≢ ok tt
  unfolding abandon_definitions
  abandon_definitions-not_ok e defined s h =
      let (es, f, g) = tell_all-log hv (undo_defined defined) s in
      let r : (abandon_definitions hv e defined s).0 ≡ err e = rw (f, abandon_definitions) refl in
      cc

  define_each-not_ok :
      (order : List Bytes) (defined : List ℕ) (s : Session Ip NetIp)
      → s.domains ≡ none
      → found order s.runner.devices ≢ []
      → (define_each hv ip_text render order defined s).0 ≢ ok tt
  unfolding define_each found
  define_each-not_ok [] defined s nil some_device = absurd (some_device refl)
  define_each-not_ok (k ∷ order) defined s nil some_device =
      elim (Option-cases (lookup k s.runner.devices)) [
        | inl e ↦
            rw (e, define_each)
              (define_each-not_ok order defined s nil (λ h. some_device (rw (e, found) h)))
        | inr (d, e) ↦ elim (Option-cases (render (template_args ip_text d))) [
          | inl f ↦
              rw (e, f, define_each) (abandon_definitions-not_ok (bad_template d.name) defined s)
          | inr (xml, f) ↦
              rw (e, f, define_each) (by_answer d xml (hv.number s.log (define_domain xml)))
        ]
      ]
    where
      by_answer :
          (d : HostDevice Ip NetIp) (xml : Bytes) (a : Option ℕ)
          → (branch
              (abandon_definitions hv (define_failed d.name) defined)
              (λ dom.
                put_domain hv d.name dom
                >> define_each hv ip_text render order (defined ++ dom ∷ []))
              a
              (logged hv (define_domain xml) s)).0
            ≢ ok tt
      by_answer d xml none h = abandon_definitions-not_ok (define_failed d.name) defined _ h
      by_answer d xml (some dom) h =
          let r =
            put_domain-none hv ip_text render d.name dom (logged hv (define_domain xml) s) nil in
          let p : ◌≡◌ {A = Outcome Error (Unit {0})} panic (ok tt) =
            sym (
              ap
                (λ q.
                  (continue (λ _. define_each hv ip_text render order (defined ++ dom ∷ [])) q).0)
                r)
            ∙ h in
          cc

  -- On a runner whose map of domains is nil, as a Destroy or a Run that failed behind the volumes leaves it,
  -- defineDomains never returns without an error if its visit finds a device.
  pub define_domains-not_ok :
      (order : List Bytes) (s : Session Ip NetIp)
      → s.domains ≡ none
      → found order s.runner.devices ≢ []
      → (define_domains hv ip_text render order s).0 ≢ ok tt
  unfolding define_domains
  define_domains-not_ok order s nil some_device = define_each-not_ok order [] s nil some_device
