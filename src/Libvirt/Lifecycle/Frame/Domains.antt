-- ===== src/Libvirt/Lifecycle/Frame/Domains.antt =====
-- `defineDomains`, `undefineDomains` and `startDomains` of runner/libvirt/runner.go leave the BMCs and
-- the names' prefix alone.
use runtopo.Prelude.{
  ℕ, Bool, true, false, Bytes, Option, none, some, List, [], ◌∷◌, ◌++◌, Option-cases, Bool-cases,
  inl, inr,
}
use runtopo.Prelude.Dict.{Dict, lookup}
use runtopo.Errors.{Error}
use runtopo.Topology.Device.{Device}
use runtopo.Libvirt.Vbmc.{BmcMan}
use runtopo.Libvirt.Template.{DomainTemplateArgs, template_args}
use runtopo.Libvirt.Exec.{◌>>◌, raise}
use runtopo.Libvirt.Hypervisor.{
  define_domain, lookup_domain, create_domain, destroy_domain, undefine_domain, free_domain,
  Hypervisor, tell_all,
}
use runtopo.Libvirt.Hypervisor.Holds.{Holds, Holds->>=, Holds-attempt, tell_all-Holds}
use runtopo.Libvirt.Domains.{
  undo_defined, undo_started, set_domains, put_in, put_domain, abandon_definitions, define_each,
  define_domains, undefine_domains, domain_named, by_function, is_skipped, abandon_starts,
  start_bmcs, finish_start, start_each, start_domains,
}

module _ (Q : BmcMan → Bytes → Type 0) (hv : Hypervisor) {Ip NetIp : Type 0} where
  put_in-Holds :
      (name : Bytes) (dom : ℕ) (m : Option (Dict ℕ))
      → Holds Q {Ip = Ip} {NetIp = NetIp} (put_in hv name dom m)
  unfolding put_in
  put_in-Holds name dom none s h = h
  put_in-Holds name dom (some m) s h = h

  put_domain-Holds :
      (name : Bytes) (dom : ℕ) → Holds Q {Ip = Ip} {NetIp = NetIp} (put_domain hv name dom)
  unfolding put_domain
  put_domain-Holds name dom s h = put_in-Holds name dom s.domains s h

  abandon_definitions-Holds :
      (e : Error) (doms : List ℕ)
      → Holds Q {Ip = Ip} {NetIp = NetIp} (abandon_definitions hv e doms)
  unfolding abandon_definitions
  abandon_definitions-Holds e doms =
      Holds->>= Q {Ip = Ip} {NetIp = NetIp} (tell_all hv (undo_defined doms) >> set_domains hv none)
        (λ _. raise e)
        (Holds->>= Q (tell_all hv (undo_defined doms)) (λ _. set_domains hv none)
          (tell_all-Holds Q hv _) (λ _ t g. g))
        (λ _ t g. g)

  pub undefine_domains-Holds :
      (order : List Bytes) → Holds Q {Ip = Ip} {NetIp = NetIp} (undefine_domains hv order)
  unfolding undefine_domains
  undefine_domains-Holds [] s h = h
  undefine_domains-Holds (k ∷ order) s h = elim (Option-cases (lookup k s.runner.devices)) [
    | inl e ↦ rw (e, undefine_domains) (undefine_domains-Holds order s h)
    | inr (d, e) ↦
        rw (e, undefine_domains)
          (Holds-attempt Q hv (lookup_domain d.name) _ _ (undefine_domains-Holds order)
            (λ dom.
              Holds->>= Q
                (tell_all hv (destroy_domain dom ∷ undefine_domain dom ∷ free_domain dom ∷ [])) _
                (tell_all-Holds Q hv _) (λ _. undefine_domains-Holds order))
            s h)
  ]

  module _ (ip_text : NetIp → Bytes) (render : DomainTemplateArgs → Option Bytes) where
    define_each-Holds :
        (order : List Bytes) (defined : List ℕ)
        → Holds Q {Ip = Ip} {NetIp = NetIp} (define_each hv ip_text render order defined)
    unfolding define_each
    define_each-Holds [] defined s h = h
    define_each-Holds (k ∷ order) defined s h = elim (Option-cases (lookup k s.runner.devices)) [
      | inl e ↦ rw (e, define_each) (define_each-Holds order defined s h)
      | inr (d, e) ↦ elim (Option-cases (render (template_args ip_text d))) [
        | inl f ↦ rw (e, f, define_each) (abandon_definitions-Holds _ defined s h)
        | inr (xml, f) ↦
            rw (e, f, define_each)
              (Holds-attempt Q hv (define_domain xml) _ _ (abandon_definitions-Holds _ defined)
                (λ dom.
                  Holds->>= Q (put_domain hv d.name dom) _ (put_domain-Holds d.name dom)
                    (λ _. define_each-Holds order (defined ++ dom ∷ [])))
                s h)
      ]
    ]

    pub define_domains-Holds :
        (order : List Bytes)
        → Holds Q {Ip = Ip} {NetIp = NetIp} (define_domains hv ip_text render order)
    unfolding define_domains
    define_domains-Holds order = define_each-Holds order []

  module _ (split : Bytes → Option (Bytes × Bytes)) where
    abandon_starts-Holds :
        (e : Error) (doms : List ℕ)
        → Holds Q {Ip = Ip} {NetIp = NetIp} (abandon_starts hv split e doms)
    unfolding abandon_starts
    abandon_starts-Holds e doms =
        Holds->>= Q (tell_all hv (undo_started doms)) (λ _. raise e) (tell_all-Holds Q hv _)
          (λ _ t g. g)

    finish_start-Holds :
        (doms : List ℕ) (b : Bool)
        → Holds Q {Ip = Ip} {NetIp = NetIp} (finish_start hv split doms b)
    unfolding finish_start
    finish_start-Holds doms true s h = h
    finish_start-Holds doms false s h = abandon_starts-Holds _ doms s h

    start_each-Holds :
        (bmcs : List Bytes) (ds : List (Device Ip)) (started : List ℕ)
        → Holds Q {Ip = Ip} {NetIp = NetIp} (start_each hv split bmcs ds started)
    unfolding start_each start_bmcs
    start_each-Holds bmcs [] started s h =
        Holds->>= Q (start_bmcs hv split bmcs) (finish_start hv split started) (λ t g. g)
          (finish_start-Holds started) s h
    start_each-Holds bmcs (d ∷ ds) started s h = elim (Bool-cases (is_skipped d)) [
      | inl e ↦ rw (e, start_each) (start_each-Holds bmcs ds started s h)
      | inr e ↦ elim (Option-cases (domain_named (s.runner.name_prefix ++ d.name) s.domains)) [
        | inl f ↦ rw (e, f, start_each) h
        | inr (dom, f) ↦
            rw (e, f, start_each)
              (Holds-attempt Q hv (create_domain dom) _ _ (abandon_starts-Holds _ started)
                (λ _. start_each-Holds bmcs ds (started ++ dom ∷ [])) s h)
      ]
    ]

    pub start_domains-Holds :
        (bmcs : List Bytes) (ds : List (Device Ip))
        → Holds Q {Ip = Ip} {NetIp = NetIp} (start_domains hv split bmcs ds)
    unfolding start_domains
    start_domains-Holds bmcs ds = start_each-Holds bmcs (by_function ds) []
