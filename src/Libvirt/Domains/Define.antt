-- ===== src/Libvirt/Domains/Define.antt =====
-- The ways in which `defineDomains` of runner/libvirt/runner.go ends.
use runtopo.Prelude.{
  ℕ, suc, ◌≡◌, refl, sym, ap, ap₂, ◌∙◌, subst, Bytes, Option, none, some, Option-cases, inl, inr,
  List, [], ◌∷◌, ◌++◌, append_assoc, append-nil, length, Outcome, ok, err, panic,
}
use runtopo.Prelude.Dict.{Dict, lookup, insert}
use runtopo.Errors.{Error, bad_template, define_failed}
use runtopo.Libvirt.Device.{HostDevice}
use runtopo.Libvirt.Exec.{Exec, continue, ◌>>◌}
use runtopo.Libvirt.Hypervisor.{
  Call, define_domain, Event, Log, Hypervisor, Session, logged, branch,
}
use runtopo.Libvirt.Hypervisor.Rollback.{
  acquired, Rolled, Rolled-gained, Rolled-nothing, Rolled-undone, tell_all-log,
}
use runtopo.Libvirt.Template.{DomainTemplateArgs, template_args}
use runtopo.Libvirt.Domains.{
  undo_defined, put_in, put_domain, abandon_definitions, define_each, define_domains,
}

-- The domain that a call has defined.
definition : Call → Option ℕ → List ℕ
definition (define_domain xml) (some dom) = dom ∷ []
definition c a = []

abbrev pub defined_by : Event → List ℕ
unfolding definition
defined_by e = definition e.call e.answer

-- The names of the devices that a visit finds.
unfoldable pub found : {Ip NetIp : Type 0} → List Bytes → Dict (HostDevice Ip NetIp) → List Bytes
found [] ds = []
found (k ∷ order) ds = elim (lookup k ds) [
  | none ↦ found order ds
  | some d ↦ d.name ∷ found order ds
]

-- The map with the domains under the names; the nil map only where there is none to write.
unfoldable pub filled : List Bytes → List ℕ → Option (Dict ℕ) → Option (Dict ℕ)
filled [] doms m = m
filled (n ∷ names) [] m = none
filled (n ∷ names) (dom ∷ doms) none = none
filled (n ∷ names) (dom ∷ doms) (some m) = filled names doms (some (insert n dom m))

module _ {Ip NetIp : Type 0} where
  pub record Defined (names : List Bytes) (s s' : Session Ip NetIp) : Type 0 where
    pub made : Log
    pub ending : s' ≡ record s {
      log = s.log ++ made;
      domains = filled names (acquired defined_by made) s.domains;
    }
    pub one_each : length (acquired defined_by made) ≡ length names

  pub record Abandoned (held : List ℕ) (s s' : Session Ip NetIp) : Type 0 where
    pub ending : s' ≡ record s { log = s'.log; domains = none }
    pub rolled : Rolled defined_by undo_defined held s.log s'.log

  abbrev pub Ends :
      List Bytes → List ℕ → Session Ip NetIp → Outcome Error (Unit {0}) × Session Ip NetIp → Type 0
  Ends names held s (ok u, s') = Defined names s s'
  Ends names held s (err e, s') = Abandoned held s s'
  Ends names held s (panic, s') = s.domains ≡ none

abbrev event : Hypervisor → {Ip NetIp : Type 0} → Bytes → Session Ip NetIp → Event
event hv xml s = record { call = define_domain xml; answer = hv.number s.log (define_domain xml) }

module _ (hv : Hypervisor) {Ip NetIp : Type 0} (ip_text : NetIp → Bytes)
    (render : DomainTemplateArgs → Option Bytes) where
  abandon_definitions-Abandoned :
      (e : Error) (names : List Bytes) (held : List ℕ) (s : Session Ip NetIp)
      → Ends names held s (abandon_definitions hv e held s)
  unfolding abandon_definitions
  abandon_definitions-Abandoned e names held s =
      let (es, f, g) = tell_all-log hv (undo_defined held) s in
      rw (f)
        record { ending = refl; rolled = Rolled-undone defined_by undo_defined held s.log es g }

  -- A definition that succeeded, before what follows.
  one_more :
      (name xml : Bytes) (dom : ℕ) (m : Dict ℕ) (names : List Bytes) (held : List ℕ)
      (s : Session Ip NetIp) (r : Outcome Error (Unit {0}) × Session Ip NetIp)
      → s.domains ≡ some m
      → hv.number s.log (define_domain xml) ≡ some dom
      → Ends names
          (held ++ dom ∷ [])
          (record (logged hv (define_domain xml) s) { domains = some (insert name dom m) })
          r
      → Ends (name ∷ names) held s r
  unfolding filled definition
  one_more name xml dom m names held s (ok u, s') e f h = record {
    made = event hv xml s ∷ h.made;
    ending =
        h.ending
        ∙ ap₂ (λ l ds. record s { log = l; domains = ds })
            (append_assoc s.log (event hv xml s ∷ []) h.made)
            (sym (
              ap₂
                (λ a ds.
                  filled (name ∷ names)
                    (definition (define_domain xml) a ++ acquired defined_by h.made) ds)
                f e));
    one_each =
        ap (λ a. length (definition (define_domain xml) a ++ acquired defined_by h.made)) f
        ∙ ap suc h.one_each;
  }
  one_more name xml dom m names held s (err x, s') e f h = record {
    ending = h.ending;
    rolled =
        Rolled-gained defined_by undo_defined (event hv xml s) (dom ∷ []) held s.log s'.log
          (ap (definition (define_domain xml)) f) h.rolled;
  }
  one_more name xml dom m names held s (panic, s') e f h = cc

  pub put_domain-none :
      (name : Bytes) (dom : ℕ) (s : Session Ip NetIp)
      → s.domains ≡ none
      → put_domain hv name dom s ≡ (panic, s)
  unfolding put_domain put_in
  put_domain-none name dom s g = ap (λ o. put_in hv name dom o s) g

  put_domain-some :
      (name : Bytes) (dom : ℕ) (m : Dict ℕ) (s : Session Ip NetIp)
      → s.domains ≡ some m
      → put_domain hv name dom s ≡ (ok tt, record s { domains = some (insert name dom m) })
  unfolding put_domain put_in
  put_domain-some name dom m s g = ap (λ o. put_in hv name dom o s) g

  -- What follows a definition, by its answer; `next` is the rest of the loop.
  by_answer :
      (name xml : Bytes) (names : List Bytes) (held : List ℕ)
      (next : List ℕ → Exec (Session Ip NetIp) (Unit {0})) (s : Session Ip NetIp) (a : Option ℕ)
      → hv.number s.log (define_domain xml) ≡ a
      → ((dom : ℕ) (m : Dict ℕ)
          → Ends names
              (held ++ dom ∷ [])
              (record (logged hv (define_domain xml) s) { domains = some (insert name dom m) })
              (next
                (held ++ dom ∷ [])
                (record (logged hv (define_domain xml) s) { domains = some (insert name dom m) })))
      → Ends (name ∷ names) held s (
          branch
            (abandon_definitions hv (define_failed name) held)
            (λ dom. put_domain hv name dom >> next (held ++ dom ∷ []))
            a
            (logged hv (define_domain xml) s))
  unfolding abandon_definitions definition
  by_answer name xml names held next s none f rest =
      let (es, g, h) = tell_all-log hv (undo_defined held) (logged hv (define_domain xml) s) in
      rw (g) record {
        ending = refl;
        rolled =
            Rolled-nothing defined_by undo_defined (event hv xml s) held s.log _
              (ap (definition (define_domain xml)) f)
              (Rolled-undone defined_by undo_defined held _ es h);
      }
  by_answer name xml names held next s (some dom) f rest = elim (Option-cases s.domains) [
    | inl g ↦
        subst (λ r. Ends (name ∷ names) held s (continue (λ _. next (held ++ dom ∷ [])) r))
          (sym (put_domain-none name dom (logged hv (define_domain xml) s) g)) g
    | inr (m, g) ↦
        subst (λ r. Ends (name ∷ names) held s (continue (λ _. next (held ++ dom ∷ [])) r))
          (sym (put_domain-some name dom m (logged hv (define_domain xml) s) g))
          (one_more name xml dom m names held s _ g f (rest dom m))
  ]

  define_each-Ends :
      (order : List Bytes) (held : List ℕ) (s : Session Ip NetIp)
      → Ends (found order s.runner.devices) held s (define_each hv ip_text render order held s)
  unfolding define_each found filled
  define_each-Ends [] held s = record {
    made = [];
    ending = ap (λ l. record s { log = l }) (sym (append-nil s.log));
    one_each = refl;
  }
  define_each-Ends (k ∷ order) held s = elim (Option-cases (lookup k s.runner.devices)) [
    | inl e ↦ rw (e, define_each, found) (define_each-Ends order held s)
    | inr (d, e) ↦
        rw (e, define_each, found)
          (elim (Option-cases (render (template_args ip_text d))) [
            | inl t ↦ rw (t) (abandon_definitions-Abandoned (bad_template d.name) _ held s)
            | inr (xml, t) ↦ rw (t) (
                by_answer d.name xml (found order s.runner.devices) held
                  (define_each hv ip_text render order) s _ refl
                  (λ dom m. define_each-Ends order (held ++ dom ∷ []) _))
          ])
  ]

  -- `defineDomains` ends in one of three ways. Without an error, one domain has been defined for each
  -- device that the visit found, and the map has them under the devices' names. With an error, exactly
  -- the domains that it defined have been undefined and freed, in their order, and the map is nil; the
  -- calls and the map are all that changed. It panics only where the map was nil before.
  pub define_domains-Ends :
      (order : List Bytes) (s : Session Ip NetIp)
      → Ends (found order s.runner.devices) [] s (define_domains hv ip_text render order s)
  unfolding define_domains
  define_domains-Ends order s = define_each-Ends order [] s
