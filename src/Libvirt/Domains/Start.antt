-- ===== src/Libvirt/Domains/Start.antt =====
-- The ways in which `startDomains` of runner/libvirt/runner.go ends.
use runtopo.Prelude.{
  ℕ, ◌≡◌, refl, sym, ap, ◌∙◌, subst, Bool, true, false, Bool-cases, Bytes, Option, none, some,
  Option-cases, inl, inr, List, [], ◌∷◌, ◌++◌, map, append_assoc, append-nil, In, Outcome, ok, err,
  panic,
}
use runtopo.Prelude.Dict.{Dict}
use runtopo.Errors.{Error, start_failed}
use runtopo.Topology.Device.{Device}
use runtopo.Libvirt.Exec.{Exec}
use runtopo.Libvirt.Hypervisor.{
  Call, create_domain, Event, Log, Hypervisor, Session, branch, logged,
}
use runtopo.Libvirt.Hypervisor.Rollback.{
  acquired, Rolled, Rolled-gained, Rolled-nothing, Rolled-undone, tell_all-log,
}
use runtopo.Libvirt.Domains.{
  undo_started, domain_named, is_skipped, by_function, abandon_starts, start_bmcs, finish_start,
  start_each, start_domains,
}

-- The domain that a call has started.
creation : Call → Option ℕ → List ℕ
creation (create_domain dom) (some n) = dom ∷ []
creation c a = []

abbrev pub started_by : Event → List ℕ
unfolding creation
started_by e = creation e.call e.answer

-- The domains of the devices that the loop does not pass over, none for a domain that is not there.
unfoldable pub to_start :
    {Ip : Type 0} → Bytes → Option (Dict ℕ) → List (Device Ip) → List (Option ℕ)
to_start prefix domains [] = []
to_start prefix domains (d ∷ ds) = elim (is_skipped d) [
  | true ↦ to_start prefix domains ds
  | false ↦ domain_named (prefix ++ d.name) domains ∷ to_start prefix domains ds
]

module _ {Ip NetIp : Type 0} where
  pub record Started (wanted : List (Option ℕ)) (s s' : Session Ip NetIp) : Type 0 where
    pub made : Log
    pub ending : s' ≡ record s { log = s.log ++ made; commands = s'.commands }
    pub all_of_them : map some (acquired started_by made) ≡ wanted

  pub record Stopped (held : List ℕ) (s s' : Session Ip NetIp) : Type 0 where
    pub ending : s' ≡ record s { log = s'.log; commands = s'.commands }
    pub rolled : Rolled started_by undo_started held s.log s'.log

  abbrev pub Ends :
      List (Option ℕ)
      → List ℕ
      → Session Ip NetIp
      → Outcome Error (Unit {0}) × Session Ip NetIp
      → Type 0
  Ends wanted held s (ok u, s') = Started wanted s s'
  Ends wanted held s (err e, s') = Stopped held s s'
  Ends wanted held s (panic, s') = In none wanted

module _ (hv : Hypervisor) (split : Bytes → Option (Bytes × Bytes)) {Ip NetIp : Type 0} where
  abbrev creation_of : ℕ → Session Ip NetIp → Event
  creation_of dom s = record {
    call = create_domain dom;
    answer = hv.number s.log (create_domain dom);
  }

  finish_start-Ends :
      (held : List ℕ) (fine : Bool) (s s₁ : Session Ip NetIp)
      → s₁ ≡ record s { commands = s₁.commands }
      → Ends [] held s (finish_start hv split held fine s₁)
  unfolding finish_start abandon_starts
  finish_start-Ends held true s s₁ e = record {
    made = [];
    ending = e ∙ ap (λ l. record s { log = l; commands = s₁.commands }) (sym (append-nil s.log));
    all_of_them = refl;
  }
  finish_start-Ends held false s s₁ e =
      let (es, f, g) = tell_all-log hv (undo_started held) s₁ in
      rw (f) record {
        ending =
            ap {A = Session Ip NetIp} {B = Session Ip NetIp} (λ t. record t { log = s₁.log ++ es })
              e;
        rolled =
            subst (λ l. Rolled started_by undo_started held l (s₁.log ++ es))
              (ap {A = Session Ip NetIp} {B = Log} (λ t. t.log) e)
              (Rolled-undone started_by undo_started held s₁.log es g);
      }

  by_answer :
      (x : Error) (dom : ℕ) (wanted : List (Option ℕ)) (held : List ℕ)
      (next : List ℕ → Exec (Session Ip NetIp) (Unit {0})) (s : Session Ip NetIp) (a : Option ℕ)
      → hv.number s.log (create_domain dom) ≡ a
      → Ends wanted
          (held ++ dom ∷ [])
          (logged hv (create_domain dom) s)
          (next (held ++ dom ∷ []) (logged hv (create_domain dom) s))
      → Ends (some dom ∷ wanted) held s (
          branch
            (abandon_starts hv split x held)
            (λ _. next (held ++ dom ∷ []))
            a
            (logged hv (create_domain dom) s))
  unfolding creation abandon_starts
  by_answer x dom wanted held next s none f rest =
      let (es, g, h) = tell_all-log hv (undo_started held) (logged hv (create_domain dom) s) in
      rw (g) record {
        ending = refl;
        rolled =
            Rolled-nothing started_by undo_started (creation_of dom s) held s.log _
              (ap (creation (create_domain dom)) f)
              (Rolled-undone started_by undo_started held _ es h);
      }
  by_answer x dom wanted held next s (some n) f rest =
      one_more (next (held ++ dom ∷ []) (logged hv (create_domain dom) s)) rest
    where
      one_more :
          (r : Outcome Error (Unit {0}) × Session Ip NetIp)
          → Ends wanted (held ++ dom ∷ []) (logged hv (create_domain dom) s) r
          → Ends (some dom ∷ wanted) held s r
      one_more (ok u, s') h = record {
        made = creation_of dom s ∷ h.made;
        ending =
            h.ending
            ∙ ap (λ l. record s { log = l; commands = s'.commands })
                (append_assoc s.log (creation_of dom s ∷ []) h.made);
        all_of_them =
            ap (λ a. map some (creation (create_domain dom) a ++ acquired started_by h.made)) f
            ∙ ap (λ ws. some dom ∷ ws) h.all_of_them;
      }
      one_more (err y, s') h = record {
        ending = h.ending;
        rolled =
            Rolled-gained started_by undo_started (creation_of dom s) (dom ∷ []) held s.log s'.log
              (ap (creation (create_domain dom)) f) h.rolled;
      }
      one_more (panic, s') h = inr h

  start_each-Ends :
      (bmc_order : List Bytes) (ds : List (Device Ip)) (held : List ℕ) (s : Session Ip NetIp)
      → Ends
          (to_start s.runner.name_prefix s.domains ds)
          held
          s
          (start_each hv split bmc_order ds held s)
  unfolding start_each to_start start_bmcs
  start_each-Ends bmc_order [] held s = finish_start-Ends held _ s _ refl
  start_each-Ends bmc_order (d ∷ ds) held s = elim (Bool-cases (is_skipped d)) [
    | inl e ↦ rw (e, start_each, to_start) (start_each-Ends bmc_order ds held s)
    | inr e ↦
        rw (e, start_each, to_start)
          (elim (Option-cases (domain_named (s.runner.name_prefix ++ d.name) s.domains)) [
            | inl f ↦ rw (f) (inl refl)
            | inr (dom, f) ↦ rw (f) (
                by_answer (start_failed d.name) dom _ held (start_each hv split bmc_order ds) s _
                  refl
                  (start_each-Ends bmc_order ds (held ++ dom ∷ [])
                    (logged hv (create_domain dom) s)))
          ])
  ]

  -- `startDomains` ends in one of three ways. Without an error, it has started, in the order of the
  -- devices' functions, the domain of each device that is not fake and has an image, and no other. With
  -- an error, exactly the domains that it started have been destroyed, in their order. Beyond the calls
  -- and the commands nothing changed. It panics only if one of these devices has no domain in the map.
  pub start_domains-Ends :
      (bmc_order : List Bytes) (ds : List (Device Ip)) (s : Session Ip NetIp)
      → Ends
          (to_start s.runner.name_prefix s.domains (by_function ds))
          []
          s
          (start_domains hv split bmc_order ds s)
  unfolding start_domains
  start_domains-Ends bmc_order ds s = start_each-Ends bmc_order (by_function ds) [] s
