-- ===== src/Libvirt/Lifecycle/Cleanups.antt =====
-- The clean-ups of `Run` of runner/libvirt/runner.go, by what they change.
use runtopo.Prelude.{
  ℕ, ◌≡◌, refl, ap, ◌∙◌, Bytes, Option, none, some, Option-cases, inl, inr, List, [], ◌∷◌, ◌++◌,
  Outcome, ok,
}
use runtopo.Prelude.Dict.{lookup}
use runtopo.Errors.{Error}
use runtopo.Libvirt.Exec.{Exec, continue, after_any, finally, ◌>>◌}
use runtopo.Libvirt.Hypervisor.{
  Call, Event, Log, lookup_pool, lookup_domain, lookup_volume, free_pool, free_volume,
  delete_volume, destroy_domain, undefine_domain, free_domain, Hypervisor, Session, tell, tell_all,
  branch, logged,
}
use runtopo.Libvirt.Hypervisor.Rollback.{acquired, tell_all-log}
use runtopo.Libvirt.Hypervisor.Quiet.{
  Calls, Calls-none, Calls-trans, Quiet, Quiet->>=, Quiet-attempt,
}
use runtopo.Libvirt.Volumes.Disks.{delete_each, delete_volumes}
use runtopo.Libvirt.Domains.{undefine_domains}

-- Nothing is acquired: of a piece of code only that it makes calls and changes nothing else.
abbrev pub no_gain : Event → List ℕ
no_gain e = []

acquired-no_gain : (es : Log) → acquired no_gain es ≡ []
acquired-no_gain [] = refl
acquired-no_gain (e ∷ es) = acquired-no_gain es

module _ (hv : Hypervisor) {Ip NetIp : Type 0} where
  tell_all-Quiet : (cs : List Call) → Quiet no_gain {Ip = Ip} {NetIp = NetIp} (tell_all hv cs)
  tell_all-Quiet cs s =
      let (es, e, f) = tell_all-log hv cs s in
      rw (e) record { made = es; ending = refl; gained = acquired-no_gain es }

  delete_each-Quiet :
      (pool : ℕ) (order : List Bytes)
      → Quiet no_gain {Ip = Ip} {NetIp = NetIp} (delete_each hv pool order)
  unfolding delete_each
  delete_each-Quiet pool [] s = Calls-none no_gain s
  delete_each-Quiet pool (k ∷ order) s = elim (Option-cases (lookup k s.runner.devices)) [
    | inl e ↦ rw (e, delete_each) (delete_each-Quiet pool order s)
    | inr (d, e) ↦
        rw (e, delete_each)
          (Quiet-attempt no_gain hv (lookup_volume pool d.name) _ _ (λ a. refl)
            (delete_each-Quiet pool order)
            (λ vol.
              Quiet->>= no_gain _ _ (tell_all-Quiet (delete_volume vol ∷ free_volume vol ∷ []))
                (λ _. delete_each-Quiet pool order))
            s)
  ]

  -- Behind the end of the code, calls only.
  finally-Quiet :
      {A : Type 0} (cs : List Call) (m : Exec (Session Ip NetIp) A)
      → Quiet no_gain m
      → Quiet no_gain (finally (tell_all hv cs) m)
  finally-Quiet {A = A} cs m q s = by_outcome (m s) (q s)
    where
      by_outcome :
          (r : Outcome Error A × Session Ip NetIp)
          → Calls no_gain [] s r.1
          → Calls no_gain [] s (after_any (tell_all hv cs) r).1
      by_outcome (o, t) c =
          let (es, e, f) = tell_all-log hv cs t in
          rw (e) (
            Calls-trans no_gain [] [] s t _ c
              (record { made = es; ending = refl; gained = acquired-no_gain es }))

  pub delete_volumes-Quiet :
      (order : List Bytes) → Quiet no_gain {Ip = Ip} {NetIp = NetIp} (delete_volumes hv order)
  unfolding delete_volumes tell_all tell
  delete_volumes-Quiet order s =
      Quiet-attempt no_gain hv (lookup_pool s.runner.storage_pool) _ _ (λ a. refl)
        (Calls-none no_gain)
        (λ pool.
          finally-Quiet (free_pool pool ∷ []) (delete_each hv pool order)
            (delete_each-Quiet pool order))
        s

  -- `undefineDomains` never returns an error, and only makes calls.
  pub undefine_domains-ok :
      (order : List Bytes) (s : Session Ip NetIp)
      → (u : Session Ip NetIp) × (undefine_domains hv order s ≡ (ok tt, u))
  unfolding undefine_domains
  undefine_domains-ok [] s = (s, refl)
  undefine_domains-ok (k ∷ order) s = elim (Option-cases (lookup k s.runner.devices)) [
    | inl e ↦ let (u, f) = undefine_domains-ok order s in (u, rw (e, undefine_domains) f)
    | inr (d, e) ↦
        let (u, f) =
          by_answer (hv.number s.log (lookup_domain d.name)) (logged hv (lookup_domain d.name) s)
            (undefine_domains-ok order) in
        (u, rw (e, undefine_domains) f)
  ]
    where
      by_answer :
          (a : Option ℕ) (t : Session Ip NetIp)
          → ((t : Session Ip NetIp)
              → (u : Session Ip NetIp) × (undefine_domains hv order t ≡ (ok tt, u)))
          → (u : Session Ip NetIp) × (branch
                (undefine_domains hv order)
                (λ dom.
                  tell_all hv (destroy_domain dom ∷ undefine_domain dom ∷ free_domain dom ∷ [])
                  >> undefine_domains hv order)
                a
                t
              ≡ (ok tt, u))
      by_answer none t rest = rest t
      by_answer (some dom) t rest =
          let (es, e, f) =
            tell_all-log hv (destroy_domain dom ∷ undefine_domain dom ∷ free_domain dom ∷ []) t in
          let (u, g) = rest (record t { log = t.log ++ es }) in
          (u, ap (continue (λ _. undefine_domains hv order)) e ∙ g)
