-- ===== src/Libvirt/Hypervisor/Holds.antt =====
-- What holds of the runner's BMCs and of the prefix of its names, and keeps holding: no code behind
-- `buildInventory` in runner/libvirt/runner.go writes to either.
use runtopo.Prelude.{ℕ, Option, none, some, List, [], ◌∷◌, Bytes, Outcome, ok, err, panic}
use runtopo.Errors.{Error}
use runtopo.Libvirt.Vbmc.{BmcMan}
use runtopo.Libvirt.Exec.{
  Exec, continue, after_error, after_any, after_all, on_error, finally, ◌>>=◌, ◌>>◌,
}
use runtopo.Libvirt.Hypervisor.{Call, Hypervisor, Session, attempt, branch, logged, tell, tell_all}

module _ (Q : BmcMan → Bytes → Type 0) {Ip NetIp : Type 0} where
  abbrev pub Held : Session Ip NetIp → Type 0
  Held s = Q s.runner.bmc_man s.runner.name_prefix

  -- Code that keeps it, whatever it returns.
  abbrev pub Holds : {A : Type 0} → Exec (Session Ip NetIp) A → Type 0
  Holds m = (s : Session Ip NetIp) → Held s → Held (m s).1

  pub Holds-continue :
      {A B : Type 0} (k : A → Exec (Session Ip NetIp) B) (r : Outcome Error A × Session Ip NetIp)
      → Held r.1
      → ((a : A) → Holds (k a))
      → Held (continue k r).1
  Holds-continue k (panic, t) h rest = h
  Holds-continue k (err e, t) h rest = h
  Holds-continue k (ok a, t) h rest = rest a t h

  pub Holds->>= :
      {A B : Type 0} (m : Exec (Session Ip NetIp) A) (k : A → Exec (Session Ip NetIp) B)
      → Holds m
      → ((a : A) → Holds (k a))
      → Holds (m >>= k)
  Holds->>= m k first rest s h = Holds-continue k (m s) (first s h) rest

  pub Holds->> :
      {A B : Type 0} (m : Exec (Session Ip NetIp) A) (k : Exec (Session Ip NetIp) B)
      → Holds m
      → Holds k
      → Holds (m >> k)
  Holds->> m k first rest = Holds->>= m (λ _. k) first (λ _. rest)

  after_all-Held :
      {A : Type 0} (o : Outcome Error A) (r : Outcome Error (Unit {0}) × Session Ip NetIp)
      → Held r.1
      → Held (after_all o r).1
  after_all-Held o (panic, t) h = h
  after_all-Held o (err e, t) h = h
  after_all-Held o (ok u, t) h = h

  pub Holds-on_error :
      {A : Type 0} (cleanup : Exec (Session Ip NetIp) (Unit {0})) (m : Exec (Session Ip NetIp) A)
      → Holds cleanup
      → Holds m
      → Holds (on_error cleanup m)
  Holds-on_error {A = A} cleanup m tidy code s h = by_outcome (m s) (code s h)
    where
      by_outcome :
          (r : Outcome Error A × Session Ip NetIp) → Held r.1 → Held (after_error cleanup r).1
      by_outcome (panic, t) g = g
      by_outcome (err e, t) g = after_all-Held (err e) (cleanup t) (tidy t g)
      by_outcome (ok a, t) g = g

  pub Holds-finally :
      {A : Type 0} (cleanup : Exec (Session Ip NetIp) (Unit {0})) (m : Exec (Session Ip NetIp) A)
      → Holds cleanup
      → Holds m
      → Holds (finally cleanup m)
  Holds-finally {A = A} cleanup m tidy code s h = by_outcome (m s) (code s h)
    where
      by_outcome :
          (r : Outcome Error A × Session Ip NetIp) → Held r.1 → Held (after_any cleanup r).1
      by_outcome (o, t) g = after_all-Held o (cleanup t) (tidy t g)

  module _ (hv : Hypervisor) where
    pub Holds-attempt :
        {A : Type 0} (c : Call) (failure : Exec (Session Ip NetIp) A)
        (success : ℕ → Exec (Session Ip NetIp) A)
        → Holds failure
        → ((n : ℕ) → Holds (success n))
        → Holds (attempt hv c failure success)
    Holds-attempt c failure success bad good s h = by_answer (hv.number s.log c)
      where
        by_answer : (a : Option ℕ) → Held (branch failure success a (logged hv c s)).1
        by_answer none = bad (logged hv c s) h
        by_answer (some n) = good n (logged hv c s) h

    pub tell-Holds : (c : Call) → Holds (tell hv c)
    unfolding tell
    tell-Holds c s h = h

    pub tell_all-Holds : (cs : List Call) → Holds (tell_all hv cs)
    unfolding tell_all
    tell_all-Holds [] s h = h
    tell_all-Holds (c ∷ cs) s h =
        Holds->>= (tell hv c) (λ _. tell_all hv cs) (tell-Holds c) (λ _. tell_all-Holds cs) s h
