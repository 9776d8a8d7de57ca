-- ===== src/Libvirt/Hypervisor/Quiet.antt =====
-- Pieces of the runner's code that make calls and change nothing else, by what the calls acquire.
use runtopo.Prelude.{
  ℕ, ◌≡◌, refl, sym, ap, ◌∙◌, List, [], ◌∷◌, ◌++◌, append_assoc, append-nil, ok, Outcome, err,
  panic, Option, none, some, ap₂,
}
use runtopo.Errors.{Error}
use runtopo.Libvirt.Exec.{Exec, continue, ◌>>=◌}
use runtopo.Libvirt.Hypervisor.{attempt, branch, Call, Event, Log, Hypervisor, Session, logged}
use runtopo.Libvirt.Hypervisor.Rollback.{acquired, acquired-append}

-- A piece of code that made calls, which acquired `new`, and changed nothing else.
pub record Calls (gain : Event → List ℕ) (new : List ℕ) {Ip NetIp : Type 0}
    (s s' : Session Ip NetIp) : Type 0 where
  pub made : Log
  pub ending : s' ≡ record s { log = s.log ++ made }
  pub gained : acquired gain made ≡ new

module _ (gain : Event → List ℕ) {Ip NetIp : Type 0} where
  pub Calls-none : (s : Session Ip NetIp) → Calls gain [] s s
  Calls-none s = record {
    made = [];
    ending = ap (λ l. record s { log = l }) (sym (append-nil s.log));
    gained = refl;
  }

  pub Calls-trans :
      (xs ys : List ℕ) (s t u : Session Ip NetIp)
      → Calls gain xs s t
      → Calls gain ys t u
      → Calls gain (xs ++ ys) s u
  Calls-trans xs ys s t u c d = record {
    made = c.made ++ d.made;
    ending =
        d.ending
        ∙ ap {A = Session Ip NetIp} {B = Session Ip NetIp} (λ r. record r { log = r.log ++ d.made })
            c.ending
        ∙ ap (λ l. record s { log = l }) (append_assoc s.log c.made d.made);
    gained = acquired-append gain c.made d.made ∙ ap₂ (λ us vs. us ++ vs) c.gained d.gained;
  }

  -- Code that acquires nothing.
  abbrev pub Quiet : {A : Type 0} → Exec (Session Ip NetIp) A → Type 0
  Quiet m = (s : Session Ip NetIp) → Calls gain [] s (m s).1

  pub Quiet->>= :
      {A B : Type 0} (m : Exec (Session Ip NetIp) A) (k : A → Exec (Session Ip NetIp) B)
      → Quiet m
      → ((a : A) → Quiet (k a))
      → Quiet (m >>= k)
  Quiet->>= {A = A} m k first rest s = by_outcome (m s) (first s)
    where
      by_outcome :
          (r : Outcome Error A × Session Ip NetIp)
          → Calls gain [] s r.1
          → Calls gain [] s (continue k r).1
      by_outcome (panic, t) c = c
      by_outcome (err e, t) c = c
      by_outcome (ok a, t) c = Calls-trans [] [] s t _ c (rest a t)

  module _ (hv : Hypervisor) where
    pub Calls-logged :
        (c : Call) (new : List ℕ) (s : Session Ip NetIp)
        → gain (record { call = c; answer = hv.number s.log c }) ≡ new
        → Calls gain new s (logged hv c s)
    Calls-logged c new s g = record {
      made = record { call = c; answer = hv.number s.log c } ∷ [];
      ending = refl;
      gained = append-nil (gain (record { call = c; answer = hv.number s.log c })) ∙ g;
    }

    pub Quiet-attempt :
        {A : Type 0} (c : Call) (failure : Exec (Session Ip NetIp) A)
        (success : ℕ → Exec (Session Ip NetIp) A)
        → ((a : Option ℕ) → gain (record { call = c; answer = a }) ≡ [])
        → Quiet failure
        → ((n : ℕ) → Quiet (success n))
        → Quiet (attempt hv c failure success)
    Quiet-attempt c failure success g bad good s = by_answer (hv.number s.log c)
      where
        by_answer : (a : Option ℕ) → Calls gain [] s (branch failure success a (logged hv c s)).1
        by_answer none =
            Calls-trans [] [] s (logged hv c s) _ (Calls-logged c [] s (g _)) (bad (logged hv c s))
        by_answer (some n) =
            Calls-trans [] [] s (logged hv c s) _ (Calls-logged c [] s (g _))
              (good n (logged hv c s))
