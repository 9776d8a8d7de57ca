-- ===== src/Libvirt/Hypervisor/Rollback.antt =====
-- What the deferred functions of runner/libvirt/runner.go undo on an error: the things that the calls
-- behind a point of the log have acquired.
use runtopo.Prelude.{
  ℕ, ◌≡◌, refl, sym, ap, ◌∙◌, subst, List, [], ◌∷◌, ◌++◌, append_assoc, append-nil, ok,
}
use runtopo.Libvirt.Hypervisor.{
  Call, Event, Log, Hypervisor, Session, calls_of, logged, tell, tell_all,
}

-- What the calls of a log have acquired, by what each of them acquires.
abbrev pub acquired : (Event → List ℕ) → Log → List ℕ
acquired gain [] = []
acquired gain (e ∷ es) = gain e ++ acquired gain es

pub acquired-append :
    (gain : Event → List ℕ) (es fs : Log)
    → acquired gain (es ++ fs) ≡ acquired gain es ++ acquired gain fs
acquired-append gain [] fs = refl
acquired-append gain (e ∷ es) fs =
    ap (λ xs. gain e ++ xs) (acquired-append gain es fs)
    ∙ sym (append_assoc (gain e) (acquired gain es) (acquired gain fs))

-- From `log` on, some calls were made and then others undid what was held before and what the first
-- ones acquired.
pub record Rolled (gain : Event → List ℕ) (undo : List ℕ → List Call) (held : List ℕ)
    (log log' : Log) : Type 0 where
  pub made : Log
  pub undone : Log
  pub ending : log' ≡ log ++ (made ++ undone)
  pub balance : calls_of undone ≡ undo (held ++ acquired gain made)

module _ (gain : Event → List ℕ) (undo : List ℕ → List Call) where
  unfoldable pub Rolled-events :
      (es : Log) (held : List ℕ) (log log' : Log)
      → Rolled gain undo (held ++ acquired gain es) (log ++ es) log'
      → Rolled gain undo held log log'
  Rolled-events es held log log' r = record {
    made = es ++ r.made;
    undone = r.undone;
    ending =
        r.ending
        ∙ append_assoc log es (r.made ++ r.undone)
        ∙ ap (λ l. log ++ l) (sym (append_assoc es r.made r.undone));
    balance =
        r.balance
        ∙ ap undo (
            append_assoc held (acquired gain es) (acquired gain r.made)
            ∙ ap (λ xs. held ++ xs) (sym (acquired-append gain es r.made)));
  }

  -- One call, which acquired a thing or nothing.
  pub Rolled-gained :
      (e : Event) (new held : List ℕ) (log log' : Log)
      → gain e ≡ new
      → Rolled gain undo (held ++ new) (log ++ e ∷ []) log'
      → Rolled gain undo held log log'
  Rolled-gained e new held log log' g r = Rolled-events (e ∷ []) held log log' (
      subst (λ xs. Rolled gain undo (held ++ xs) (log ++ e ∷ []) log')
        (sym (append-nil (gain e) ∙ g)) r)

  pub Rolled-nothing :
      (e : Event) (held : List ℕ) (log log' : Log)
      → gain e ≡ []
      → Rolled gain undo held (log ++ e ∷ []) log'
      → Rolled gain undo held log log'
  Rolled-nothing e held log log' g r =
      Rolled-gained e [] held log log' g
        (subst (λ xs. Rolled gain undo xs (log ++ e ∷ []) log') (sym (append-nil held)) r)

  unfoldable pub Rolled-undone :
      (held : List ℕ) (log es : Log)
      → calls_of es ≡ undo held
      → Rolled gain undo held log (log ++ es)
  Rolled-undone held log es e = record {
    made = [];
    undone = es;
    ending = refl;
    balance = e ∙ ap undo (sym (append-nil held));
  }

module _ (hv : Hypervisor) {Ip NetIp : Type 0} where
  -- A run of calls whose errors are ignored adds them to the log, and changes nothing else.
  pub tell_all-log :
      (cs : List Call) (s : Session Ip NetIp)
      → (es : Log) × (tell_all hv cs s ≡ (ok tt, record s { log = s.log ++ es }))
        × (calls_of es ≡ cs)
  unfolding tell_all tell
  tell_all-log [] s = ([], (ap (λ l. (ok tt, record s { log = l })) (sym (append-nil s.log))), refl)
  tell_all-log (c ∷ cs) s =
      let (es, e, f) = tell_all-log cs (logged hv c s) in
      (
        record { call = c; answer = hv.number s.log c } ∷ es,
        e
            ∙ ap (λ l. (ok tt, record s { log = l }))
                (append_assoc s.log (record { call = c; answer = hv.number s.log c } ∷ []) es),
        ap (λ l. c ∷ l) f,
      )
