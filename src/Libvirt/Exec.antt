-- ===== src/Libvirt/Exec.antt =====
-- A Go method that changes its receiver and may return an error or panic: what was written before
-- stays written.
use runtopo.Prelude.{Outcome, ok, err, panic}
use runtopo.Errors.{Error}

abbrev pub Exec : Type 0 → Type 0 → Type 0
Exec S A = S → Outcome Error A × S

module _ {S A : Type 0} where
  abbrev pub pure : A → Exec S A
  pure a s = (ok a, s)

  abbrev pub raise : Error → Exec S A
  raise e s = (err e, s)

  abbrev pub crash : Exec S A
  crash s = (panic, s)

  abbrev pub lift : Outcome Error A → Exec S A
  lift o s = (o, s)

  abbrev pub gets : (S → A) → Exec S A
  gets f s = (ok (f s), s)

abbrev pub modify : {S : Type 0} → (S → S) → Exec S (Unit {0})
modify f s = (ok tt, f s)

module _ {S A B : Type 0} where
  abbrev pub continue : (A → Exec S B) → Outcome Error A × S → Outcome Error B × S
  continue k (panic, s) = (panic, s)
  continue k (err e, s) = (err e, s)
  continue k (ok a, s) = k a s

  infixl 4 ◌>>=◌ ◌>>◌
  abbrev pub ◌>>=◌ : Exec S A → (A → Exec S B) → Exec S B
  ◌>>=◌ m k s = continue k (m s)

  abbrev pub ◌>>◌ : Exec S A → Exec S B → Exec S B
  m >> k = m >>= λ _. k

module _ {S A : Type 0} where
  abbrev pub after_all : Outcome Error A → Outcome Error (Unit {0}) × S → Outcome Error A × S
  after_all o (panic, s) = (panic, s)
  after_all o (err e, s) = (o, s)
  after_all o (ok u, s) = (o, s)

  abbrev pub after_error : Exec S (Unit {0}) → Outcome Error A × S → Outcome Error A × S
  after_error cleanup (panic, s) = (panic, s)
  after_error cleanup (err e, s) = after_all (err e) (cleanup s)
  after_error cleanup (ok a, s) = (ok a, s)

  -- `defer func() { if err != nil { cleanup } }()`: after a panic the named result is nil.
  abbrev pub on_error : Exec S (Unit {0}) → Exec S A → Exec S A
  on_error cleanup m s = after_error cleanup (m s)

  abbrev pub after_any : Exec S (Unit {0}) → Outcome Error A × S → Outcome Error A × S
  after_any cleanup (o, s) = after_all o (cleanup s)

  -- `defer cleanup()`
  abbrev pub finally : Exec S (Unit {0}) → Exec S A → Exec S A
  finally cleanup m s = after_any cleanup (m s)
