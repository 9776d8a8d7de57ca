-- ===== src/Libvirt/Vbmc/Commands/Undo.antt =====
-- The two ways in which `startAll` of runner/libvirt/vbmc.go ends.
use runtopo.Prelude.{
  All, ◌≡◌, refl, sym, ap, ◌∙◌, Bool, true, false, Bytes, codes, Option, none, some, List, [], ◌∷◌,
  ◌++◌, append_assoc, append-nil, if◌then◌else◌, Bool-cases, Option-cases, inl, inr, subst,
}
use runtopo.Prelude.Dict.{lookup}
use runtopo.Libvirt.Vbmc.{Bmc, BmcMan}
use runtopo.Libvirt.Vbmc.Commands.{
  Command, Log, add_command, visited, run, delete_added, start_added, vbmc_add, start_from,
  start_all,
}

-- The command that deletes the names, where there are any, and the one that starts them.
abbrev pub deletion : List Bytes → Log
deletion [] = []
deletion (k ∷ ks) = (codes "delete" ∷ k ∷ ks) ∷ []

abbrev pub starting : List Bytes → Log
starting [] = []
starting (k ∷ ks) = (codes "start" ∷ k ∷ ks) ∷ []

module _ (succeeds : Log → Command → Bool) (split : Bytes → Option (Bytes × Bytes))
    (m : BmcMan) where
  -- The BMCs of these names have been added, one after the other.
  pub data Adds (log : Log) : List Bytes → Log → Type 0 where
    nothing : Adds log [] log
    one_more :
        {ks : List Bytes} {log₁ : Log} (k : Bytes) (b : Bmc) (host port : Bytes)
        → Adds log ks log₁
        → lookup k m.all ≡ some b
        → split b.addr ≡ some (host, port)
        → succeeds log₁ (add_command m k b host port) ≡ true
        → Adds log (ks ++ k ∷ []) (log₁ ++ add_command m k b host port ∷ [])

  pub record Started (names : List Bytes) (log log' : Log) : Type 0 where
    pub before : Log
    pub adds : Adds log names before
    pub succeeded : All (λ c. succeeds before c ≡ true) (starting names)
    pub ending : log' ≡ before ++ starting names

  -- Why it went on no more behind the additions of `names`, and what it ran for that: the next BMC of the
  -- visit has an address that cannot be split, or the command that adds it has failed, or, behind the last
  -- one, the command that starts them has failed.
  pub data Failure (visit names : List Bytes) (before : Log) : Log → Type 0 where
    bad_addr :
        (k : Bytes) (b : Bmc) (rest : List Bytes)
        → visit ≡ names ++ k ∷ rest
        → lookup k m.all ≡ some b
        → split b.addr ≡ none
        → Failure visit names before []
    no_add :
        (k : Bytes) (b : Bmc) (host port : Bytes) (rest : List Bytes)
        → visit ≡ names ++ k ∷ rest
        → lookup k m.all ≡ some b
        → split b.addr ≡ some (host, port)
        → succeeds before (add_command m k b host port) ≡ false
        → Failure visit names before (add_command m k b host port ∷ [])
    no_start :
        visit ≡ names
        → succeeds before (codes "start" ∷ names) ≡ false
        → Failure visit names before ((codes "start" ∷ names) ∷ [])

  pub record Undone (visit : List Bytes) (log log' : Log) : Type 0 where
    pub names : List Bytes
    pub before : Log
    pub adds : Adds log names before
    pub failed : Log
    pub failure : Failure visit names before failed
    pub ending : log' ≡ (before ++ failed) ++ deletion names

  abbrev pub Ends : List Bytes → Log → Bool × Log → Type 0
  Ends visit log (true, log') = Started visit log log'
  Ends visit log (false, log') = Undone visit log log'

  delete_added-deletion :
      (ks : List Bytes) (log : Log) → delete_added succeeds ks log ≡ log ++ deletion ks
  unfolding delete_added run
  delete_added-deletion [] log = sym (append-nil log)
  delete_added-deletion (k ∷ ks) log = refl

  start_added-Ends :
      (names : List Bytes) (log before : Log)
      → Adds log names before
      → Ends names log (start_added succeeds names before)
  unfolding start_added run delete_added
  start_added-Ends [] log before a = record {
    before = before;
    adds = a;
    succeeded = tt;
    ending = sym (append-nil before);
  }
  start_added-Ends (k ∷ ks) log before a = go (succeeds before (codes "start" ∷ k ∷ ks)) refl
    where
      go :
          (fine : Bool)
          → succeeds before (codes "start" ∷ k ∷ ks) ≡ fine
          → Ends (k ∷ ks) log (
              if fine then (true, before ++ (codes "start" ∷ k ∷ ks) ∷ []) else (
                false,
                (before ++ (codes "start" ∷ k ∷ ks) ∷ []) ++ (codes "delete" ∷ k ∷ ks) ∷ [],
              ))
      go true e = record { before = before; adds = a; succeeded = (e, tt); ending = refl }
      go false e = record {
        names = k ∷ ks;
        before = before;
        adds = a;
        failed = (codes "start" ∷ k ∷ ks) ∷ [];
        failure = no_start refl e;
        ending = refl;
      }

  -- An error in the loop.
  loop-Undone :
      (visit names : List Bytes) (log before failed after : Log)
      → Adds log names before
      → Failure visit names before failed
      → after ≡ before ++ failed
      → Undone visit log (delete_added succeeds names after)
  loop-Undone visit names log before failed after a why e = record {
    names = names;
    before = before;
    adds = a;
    failed = failed;
    failure = why;
    ending = delete_added-deletion names after ∙ ap (λ l. l ++ deletion names) e;
  }

  -- What the loop goes on with, for a BMC that the map has.
  going_on : List Bytes → List Bytes → Bytes → Log → Bool × Log → Bool × Log
  going_on order names k before (true, log') =
      start_from succeeds split m order (names ++ k ∷ []) log'
  going_on order names k before (false, log') = (false, delete_added succeeds names log')

  start_from-step :
      (k : Bytes) (b : Bmc) (order names : List Bytes) (before : Log)
      → lookup k m.all ≡ some b
      → start_from succeeds split m (k ∷ order) names before
        ≡ going_on order names k before (vbmc_add succeeds split m k b before)
  unfolding start_from going_on
  start_from-step k b order names before e =
      rw (e, start_from) (by_result (vbmc_add succeeds split m k b before))
    where
      by_result :
          (r : Bool × Log)
          → (elim r.0 [
            | true ↦ start_from succeeds split m order (names ++ k ∷ []) r.1
            | false ↦ (false, delete_added succeeds names r.1)
          ])
            ≡ going_on order names k before r
      by_result (true, l) = refl
      by_result (false, l) = refl

  vbmc_add-none :
      (k : Bytes) (b : Bmc) (log : Log)
      → split b.addr ≡ none
      → vbmc_add succeeds split m k b log ≡ (false, log)
  unfolding vbmc_add
  vbmc_add-none k b log e = rw (e, vbmc_add)

  vbmc_add-some :
      (k : Bytes) (b : Bmc) (host port : Bytes) (log : Log) (fine : Bool)
      → split b.addr ≡ some (host, port)
      → succeeds log (add_command m k b host port) ≡ fine
      → vbmc_add succeeds split m k b log ≡ (fine, log ++ add_command m k b host port ∷ [])
  unfolding vbmc_add run
  vbmc_add-some k b host port log fine e f =
      rw (e, vbmc_add) (ap (λ x. (x, log ++ add_command m k b host port ∷ [])) f)

  loop_done :
      (names : List Bytes) (log before : Log)
      → Adds log names before
      → Ends (names ++ visited m []) log (start_from succeeds split m [] names before)
  unfolding start_from visited
  loop_done names log before a =
      subst (λ ns. Ends ns log (start_added succeeds names before)) (sym (append-nil names))
        (start_added-Ends names log before a)

  visited-none :
      (k : Bytes) (order : List Bytes)
      → lookup k m.all ≡ none
      → visited m (k ∷ order) ≡ visited m order
  unfolding visited
  visited-none k order e = rw (e, visited)

  visited-some :
      (k : Bytes) (b : Bmc) (order : List Bytes)
      → lookup k m.all ≡ some b
      → visited m (k ∷ order) ≡ k ∷ visited m order
  unfolding visited
  visited-some k b order e = rw (e, visited)

  start_from-none :
      (k : Bytes) (order names : List Bytes) (before : Log)
      → lookup k m.all ≡ none
      → start_from succeeds split m (k ∷ order) names before
        ≡ start_from succeeds split m order names before
  unfolding start_from
  start_from-none k order names before e = rw (e, start_from)

  start_from-Ends :
      (order names : List Bytes) (log before : Log)
      → Adds log names before
      → Ends (names ++ visited m order) log (start_from succeeds split m order names before)
  unfolding going_on
  start_from-Ends [] names log before a = loop_done names log before a
  start_from-Ends (k ∷ order) names log before a = elim (Option-cases (lookup k m.all)) [
    | inl e ↦
        rw (visited-none k order e, start_from-none k order names before e)
          (start_from-Ends order names log before a)
    | inr (b, e) ↦
        subst (Ends (names ++ visited m (k ∷ order)) log)
          (sym (start_from-step k b order names before e))
          (elim (Option-cases (split b.addr)) [
            | inl f ↦ rw (vbmc_add-none k b before f) (
                loop-Undone _ names log before [] before a
                  (bad_addr k b (visited m order) (ap (λ v. names ++ v) (visited-some k b order e))
                    e f)
                  (sym (append-nil before)))
            | inr ((host, port), f) ↦
                elim (Bool-cases (succeeds before (add_command m k b host port))) [
                  | inl g ↦
                      rw (vbmc_add-some k b host port before true f g, visited-some k b order e)
                        (subst
                          (λ ns. Ends ns log (
                            start_from succeeds split m order (names ++ k ∷ [])
                              (before ++ add_command m k b host port ∷ [])))
                          (append_assoc names (k ∷ []) (visited m order))
                          (start_from-Ends order (names ++ k ∷ []) log _
                            (one_more k b host port a e f g)))
                  | inr g ↦ rw (vbmc_add-some k b host port before false f g) (
                      loop-Undone _ names log before (add_command m k b host port ∷ []) _ a
                        (no_add k b host port (visited m order)
                          (ap (λ v. names ++ v) (visited-some k b order e)) e f g)
                        refl)
                ]
          ])
  ]

  -- Whatever the program vbmc answers, `startAll` ends in one of two ways. Without an error, every BMC
  -- that the visit found has been added, in its order, and then all have been started by one command
  -- that succeeded. With an error, either the next BMC of the visit could not be added, because its address
  -- cannot be split or its command failed, or all had been added and the command that starts them failed;
  -- then the last command deletes exactly those that had been added, where there are any.
  pub start_all-Ends :
      (order : List Bytes) (log : Log)
      → Ends (visited m order) log (start_all succeeds split m order log)
  unfolding start_all
  start_all-Ends order log = start_from-Ends order [] log log nothing
