-- ===== src/Libvirt/Volumes/Disks/Create.antt =====
-- The ways in which `createVolumes` of runner/libvirt/runner.go ends.
use runtopo.Prelude.{
  ℕ, suc, ◌≡◌, refl, sym, ap, ◌∙◌, subst, Bytes, str_eq_iff, Option, some, Option-cases, inl, inr,
  List, [], ◌∷◌, ◌++◌, append-nil, length, Outcome, ok, err, panic, arith,
}
use runtopo.Prelude.Dict.{Dict, lookup, insert, lookup-insert}
use runtopo.Errors.{Error, no_pool}
use runtopo.Libvirt.Device.{HostDevice}
use runtopo.Libvirt.Exec.{Exec, continue, raise, crash}
use runtopo.Libvirt.Hypervisor.{
  Call, free_pool, lookup_pool, Log, Hypervisor, Session, branch, logged, tell_all,
}
use runtopo.Libvirt.Hypervisor.Rollback.{
  acquired, acquired-append, Rolled, Rolled-events, Rolled-undone, tell_all-log,
}
use runtopo.Libvirt.Hypervisor.Quiet.{Calls}
use runtopo.Libvirt.Domains.Define.{found}
use runtopo.Libvirt.Volumes.{StorageVolume}
use runtopo.Libvirt.Volumes.Disks.{
  undo_created, free_created, create_one, mark_pool, settle, create_each, create_volumes,
}
use runtopo.Libvirt.Volumes.Disks.Round.{created_by, new_volumes, create_one-Calls}

-- What the deferred functions call without an error, and with one.
abbrev pub freeing : ℕ → List ℕ → List Call
freeing pool vols = free_pool pool ∷ free_created vols

abbrev pub deleting : ℕ → List ℕ → List Call
deleting pool vols = free_pool pool ∷ undo_created vols

module _ {Ip NetIp : Type 0} where
  -- A write of a device with the same name changes no name.
  found-insert :
      (k : Bytes) (d d' : HostDevice Ip NetIp) (order : List Bytes) (m : Dict (HostDevice Ip NetIp))
      → lookup k m ≡ some d
      → d'.name ≡ d.name
      → found order (insert k d' m) ≡ found order m
  unfolding found
  found-insert k d d' [] m e f = refl
  found-insert k d d' (j ∷ order) m e f =
      ground (arith, lookup-insert k j d' m, str_eq_iff k j, found-insert k d d' order m e f)

  -- Beyond the calls and the devices nothing has changed.
  abbrev pub SameRest : Session Ip NetIp → Session Ip NetIp → Type 0
  SameRest s s' =
      s' ≡ record s { log = s'.log; runner = record s.runner { devices = s'.runner.devices } }

  pub record Created (pool count : ℕ) (held : List ℕ) (s s' : Session Ip NetIp) : Type 0 where
    pub rolled : Rolled created_by (freeing pool) held s.log s'.log
    pub one_each : length (acquired created_by rolled.made) ≡ count

  abbrev pub Ends :
      ℕ → ℕ → List ℕ → Session Ip NetIp → Outcome Error (Unit {0}) × Session Ip NetIp → Type 0
  Ends pool count held s (ok u, s') = Created pool count held s s' × SameRest s s'
  Ends pool count held s (err e, s') =
      Rolled created_by (deleting pool) held s.log s'.log × SameRest s s'
  Ends pool count held s (panic, s') =
      Rolled created_by (freeing pool) held s.log s'.log × SameRest s s'

module _ (hv : Hypervisor) (marshal : StorageVolume → Option Bytes) {Ip NetIp : Type 0} where
  -- The deferred functions, after calls that created nothing.
  undoing :
      (undo : List ℕ → List Call) (held : List ℕ) (s t : Session Ip NetIp)
      → Calls created_by [] s t
      → (u : Session Ip NetIp) × (tell_all hv (undo held) t ≡ (ok tt, u))
        × (Rolled created_by undo held s.log u.log)
        × SameRest s u
  undoing undo held s t c =
      let (es, e, f) = tell_all-log hv (undo held) t in
      (
        record t { log = t.log ++ es },
        e,
        Rolled-events created_by undo c.made held s.log (t.log ++ es) (
            subst (λ xs. Rolled created_by undo xs (s.log ++ c.made) (t.log ++ es))
              (sym (ap (λ xs. held ++ xs) c.gained ∙ append-nil held))
              (subst (λ l. Rolled created_by undo held l (t.log ++ es))
                (ap {A = Session Ip NetIp} {B = Log} (λ r. r.log) c.ending)
                (Rolled-undone created_by undo held t.log es f))),
        subst (λ r. SameRest s (record r { log = t.log ++ es })) (sym c.ending) refl,
      )

  -- A round that created a volume, before what follows.
  one_more :
      (pool count vol : ℕ) (k : Bytes) (d : HostDevice Ip NetIp) (held : List ℕ)
      (s t : Session Ip NetIp) (r : Outcome Error (Unit {0}) × Session Ip NetIp)
      → Calls created_by (vol ∷ []) s t
      → Ends pool count (held ++ vol ∷ []) (mark_pool hv marshal k d t) r
      → Ends pool (suc count) held s r
  unfolding mark_pool Rolled-events
  one_more pool count vol k d held s t r c = go r
    where
      back :
          (undo : List ℕ → List Call) (log' : Log)
          → Rolled created_by undo (held ++ vol ∷ []) t.log log'
          → Rolled created_by undo (held ++ acquired created_by c.made) (s.log ++ c.made) log'
      back undo log' h = record {
        made = h.made;
        undone = h.undone;
        ending =
            h.ending
            ∙ ap {A = Session Ip NetIp} {B = Log} (λ q. q.log ++ (h.made ++ h.undone)) c.ending;
        balance =
            h.balance ∙ ap (λ xs. undo ((held ++ xs) ++ acquired created_by h.made)) (sym c.gained);
      }

      rest : (s' : Session Ip NetIp) → SameRest (mark_pool hv marshal k d t) s' → SameRest s s'
      rest s' e =
          e
          ∙ ap {A = Session Ip NetIp} {B = Session Ip NetIp}
              (λ q. record q {
                log = s'.log;
                runner = record q.runner { devices = s'.runner.devices };
              })
              c.ending

      go :
          (r : Outcome Error (Unit {0}) × Session Ip NetIp)
          → Ends pool count (held ++ vol ∷ []) (mark_pool hv marshal k d t) r
          → Ends pool (suc count) held s r
      go (ok u, s') (h, e) = (
        record {
          rolled =
              Rolled-events created_by (freeing pool) c.made held s.log s'.log
                (back (freeing pool) s'.log h.rolled);
          one_each =
              ap length (acquired-append created_by c.made h.rolled.made)
              ∙ ap (λ xs. length (xs ++ acquired created_by h.rolled.made)) c.gained
              ∙ ap suc h.one_each;
        },
        rest s' e,
      )
      go (err x, s') (h, e) = (
        Rolled-events created_by (deleting pool) c.made held s.log s'.log
            (back (deleting pool) s'.log h),
        rest s' e,
      )
      go (panic, s') (h, e) = (
        Rolled-events created_by (freeing pool) c.made held s.log s'.log
            (back (freeing pool) s'.log h),
        rest s' e,
      )

  -- What follows a round, by its outcome.
  settle-Ends :
      (pool count : ℕ) (k : Bytes) (d : HostDevice Ip NetIp) (held : List ℕ)
      (next : List ℕ → Exec (Session Ip NetIp) (Unit {0})) (s : Session Ip NetIp)
      (r : Outcome Error ℕ × Session Ip NetIp)
      → Calls created_by (new_volumes r.0) s r.1
      → ((vol : ℕ) (t : Session Ip NetIp)
          → Calls created_by (vol ∷ []) s t
          → Ends pool count
              (held ++ vol ∷ [])
              (mark_pool hv marshal k d t)
              (next (held ++ vol ∷ []) (mark_pool hv marshal k d t)))
      → Ends pool (suc count) held s (
          settle hv marshal pool held
            (λ vol t. next (held ++ vol ∷ []) (mark_pool hv marshal k d t))
            r)
  unfolding settle new_volumes
  settle-Ends pool count k d held next s (ok vol, t) c rest =
      one_more pool count vol k d held s t _ c (rest vol t c)
  settle-Ends pool count k d held next s (err e, t) c rest =
      let (u, f, h, g) = undoing (deleting pool) held s t c in
      subst (λ r. Ends pool (suc count) held s (continue (λ _. raise e) r)) (sym f) (h, g)
  settle-Ends pool count k d held next s (panic, t) c rest =
      let (u, f, h, g) = undoing (freeing pool) held s t c in
      subst (λ r. Ends pool (suc count) held s (continue {B = Unit {0}} (λ _. crash) r)) (sym f)
        (h, g)

  create_each-Ends :
      (pool : ℕ) (order : List Bytes) (held : List ℕ) (s : Session Ip NetIp)
      → Ends pool
          (length (found order s.runner.devices))
          held
          s
          (create_each hv marshal pool order held s)
  unfolding create_each found Rolled-undone mark_pool
  create_each-Ends pool [] held s =
      let (es, e, f) = tell_all-log hv (freeing pool held) s in
      rw (e) (
        record {
          rolled = Rolled-undone created_by (freeing pool) held s.log es f;
          one_each = refl;
        },
        refl,
      )
  create_each-Ends pool (k ∷ order) held s = elim (Option-cases (lookup k s.runner.devices)) [
    | inl e ↦ rw (e, create_each, found) (create_each-Ends pool order held s)
    | inr (d, e) ↦
        rw (e, create_each, found)
          (settle-Ends pool (length (found order s.runner.devices)) k d held
            (create_each hv marshal pool order) s (create_one hv marshal pool d s)
            (create_one-Calls hv marshal pool d s)
            (λ vol t c.
              subst
                (λ n. Ends pool n (held ++ vol ∷ []) (mark_pool hv marshal k d t) (
                  create_each hv marshal pool order (held ++ vol ∷ [])
                    (mark_pool hv marshal k d t)))
                (ap length (same_names vol t c d e))
                (create_each-Ends pool order (held ++ vol ∷ []) (mark_pool hv marshal k d t))))
  ]
    where
      same_names :
          (vol : ℕ) (t : Session Ip NetIp)
          → Calls created_by (vol ∷ []) s t
          → (d : HostDevice Ip NetIp) → lookup k s.runner.devices ≡ some d
          → found order (insert k (record d { pool = t.runner.storage_pool }) t.runner.devices)
            ≡ found order s.runner.devices
      same_names vol t c d e =
          ap {A = Session Ip NetIp} {B = List Bytes}
            (λ q.
              found order (insert k (record d { pool = q.runner.storage_pool }) q.runner.devices))
            c.ending
          ∙ found-insert k d (record d { pool = s.runner.storage_pool }) order s.runner.devices e
              refl

  -- Where the storage pool is found, `createVolumes` ends in one of three ways, and in each of them it
  -- frees the pool and then the volumes that it has created, exactly these and in their order. Without an
  -- error it has created one volume for each device that the visit found. With an error it deletes each
  -- volume before it frees it. When it panics, it frees them only. Nothing changes but the calls and the
  -- devices.
  pub create_volumes-Ends :
      (order : List Bytes) (s : Session Ip NetIp) (pool : ℕ)
      → hv.number s.log (lookup_pool s.runner.storage_pool) ≡ some pool
      → Ends pool
          (length (found order s.runner.devices))
          []
          (logged hv (lookup_pool s.runner.storage_pool) s)
          (create_volumes hv marshal order s)
  unfolding create_volumes
  create_volumes-Ends order s pool e =
      subst
        (λ a.
          Ends pool (length (found order s.runner.devices)) []
            (logged hv (lookup_pool s.runner.storage_pool) s)
            (branch (raise (no_pool s.runner.storage_pool)) (λ n. create_each hv marshal n order [])
              a (logged hv (lookup_pool s.runner.storage_pool) s)))
        (sym e) (create_each-Ends pool order [] (logged hv (lookup_pool s.runner.storage_pool) s))
