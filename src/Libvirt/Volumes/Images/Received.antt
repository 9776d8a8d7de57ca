-- ===== src/Libvirt/Volumes/Images/Received.antt =====
-- The images that `downloadBaseImages` of runner/libvirt/runner.go leaves in the runner.
use runtopo.Prelude.{
  ℕ, ◌≡◌, refl, sym, ap, ◌∙◌, subst, Bytes, Option, none, some, Option-cases, ◌⊎◌, inl, inr, List,
  [], ◌∷◌, All, In, Outcome, ok, err, panic, arith,
}
use runtopo.Prelude.Dict.{Dict, lookup, insert}
use runtopo.Errors.{Error, no_pool}
use runtopo.Libvirt.Device.{HostDevice}
use runtopo.Libvirt.Runner.{Runner}
use runtopo.Libvirt.Exec.{continue, raise, after_any, finally, ◌>>=◌}
use runtopo.Libvirt.Hypervisor.{lookup_pool, free_pool, Hypervisor, Session, branch, logged, tell}
use runtopo.Libvirt.Hypervisor.Rollback.{tell_all-log}
use runtopo.Libvirt.Volumes.{StorageVolume, create_volume_from_url}
use runtopo.Libvirt.Volumes.Upload.Paths.{create_volume_from_url-Balanced}
use runtopo.Libvirt.Volumes.Images.{
  look_up_images, arrived, receive_images, free_images, keep_images, download_base_images,
}
use runtopo.Libvirt.Volumes.Images.Cover.{
  IsKey, IsKey-own, IsKey-insert, image_of, IsCovered, IsSeen, LookUpEnds, look_up_images-Ends,
}

module _ {Ip NetIp : Type 0} where
  -- The result of the device's image arrives, if it has one.
  abbrev pub IsExpected : Dict (HostDevice Ip NetIp) → List Bytes → Bytes → Type 0
  IsExpected ds arrivals k = (image_of k ds ≡ []) ⊎ In (image_of k ds) arrivals

  -- What has arrived, when there was no error.
  abbrev ReceiveEnds :
      Dict (Unit {0})
      → List Bytes
      → Dict ℕ
      → Option Error
      → Session Ip NetIp
      → Outcome Error (Dict ℕ × Option Error) × Session Ip NetIp
      → Type 0
  ReceiveEnds want urls have first s (ok (h, f), t) =
      ((j : Bytes) → IsKey j have → IsKey j h)
      × (f ≡ none → (first ≡ none) × All (λ url. IsKey url want → IsKey url h) urls)
      × (t.runner ≡ s.runner)
  ReceiveEnds want urls have first s (err e, t) = Unit
  ReceiveEnds want urls have first s (panic, t) = Unit

  receive-skip :
      (want : Dict (Unit {0})) (url : Bytes) (urls : List Bytes) (have : Dict ℕ)
      (first : Option Error) (s : Session Ip NetIp)
      (r : Outcome Error (Dict ℕ × Option Error) × Session Ip NetIp)
      → lookup url want ≡ none
      → ReceiveEnds want urls have first s r
      → ReceiveEnds want (url ∷ urls) have first s r
  receive-skip want url urls have first s (ok (h, f), t) e (more, all, same) =
      (more, (λ g. let (a, b) = all g in (a, ((λ q. absurd (ground (arith, e, q.1))), b))), same)
  receive-skip want url urls have first s (err x, t) e q = tt
  receive-skip want url urls have first s (panic, t) e q = tt

  receive-volume :
      (want : Dict (Unit {0})) (url : Bytes) (vol : ℕ) (urls : List Bytes) (have : Dict ℕ)
      (first : Option Error) (s t : Session Ip NetIp)
      (r : Outcome Error (Dict ℕ × Option Error) × Session Ip NetIp)
      → t.runner ≡ s.runner
      → ReceiveEnds want urls (insert url vol have) first t r
      → ReceiveEnds want (url ∷ urls) have first s r
  receive-volume want url vol urls have first s t (ok (h, f), u) e (more, all, same) = (
    (λ j q. more j (IsKey-insert j url vol have q)),
    (λ g. let (a, b) = all g in (a, ((λ q. more url (IsKey-own url vol have)), b))),
    same ∙ e,
  )
  receive-volume want url vol urls have first s t (err x, u) e q = tt
  receive-volume want url vol urls have first s t (panic, u) e q = tt

  receive-error :
      (want : Dict (Unit {0})) (url : Bytes) (x : Error) (urls : List Bytes) (have : Dict ℕ)
      (first : Option Error) (s t : Session Ip NetIp)
      (r : Outcome Error (Dict ℕ × Option Error) × Session Ip NetIp)
      → t.runner ≡ s.runner
      → ReceiveEnds want urls have (some x) t r
      → ReceiveEnds want (url ∷ urls) have first s r
  receive-error want url x urls have first s t (ok (h, f), u) e (more, all, same) =
      (more, (λ g. let (a, b) = all g in absurd (ground (arith, a))), same ∙ e)
  receive-error want url x urls have first s t (err y, u) e q = tt
  receive-error want url x urls have first s t (panic, u) e q = tt

module _ (hv : Hypervisor) (image_name : Bytes → Option Bytes)
    (marshal : StorageVolume → Option Bytes) {Ip NetIp : Type 0} where
  receive-arrived :
      (pool : ℕ) (want : Dict (Unit {0})) (url : Bytes) (urls : List Bytes) (have : Dict ℕ)
      (first : Option Error) (s : Session Ip NetIp) (r : Outcome Error ℕ × Session Ip NetIp)
      → r.1.runner ≡ s.runner
      → ((h : Dict ℕ) (f : Option Error) (t : Session Ip NetIp)
          → ReceiveEnds want urls h f t
              (receive_images hv image_name marshal pool urls want (h, f) t))
      → ReceiveEnds want (url ∷ urls) have first s (
          continue
            (receive_images hv image_name marshal pool urls want)
            (arrived hv image_name marshal url (have, first) r))
  unfolding arrived
  receive-arrived pool want url urls have first s (panic, t) e rest = tt
  receive-arrived pool want url urls have first s (ok vol, t) e rest =
      receive-volume want url vol urls have first s t _ e (rest (insert url vol have) first t)
  receive-arrived pool want url urls have none s (err x, t) e rest =
      receive-error want url x urls have none s t _ e (rest have (some x) t)
  receive-arrived pool want url urls have (some y) s (err x, t) e rest =
      receive-error want url y urls have (some y) s t _ e (rest have (some y) t)

  receive_images-Ends :
      (pool : ℕ) (want : Dict (Unit {0})) (urls : List Bytes) (have : Dict ℕ) (first : Option Error)
      (s : Session Ip NetIp)
      → ReceiveEnds want urls have first s
          (receive_images hv image_name marshal pool urls want (have, first) s)
  unfolding receive_images
  receive_images-Ends pool want [] have first s = ((λ j q. q), (λ g. (g, tt)), refl)
  receive_images-Ends pool want (url ∷ urls) have first s = elim (Option-cases (lookup url want)) [
    | inl e ↦
        rw (e, receive_images)
          (receive-skip want url urls have first s _ e
            (receive_images-Ends pool want urls have first s))
    | inr (w, e) ↦
        rw (e, receive_images)
          (receive-arrived pool want url urls have first s
            (create_volume_from_url hv image_name marshal pool url s)
            (ap {A = Session Ip NetIp} {B = Runner Ip NetIp} (λ q. q.runner)
              (create_volume_from_url-Balanced hv image_name marshal pool url s).ending)
            (receive_images-Ends pool want urls))
  ]

  module _ (ranges arrivals frees : List Bytes) where
    -- The images of the devices that the visit found, when there was no error.
    abbrev pub DownloadEnds :
        Session Ip NetIp → Outcome Error (Unit {0}) × Session Ip NetIp → Type 0
    DownloadEnds s (ok u, t) =
        (t.runner ≡ s.runner) × All (IsCovered s.runner.devices t.base_images) ranges
    DownloadEnds s (err e, t) = Unit
    DownloadEnds s (panic, t) = Unit

    kept :
        (pool : ℕ) (want : Dict (Unit {0})) (have : Dict ℕ) (s t : Session Ip NetIp)
        (r : Outcome Error (Dict ℕ × Option Error) × Session Ip NetIp)
        → t.runner ≡ s.runner
        → All (IsExpected s.runner.devices arrivals) ranges
        → All (IsSeen s.runner.devices have want) ranges
        → ReceiveEnds want arrivals have none t r
        → DownloadEnds s (
            after_any
              (tell hv (free_pool pool))
              (continue (keep_images hv image_name marshal frees) r))
    unfolding keep_images tell
    kept pool want have s t (panic, u) e named seen q = tt
    kept pool want have s t (err x, u) e named seen q = tt
    kept pool want have s t (ok (h, some x), u) e named seen q =
        let (es, g, i) = tell_all-log hv (free_images frees h) u in rw (g) tt
    kept pool want have s t (ok (h, none), u) e named seen (more, all, same) =
        (same ∙ e, covered ranges named seen)
      where
        arrived_all :
            (urls : List Bytes) (j : Bytes)
            → All (λ url. IsKey url want → IsKey url h) urls
            → In j urls
            → IsKey j want
            → IsKey j h
        arrived_all [] j a i = absurd i
        arrived_all (url ∷ urls) j (a, b) (inl e) = subst (λ i. IsKey i want → IsKey i h) (sym e) a
        arrived_all (url ∷ urls) j (a, b) (inr i) = arrived_all urls j b i

        covered :
            (ks : List Bytes)
            → All (IsExpected s.runner.devices arrivals) ks
            → All (IsSeen s.runner.devices have want) ks
            → All (IsCovered s.runner.devices h) ks
        covered [] n a = tt
        covered (k ∷ ks) (n, ns) (inl a, b) = (inl a, covered ks ns b)
        covered (k ∷ ks) (n, ns) (inr (inl a), b) =
            (inr (more (image_of k s.runner.devices) a), covered ks ns b)
        covered (k ∷ ks) (inl e, ns) (inr (inr a), b) = (inl e, covered ks ns b)
        covered (k ∷ ks) (inr n, ns) (inr (inr a), b) = (
          inr (arrived_all arrivals (image_of k s.runner.devices) (all refl).1 n a),
          covered ks ns b,
        )

    looked_up :
        (pool : ℕ) (s t : Session Ip NetIp)
        (r : Outcome Error (Dict ℕ × Dict (Unit {0})) × Session Ip NetIp)
        → t.runner ≡ s.runner
        → All (IsExpected s.runner.devices arrivals) ranges
        → LookUpEnds [] [] ranges t r
        → DownloadEnds s (
            after_any (tell hv (free_pool pool)) (
              continue
                (λ p.
                  receive_images hv image_name marshal pool arrivals p.1 (p.0, none)
                  >>= keep_images hv image_name marshal frees)
                r))
    unfolding tell
    looked_up pool s t (panic, u) e named q = tt
    looked_up pool s t (err x, u) e named q = tt
    looked_up pool s t (ok (h, w), u) e named (more, seen, same) =
        kept pool w h s u _ (same ∙ e) named (subst (λ r. All (IsSeen r.devices h w) ranges) e seen)
          (receive_images-Ends pool w arrivals h none u)

    pub download_base_images-DownloadEnds :
        (s : Session Ip NetIp)
        → All (IsExpected s.runner.devices arrivals) ranges
        → DownloadEnds s (download_base_images hv image_name marshal ranges arrivals frees s)
    unfolding download_base_images
    download_base_images-DownloadEnds s named =
        by_pool (hv.number s.log (lookup_pool s.runner.storage_pool))
      where
        by_pool :
            (a : Option ℕ)
            → DownloadEnds s (
                branch
                  (raise (no_pool s.runner.storage_pool))
                  (λ pool. finally (tell hv (free_pool pool)) (
                    look_up_images hv image_name marshal pool ranges [] [] >>= λ p.
                    receive_images hv image_name marshal pool arrivals p.1 (p.0, none)
                    >>= keep_images hv image_name marshal frees))
                  a
                  (logged hv (lookup_pool s.runner.storage_pool) s))
        by_pool none = tt
        by_pool (some pool) =
            looked_up pool s (logged hv (lookup_pool s.runner.storage_pool) s) _ refl named (
              look_up_images-Ends hv image_name marshal pool ranges [] []
                (logged hv (lookup_pool s.runner.storage_pool) s))
