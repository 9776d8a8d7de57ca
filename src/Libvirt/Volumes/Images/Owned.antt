-- ===== src/Libvirt/Volumes/Images/Owned.antt =====
-- Where the volumes are that `downloadBaseImages` of runner/libvirt/runner.go creates.
use runtopo.Prelude.{
  ℕ, ◌≡◌, ◌≢◌, refl, sym, ap, ◌∙◌, Bytes, Option, none, some, Option-cases, List-cases, inl, inr,
  List, [], ◌∷◌, All, Distinct, In, Outcome, ok, err, panic,
}
use runtopo.Prelude.Dict.{Dict, lookup, insert, lookup-insert_own, lookup-insert_other}
use runtopo.Errors.{Error, no_pool}
use runtopo.Topology.Device.{os_image}
use runtopo.Libvirt.Exec.{continue, raise, after_any, finally, ◌>>=◌}
use runtopo.Libvirt.Hypervisor.{
  lookup_pool, free_pool, lookup_volume, Hypervisor, Session, branch, logged, tell,
}
use runtopo.Libvirt.Hypervisor.Quiet.{Calls-none, Calls-logged, Quiet, Quiet-attempt}
use runtopo.Libvirt.Volumes.{StorageVolume, create_volume_from_url}
use runtopo.Libvirt.Volumes.Upload.{created, returned}
use runtopo.Libvirt.Volumes.Upload.Paths.{create_volume_from_url-Balanced}
use runtopo.Libvirt.Volumes.Images.{
  look_up_images, arrived, receive_images, keep_images, download_base_images,
}
use runtopo.Libvirt.Volumes.Images.Accounts.{
  creates, Accounted, Accounted-none, Accounted-trans, Accounted-weaken, Calls-Accounted,
  Balanced-Accounted, KeptIn, free_images-Accounted,
}

module _ (hv : Hypervisor) (image_name : Bytes → Option Bytes)
    (marshal : StorageVolume → Option Bytes) {Ip NetIp : Type 0} where
  -- The lookups create nothing.
  look_up_images-Quiet :
      (pool : ℕ) (order : List Bytes) (have : Dict ℕ) (want : Dict (Unit {0}))
      → Quiet creates {Ip = Ip} {NetIp = NetIp}
          (look_up_images hv image_name marshal pool order have want)
  unfolding look_up_images created
  look_up_images-Quiet pool [] have want s = Calls-none creates s
  look_up_images-Quiet pool (k ∷ order) have want s =
      elim (Option-cases (lookup k s.runner.devices)) [
        | inl e ↦ rw (e, look_up_images) (look_up_images-Quiet pool order have want s)
        | inr (d, e) ↦ elim (List-cases (os_image d.device)) [
          | inl f ↦ rw (e, f, look_up_images) (look_up_images-Quiet pool order have want s)
          | inr (c, cs, f) ↦ elim (Option-cases (image_name (c ∷ cs))) [
            | inl g ↦ rw (e, f, g, look_up_images) (Calls-none creates s)
            | inr (name, g) ↦
                rw (e, f, g, look_up_images)
                  (Quiet-attempt creates hv (lookup_volume pool name) _ _ (λ a. refl)
                    (look_up_images-Quiet pool order have (insert (c ∷ cs) tt want))
                    (λ vol. look_up_images-Quiet pool order (insert (c ∷ cs) vol have) want) s)
          ]
        ]
      ]

  -- What is fetched is in the map for the image that it was fetched for.
  abbrev ReceivedAll :
      List Bytes
      → Dict ℕ
      → Session Ip NetIp
      → Outcome Error (Dict ℕ × Option Error) × Session Ip NetIp
      → Type 0
  ReceivedAll urls have s (ok (h, f), t) =
      Accounted (KeptIn urls h) s t
      × ((j : Bytes) → All (λ url. url ≢ j) urls → lookup j h ≡ lookup j have)
  ReceivedAll urls have s (err e, t) = ⊥
  ReceivedAll urls have s (panic, t) = Unit

  -- A further result behind calls that leave nothing over, or the volume of that image.
  received-step :
      (url : Bytes) (urls : List Bytes) (have have' : Dict ℕ) (Keeps : ℕ → Type 0)
      (s t : Session Ip NetIp) (r : Outcome Error (Dict ℕ × Option Error) × Session Ip NetIp)
      → All (λ other. other ≢ url) urls
      → Accounted Keeps s t
      → ((v : ℕ) → Keeps v → lookup url have' ≡ some v)
      → ((j : Bytes) → url ≢ j → lookup j have' ≡ lookup j have)
      → ReceivedAll urls have' t r
      → ReceivedAll (url ∷ urls) have s r
  received-step url urls have have' Keeps s t (panic, u) new a held same rest = tt
  received-step url urls have have' Keeps s t (err e, u) new a held same rest = absurd rest
  received-step url urls have have' Keeps s t (ok (h, f), u) new a held same (b, kept) = (
    Accounted-trans s t u a (Accounted-weaken t u (λ v (other, i, e). (other, inr i, e)) b)
        (λ v k. inr (url, inl refl, kept url new ∙ held v k)),
    λ j (n, ns). kept j ns ∙ same j n,
  )

  received-arrived :
      (pool : ℕ) (want : Dict (Unit {0})) (url : Bytes) (urls : List Bytes) (have : Dict ℕ)
      (first : Option Error) (s : Session Ip NetIp) (r : Outcome Error ℕ × Session Ip NetIp)
      → All (λ other. other ≢ url) urls
      → Accounted (λ v. In v (returned r.0)) s r.1
      → ((h : Dict ℕ) (f : Option Error) (t : Session Ip NetIp)
          → ReceivedAll urls h t (receive_images hv image_name marshal pool urls want (h, f) t))
      → ReceivedAll (url ∷ urls) have s (
          continue
            (receive_images hv image_name marshal pool urls want)
            (arrived hv image_name marshal url (have, first) r))
  unfolding arrived
  received-arrived pool want url urls have first s (panic, t) new a rest = tt
  received-arrived pool want url urls have first s (ok vol, t) new a rest =
      received-step url urls have (insert url vol have) (λ v. In v (vol ∷ [])) s t _ new a
        (λ v i. elim i [
          | inl e ↦ lookup-insert_own url vol have ∙ ap some (sym e)
          | inr j ↦ absurd j
        ])
        (λ j n. lookup-insert_other url j vol have (λ e. n (sym e)))
        (rest (insert url vol have) first t)
  received-arrived pool want url urls have none s (err x, t) new a rest =
      received-step url urls have have (λ v. ⊥) s t _ new a (λ v i. absurd i) (λ j n. refl)
        (rest have (some x) t)
  received-arrived pool want url urls have (some y) s (err x, t) new a rest =
      received-step url urls have have (λ v. ⊥) s t _ new a (λ v i. absurd i) (λ j n. refl)
        (rest have (some y) t)

  receive_images-ReceivedAll :
      (pool : ℕ) (want : Dict (Unit {0})) (urls : List Bytes) (have : Dict ℕ) (first : Option Error)
      (s : Session Ip NetIp)
      → Distinct urls
      → ReceivedAll urls have s
          (receive_images hv image_name marshal pool urls want (have, first) s)
  unfolding receive_images
  receive_images-ReceivedAll pool want [] have first s d = (Accounted-none s, λ j n. refl)
  receive_images-ReceivedAll pool want (url ∷ urls) have first s (new, d) =
      elim (Option-cases (lookup url want)) [
        | inl e ↦
            rw (e, receive_images)
              (received-step url urls have have (λ v. ⊥) s s _ new (Accounted-none s)
                (λ v i. absurd i) (λ j n. refl)
                (receive_images-ReceivedAll pool want urls have first s d))
        | inr (w, e) ↦
            rw (e, receive_images)
              (received-arrived pool want url urls have first s
                (create_volume_from_url hv image_name marshal pool url s) new
                (Balanced-Accounted s (create_volume_from_url hv image_name marshal pool url s)
                  (create_volume_from_url-Balanced hv image_name marshal pool url s))
                (λ h f t. receive_images-ReceivedAll pool want urls h f t d))
      ]

  -- Each volume that the calls created has been freed, or the runner has it for an image.
  abbrev pub NoneLost : Session Ip NetIp → Outcome Error (Unit {0}) × Session Ip NetIp → Type 0
  NoneLost s (ok u, t) = Accounted (λ v. (url : Bytes) × (lookup url t.base_images ≡ some v)) s t
  NoneLost s (err e, t) = Accounted (λ v. ⊥) s t
  NoneLost s (panic, t) = Unit

  NoneLost-after :
      (s t : Session Ip NetIp) (r : Outcome Error (Unit {0}) × Session Ip NetIp)
      → Accounted (λ v. ⊥) s t
      → NoneLost t r
      → NoneLost s r
  NoneLost-after s t (panic, u) a b = tt
  NoneLost-after s t (err e, u) a b = Accounted-trans s t u a b (λ v k. absurd k)
  NoneLost-after s t (ok x, u) a b = Accounted-trans s t u a b (λ v k. absurd k)

  free_pool-Accounted :
      {Keeps : ℕ → Type 0} (pool : ℕ) (t : Session Ip NetIp)
      → Accounted Keeps t (logged hv (free_pool pool) t)
  unfolding created
  free_pool-Accounted pool t =
      Calls-Accounted t (logged hv (free_pool pool) t)
        (Calls-logged creates hv (free_pool pool) [] t refl)

  module _ (pool : ℕ) (arrivals frees : List Bytes)
      (visited : (url : Bytes) → In url arrivals → In url frees) where
    keep-NoneLost :
        (have : Dict ℕ) (s : Session Ip NetIp)
        (r : Outcome Error (Dict ℕ × Option Error) × Session Ip NetIp)
        → ReceivedAll arrivals have s r
        → NoneLost s (
            after_any
              (tell hv (free_pool pool))
              (continue (keep_images hv image_name marshal frees) r))
    unfolding keep_images tell
    keep-NoneLost have s (panic, t) q = tt
    keep-NoneLost have s (err e, t) q = absurd q
    keep-NoneLost have s (ok (h, none), t) (a, kept) =
        Accounted-trans s (record t { base_images = h })
          (logged hv (free_pool pool) (record t { base_images = h }))
          (record { made = a.made; ending = a.ending; each = a.each })
          (free_pool-Accounted pool (record t { base_images = h })) (λ v (url, i, e). inr (url, e))
    keep-NoneLost have s (ok (h, some e), t) (a, kept) =
        let (u, told, b, all_freed) = free_images-Accounted hv frees h t in
        rw (told) (
          Accounted-trans s u (logged hv (free_pool pool) u)
            (Accounted-trans s t u a b (λ v (url, i, e). inl (all_freed v (url, visited url i, e))))
            (free_pool-Accounted pool u) (λ v k. absurd k))

    looked-NoneLost :
        (s : Session Ip NetIp) (r : Outcome Error (Dict ℕ × Dict (Unit {0})) × Session Ip NetIp)
        → Distinct arrivals
        → Accounted (λ v. ⊥) s r.1
        → NoneLost s (
            after_any (tell hv (free_pool pool)) (
              continue
                (λ p.
                  receive_images hv image_name marshal pool arrivals p.1 (p.0, none)
                  >>= keep_images hv image_name marshal frees)
                r))
    unfolding tell
    looked-NoneLost s (panic, t) d a = tt
    looked-NoneLost s (err e, t) d a =
        Accounted-trans s t (logged hv (free_pool pool) t) a (free_pool-Accounted pool t)
          (λ v k. absurd k)
    looked-NoneLost s (ok (h, w), t) d a =
        NoneLost-after s t _ a
          (keep-NoneLost h t _ (receive_images-ReceivedAll pool w arrivals h none t d))

  -- No volume that downloadBaseImages creates is lost, where it returns: without an error, each of them has
  -- been freed or is the runner's, for an image; with an error, each has been freed. The image of each result
  -- is visited by the range that frees them, and no two results are for one image.
  pub download_base_images-NoneLost :
      (ranges arrivals frees : List Bytes) (s : Session Ip NetIp)
      → Distinct arrivals
      → ((url : Bytes) → In url arrivals → In url frees)
      → NoneLost s (download_base_images hv image_name marshal ranges arrivals frees s)
  unfolding download_base_images created
  download_base_images-NoneLost ranges arrivals frees s d visited =
      by_pool (hv.number s.log (lookup_pool s.runner.storage_pool))
    where
      found : Session Ip NetIp
      found = logged hv (lookup_pool s.runner.storage_pool) s

      looked : Accounted (λ v. ⊥) s found
      looked =
          Calls-Accounted s found
            (Calls-logged creates hv (lookup_pool s.runner.storage_pool) [] s refl)

      by_pool :
          (a : Option ℕ)
          → NoneLost s (
              branch
                (raise (no_pool s.runner.storage_pool))
                (λ pool. finally (tell hv (free_pool pool)) (
                  look_up_images hv image_name marshal pool ranges [] [] >>= λ p.
                  receive_images hv image_name marshal pool arrivals p.1 (p.0, none)
                  >>= keep_images hv image_name marshal frees))
                a
                found)
      by_pool none = looked
      by_pool (some pool) = NoneLost-after s found _ looked (
          looked-NoneLost pool arrivals frees visited found
            (look_up_images hv image_name marshal pool ranges [] [] found) d
            (Calls-Accounted found _ (look_up_images-Quiet pool ranges [] [] found)))
