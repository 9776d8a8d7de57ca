-- ===== src/Libvirt/Volumes/Images/Cover.antt =====
-- Which images the runner has behind `downloadBaseImages` of runner/libvirt/runner.go.
use runtopo.Prelude.{
  ℕ, ◌≡◌, refl, sym, ◌∙◌, subst, Bool-cases, Bytes, str_eq, Option, none, some, Option-cases, ◌⊎◌,
  inl, inr, List, [], ◌∷◌, All, Outcome, ok, err, panic,
}
use runtopo.Prelude.Dict.{Dict, lookup, insert, lookup-insert, lookup-insert_own}
use runtopo.Errors.{Error, bad_url}
use runtopo.Topology.Device.{os_image}
use runtopo.Libvirt.Device.{HostDevice}
use runtopo.Libvirt.Exec.{raise}
use runtopo.Libvirt.Hypervisor.{lookup_volume, Hypervisor, Session, attempt, branch, logged}
use runtopo.Libvirt.Volumes.{StorageVolume}
use runtopo.Libvirt.Volumes.Images.{look_up_images}

module _ {V : Type 0} where
  abbrev pub IsKey : Bytes → Dict V → Type 0
  IsKey j m = (v : V) × (lookup j m ≡ some v)

  pub IsKey-own : (k : Bytes) (v : V) (m : Dict V) → IsKey k (insert k v m)
  IsKey-own k v m = (v, lookup-insert_own k v m)

  pub IsKey-insert : (j k : Bytes) (v : V) (m : Dict V) → IsKey j m → IsKey j (insert k v m)
  IsKey-insert j k v m (w, h) = elim (Bool-cases (str_eq k j)) [
    | inl e ↦ (v, rw (lookup-insert, e) refl)
    | inr e ↦ (w, rw (lookup-insert, e) h)
  ]

module _ {Ip NetIp : Type 0} where
  -- The image of a device of the map; the empty text where there is none.
  unfoldable pub image_of : Bytes → Dict (HostDevice Ip NetIp) → Bytes
  image_of k ds = elim (lookup k ds) [ none ↦ [] | some d ↦ os_image d.device ]

  -- Its image is there, if it has one.
  abbrev pub IsCovered : Dict (HostDevice Ip NetIp) → Dict ℕ → Bytes → Type 0
  IsCovered ds images k = (image_of k ds ≡ []) ⊎ IsKey (image_of k ds) images

  -- Its image is there or wanted.
  abbrev pub IsSeen : Dict (HostDevice Ip NetIp) → Dict ℕ → Dict (Unit {0}) → Bytes → Type 0
  IsSeen ds have want k =
      (image_of k ds ≡ []) ⊎ (IsKey (image_of k ds) have ⊎ IsKey (image_of k ds) want)

  abbrev pub LookUpEnds :
      Dict ℕ
      → Dict (Unit {0})
      → List Bytes
      → Session Ip NetIp
      → Outcome Error (Dict ℕ × Dict (Unit {0})) × Session Ip NetIp
      → Type 0
  LookUpEnds have want order s (ok (h, w), t) =
      ((j : Bytes) → IsKey j have ⊎ IsKey j want → IsKey j h ⊎ IsKey j w)
      × All (IsSeen s.runner.devices h w) order
      × (t.runner ≡ s.runner)
  LookUpEnds have want order s (err e, t) = Unit
  LookUpEnds have want order s (panic, t) = Unit

  -- One more device behind which nothing is lost.
  look_up-step :
      (have have' : Dict ℕ) (want want' : Dict (Unit {0})) (k : Bytes) (order : List Bytes)
      (s t : Session Ip NetIp) (r : Outcome Error (Dict ℕ × Dict (Unit {0})) × Session Ip NetIp)
      → t.runner ≡ s.runner
      → ((j : Bytes) → IsKey j have ⊎ IsKey j want → IsKey j have' ⊎ IsKey j want')
      → (image_of k s.runner.devices ≡ [])
        ⊎ (IsKey (image_of k s.runner.devices) have' ⊎ IsKey (image_of k s.runner.devices) want')
      → LookUpEnds have' want' order t r
      → LookUpEnds have want (k ∷ order) s r
  look_up-step have have' want want' k order s t (ok (h, w), u) e keep here (more, all, f) = (
    λ j q. more j (keep j q),
    (
      elim here [ inl n ↦ inl n | inr q ↦ inr (more (image_of k s.runner.devices) q) ],
      subst (λ r. All (IsSeen r.devices h w) order) e all,
    ),
    f ∙ e,
  )
  look_up-step have have' want want' k order s t (err x, u) e keep here q = tt
  look_up-step have have' want want' k order s t (panic, u) e keep here q = tt

  pub image_of-some :
      (k : Bytes) (d : HostDevice Ip NetIp) (ds : Dict (HostDevice Ip NetIp)) (image : Bytes)
      → lookup k ds ≡ some d
      → os_image d.device ≡ image
      → image_of k ds ≡ image
  unfolding image_of
  image_of-some k d ds image e f = rw (e, image_of) f

  image_of-none :
      (k : Bytes) (ds : Dict (HostDevice Ip NetIp)) → lookup k ds ≡ none → image_of k ds ≡ []
  unfolding image_of
  image_of-none k ds e = rw (e, image_of)

module _ (hv : Hypervisor) (image_name : Bytes → Option Bytes)
    (marshal : StorageVolume → Option Bytes) {Ip NetIp : Type 0} where
  -- A device with that image.
  look_up-image :
      (pool : ℕ) (k : Bytes) (d : HostDevice Ip NetIp) (order : List Bytes) (have : Dict ℕ)
      (want : Dict (Unit {0})) (s : Session Ip NetIp) (image : Bytes)
      → image_of k s.runner.devices ≡ image
      → ((h : Dict ℕ) (w : Dict (Unit {0})) (t : Session Ip NetIp)
          → LookUpEnds h w order t (look_up_images hv image_name marshal pool order h w t))
      → LookUpEnds have want (k ∷ order) s (elim image [
        | [] ↦ look_up_images hv image_name marshal pool order have want s
        | c ∷ cs ↦ elim (image_name (c ∷ cs)) [
          | none ↦ raise (bad_url (c ∷ cs)) s
          | some n ↦
              attempt hv
                (lookup_volume pool n)
                (look_up_images hv image_name marshal pool order have (insert (c ∷ cs) tt want))
                (λ vol.
                  look_up_images hv image_name marshal pool order (insert (c ∷ cs) vol have) want)
                s
        ]
      ])
  look_up-image pool k d order have want s [] e rest =
      look_up-step have have want want k order s s _ refl (λ j q. q) (inl e) (rest have want s)
  look_up-image pool k d order have want s (c ∷ cs) e rest = by_name (image_name (c ∷ cs))
    where
      answered_by :
          (n : Bytes) (a : Option ℕ)
          → LookUpEnds have want (k ∷ order) s (
              branch
                (look_up_images hv image_name marshal pool order have (insert (c ∷ cs) tt want))
                (λ vol.
                  look_up_images hv image_name marshal pool order (insert (c ∷ cs) vol have) want)
                a
                (logged hv (lookup_volume pool n) s))
      answered_by n none =
          look_up-step have have want (insert (c ∷ cs) tt want) k order s
            (logged hv (lookup_volume pool n) s) _ refl
            (λ j q. elim q [ inl x ↦ inl x | inr x ↦ inr (IsKey-insert j (c ∷ cs) tt want x) ])
            (inr (
              inr (
                subst (λ i. IsKey i (insert (c ∷ cs) tt want)) (sym e)
                  (IsKey-own (c ∷ cs) tt want))))
            (rest have (insert (c ∷ cs) tt want) (logged hv (lookup_volume pool n) s))
      answered_by n (some vol) =
          look_up-step have (insert (c ∷ cs) vol have) want want k order s
            (logged hv (lookup_volume pool n) s) _ refl
            (λ j q. elim q [ inl x ↦ inl (IsKey-insert j (c ∷ cs) vol have x) | inr x ↦ inr x ])
            (inr (
              inl (
                subst (λ i. IsKey i (insert (c ∷ cs) vol have)) (sym e)
                  (IsKey-own (c ∷ cs) vol have))))
            (rest (insert (c ∷ cs) vol have) want (logged hv (lookup_volume pool n) s))

      by_name :
          (name : Option Bytes)
          → LookUpEnds have want (k ∷ order) s (elim name [
            | none ↦ raise (bad_url (c ∷ cs)) s
            | some n ↦
                attempt hv
                  (lookup_volume pool n)
                  (look_up_images hv image_name marshal pool order have (insert (c ∷ cs) tt want))
                  (λ vol.
                    look_up_images hv image_name marshal pool order (insert (c ∷ cs) vol have) want)
                  s
          ])
      by_name none = tt
      by_name (some n) = answered_by n (hv.number s.log (lookup_volume pool n))

  pub look_up_images-Ends :
      (pool : ℕ) (order : List Bytes) (have : Dict ℕ) (want : Dict (Unit {0}))
      (s : Session Ip NetIp)
      → LookUpEnds have want order s (look_up_images hv image_name marshal pool order have want s)
  unfolding look_up_images
  look_up_images-Ends pool [] have want s = ((λ j q. q), tt, refl)
  look_up_images-Ends pool (k ∷ order) have want s =
      elim (Option-cases (lookup k s.runner.devices)) [
        | inl e ↦
            rw (e, look_up_images)
              (look_up-step have have want want k order s s _ refl (λ j q. q)
                (inl (image_of-none k s.runner.devices e))
                (look_up_images-Ends pool order have want s))
        | inr (d, e) ↦
            rw (e, look_up_images)
              (look_up-image pool k d order have want s (os_image d.device)
                (image_of-some k d s.runner.devices _ e refl) (look_up_images-Ends pool order))
      ]
