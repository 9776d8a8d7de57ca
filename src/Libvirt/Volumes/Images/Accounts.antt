-- ===== src/Libvirt/Volumes/Images/Accounts.antt =====
-- Where the volumes are that calls of runner/libvirt have created: freed, or still held by someone.
use runtopo.Prelude.{
  ℕ, ◌≡◌, refl, sym, ap, ◌∙◌, subst, Bytes, Option, none, some, Option-cases, ◌⊎◌, inl, inr, List,
  [], ◌∷◌, ◌++◌, append_assoc, append-nil, All, All-append, All-weaken, All-In, In, In-append,
  In-append_left, In-append_right, Outcome, ok, map,
}
use runtopo.Prelude.Dict.{Dict, lookup}
use runtopo.Errors.{Error}
use runtopo.Libvirt.Hypervisor.{free_volume, Event, Log, Hypervisor, Session, calls_of, tell_all}
use runtopo.Libvirt.Hypervisor.Rollback.{acquired-append, tell_all-log}
use runtopo.Libvirt.Hypervisor.Quiet.{Calls}
use runtopo.Libvirt.Volumes.Upload.{
  created, freed, volumes_created, volumes_freed, returned, Balanced,
}
use runtopo.Libvirt.Volumes.Images.{free_images}

abbrev pub creates : Event → List ℕ
creates e = created e.call e.answer

module _ {Ip NetIp : Type 0} where
  -- Calls were made, and each volume that they created was freed by them or satisfies `Keeps`.
  pub record Accounted (Keeps : ℕ → Type 0) (s t : Session Ip NetIp) : Type 0 where
    pub made : Log
    pub ending : t.log ≡ s.log ++ made
    pub each : All (λ v. In v (volumes_freed made) ⊎ Keeps v) (volumes_created made)

  pub Accounted-none : {Keeps : ℕ → Type 0} (s : Session Ip NetIp) → Accounted Keeps s s
  unfolding volumes_created
  Accounted-none s = record { made = []; ending = sym (append-nil s.log); each = tt }

  pub Accounted-weaken :
      {Keeps Keeps' : ℕ → Type 0} (s t : Session Ip NetIp)
      → ((v : ℕ) → Keeps v → Keeps' v)
      → Accounted Keeps s t
      → Accounted Keeps' s t
  Accounted-weaken s t wider a = record {
    made = a.made;
    ending = a.ending;
    each =
        All-weaken (volumes_created a.made)
          (λ v q. elim q [ inl i ↦ inl i | inr k ↦ inr (wider v k) ]) a.each;
  }

  -- Behind the first calls, the second ones free what was kept, or it is still kept.
  pub Accounted-trans :
      {Keeps Keeps' : ℕ → Type 0} (s t u : Session Ip NetIp) (a : Accounted Keeps s t)
      (b : Accounted Keeps' t u)
      → ((v : ℕ) → Keeps v → In v (volumes_freed b.made) ⊎ Keeps' v)
      → Accounted Keeps' s u
  unfolding volumes_created volumes_freed
  Accounted-trans {Keeps' = Keeps'} s t u a b passed = record {
    made = a.made ++ b.made;
    ending = b.ending ∙ ap (λ l. l ++ b.made) a.ending ∙ append_assoc s.log a.made b.made;
    each =
        subst (λ fs. All (λ v. In v fs ⊎ Keeps' v) (volumes_created (a.made ++ b.made)))
          (sym (acquired-append (λ e. freed e.call) a.made b.made))
          (subst (All (λ v. In v (volumes_freed a.made ++ volumes_freed b.made) ⊎ Keeps' v))
            (sym (acquired-append creates a.made b.made))
            (All-append _ (volumes_created a.made) (volumes_created b.made)
              (All-weaken (volumes_created a.made)
                (λ v q. elim q [
                  | inl i ↦ inl (In-append_left v (volumes_freed a.made) (volumes_freed b.made) i)
                  | inr k ↦ late v (passed v k)
                ])
                a.each)
              (All-weaken (volumes_created b.made) late b.each)));
  }
    where
      late :
          (v : ℕ)
          → In v (volumes_freed b.made) ⊎ Keeps' v
          → In v (volumes_freed a.made ++ volumes_freed b.made) ⊎ Keeps' v
      late v (inl i) = inl (In-append_right v (volumes_freed a.made) (volumes_freed b.made) i)
      late v (inr k) = inr k

  -- Calls that create nothing.
  pub Calls-Accounted :
      {Keeps : ℕ → Type 0} (s t : Session Ip NetIp) → Calls creates [] s t → Accounted Keeps s t
  unfolding volumes_created
  Calls-Accounted s t c = record {
    made = c.made;
    ending = ap {A = Session Ip NetIp} (λ r. r.log) c.ending;
    each = subst (All _) (sym c.gained) tt;
  }

  pub Balanced-Accounted :
      (s : Session Ip NetIp) (r : Outcome Error ℕ × Session Ip NetIp)
      → Balanced [] [] s r
      → Accounted (λ v. In v (returned r.0)) s r.1
  Balanced-Accounted s r b = record {
    made = b.made;
    ending = ap {A = Session Ip NetIp} (λ q. q.log) b.ending;
    each =
        All-In (volumes_created b.made)
          (λ v i. In-append v (volumes_freed b.made) (returned r.0) (subst (In v) b.volumes i));
  }

-- The volumes of a map of images, as they are freed.
abbrev with_volume : Option ℕ → List ℕ → List ℕ
with_volume none vols = vols
with_volume (some vol) vols = vol ∷ vols

abbrev volumes_of : List Bytes → Dict ℕ → List ℕ
volumes_of [] images = []
volumes_of (url ∷ urls) images = with_volume (lookup url images) (volumes_of urls images)

free_images-map :
    (urls : List Bytes) (images : Dict ℕ)
    → free_images urls images ≡ map free_volume (volumes_of urls images)
unfolding free_images
free_images-map [] images = refl
free_images-map (url ∷ urls) images = elim (Option-cases (lookup url images)) [
  | inl e ↦ rw (e, free_images) (free_images-map urls images)
  | inr (vol, e) ↦
      rw (e, free_images) (ap (λ cs. free_volume vol ∷ cs) (free_images-map urls images))
]

volumes_of-In :
    (urls : List Bytes) (images : Dict ℕ) (url : Bytes) (v : ℕ)
    → In url urls
    → lookup url images ≡ some v
    → In v (volumes_of urls images)
volumes_of-In [] images url v i e = absurd i
volumes_of-In (u ∷ urls) images url v (inl f) e =
    subst (λ o. In v (with_volume o (volumes_of urls images)))
      (sym (ap (λ x. lookup x images) (sym f) ∙ e)) (inl refl)
volumes_of-In (u ∷ urls) images url v (inr i) e =
    behind (lookup u images) (volumes_of urls images) (volumes_of-In urls images url v i e)
  where
    behind : (o : Option ℕ) (vols : List ℕ) → In v vols → In v (with_volume o vols)
    behind none vols i = i
    behind (some vol) vols i = inr i

-- Calls that free volumes.
freeing :
    (es : Log) (vols : List ℕ)
    → calls_of es ≡ map free_volume vols
    → (volumes_freed es ≡ vols) × (volumes_created es ≡ [])
unfolding volumes_freed volumes_created freed created
freeing [] [] h = (refl, refl)
freeing [] (v ∷ vols) h = absurd (cc)
freeing (e ∷ es) [] h = absurd (cc)
freeing (e ∷ es) (v ∷ vols) h =
    let first : e.call ≡ free_volume v = cc in
    let (f, g) = freeing es vols cc in (rw (first, f) refl, rw (first, g) refl)

-- The map has the volume, for an image of the list.
abbrev pub KeptIn : List Bytes → Dict ℕ → ℕ → Type 0
KeptIn urls images v = (url : Bytes) × In url urls × (lookup url images ≡ some v)

module _ (hv : Hypervisor) {Ip NetIp : Type 0} where
  -- The frees of a map of images free what it has, for the images that are visited.
  pub free_images-Accounted :
      (urls : List Bytes) (images : Dict ℕ) (s : Session Ip NetIp)
      → (t : Session Ip NetIp) × (tell_all hv (free_images urls images) s ≡ (ok tt, t))
        × (a : Accounted (λ v. ⊥) s t) × ((v : ℕ)
            → KeptIn urls images v
            → In v (volumes_freed a.made))
  free_images-Accounted urls images s =
      let (es, told, calls) = tell_all-log hv (free_images urls images) s in
      let (frees, none_made) =
        freeing es (volumes_of urls images) (calls ∙ free_images-map urls images) in
      (
        record s { log = s.log ++ es },
        told,
        record { made = es; ending = refl; each = subst (All _) (sym none_made) tt },
        λ v (url, i, e). subst (In v) (sym frees) (volumes_of-In urls images url v i e),
      )
