-- ===== src/Libvirt/Volumes/Upload.antt =====
-- What `createVolumeFromURL` of runner/libvirt/volume.go does with the volume that it creates and the stream
-- that it opens.
pub mod Fetches
pub mod Paths
use runtopo.Prelude.{
  ℕ, ◌≡◌, refl, sym, ap, ap₂, ◌∙◌, subst, Bool, true, false, if◌then◌else◌, Bytes, Option, none,
  some, Option-cases, inl, inr, List, [], ◌∷◌, ◌++◌, append_assoc, append-nil, Outcome, ok, err,
  panic,
}
use runtopo.Prelude.Int.{ℤ}
use runtopo.Errors.{
  Error, stream_failed, upload_failed, fetch_failed, bad_url, bad_status, bad_length, create_failed,
  bad_volume,
}
use runtopo.Libvirt.Exec.{
  Exec, continue, pure, raise, after_any, after_error, ◌>>◌, ◌>>=◌, finally, on_error,
}
use runtopo.Libvirt.Hypervisor.{
  Call, create_volume, free_volume, delete_volume, new_stream, free_stream, upload, http_get,
  http_head, copy_body, attempt, abort_stream, finish_stream, Event, Log, Hypervisor, Session,
  branch, logged, tell, tell_all,
}
use runtopo.Libvirt.Hypervisor.Rollback.{acquired, acquired-append, tell_all-log}
use runtopo.Libvirt.Runner.{to_uint}
use runtopo.Libvirt.Volumes.{
  StorageVolume, new_volume, status_ok, when_ok, length_or_error, fetch_image,
  fetch_image_content_length, upload_image, fill_volume, named_volume, create_volume_from_url,
}

-- The volumes that the calls created, freed and deleted, and the streams that they opened and freed.
unfoldable pub created : Call → Option ℕ → List ℕ
created (create_volume pool xml) (some vol) = vol ∷ []
created c a = []

unfoldable pub freed : Call → List ℕ
freed (free_volume vol) = vol ∷ []
freed c = []

unfoldable pub deleted : Call → List ℕ
deleted (delete_volume vol) = vol ∷ []
deleted c = []

unfoldable pub opened : Call → Option ℕ → List ℕ
opened new_stream (some stream) = stream ∷ []
opened c a = []

unfoldable pub closed : Call → List ℕ
closed (free_stream stream) = stream ∷ []
closed c = []

unfoldable pub volumes_created : Log → List ℕ
unfolding created
volumes_created = acquired (λ e. created e.call e.answer)

unfoldable pub volumes_freed : Log → List ℕ
unfolding freed
volumes_freed = acquired (λ e. freed e.call)

unfoldable pub volumes_deleted : Log → List ℕ
unfolding deleted
volumes_deleted = acquired (λ e. deleted e.call)

unfoldable pub streams_opened : Log → List ℕ
unfolding opened
streams_opened = acquired (λ e. opened e.call e.answer)

unfoldable pub streams_freed : Log → List ℕ
unfolding closed
streams_freed = acquired (λ e. closed e.call)

-- The volumes that are left to the caller.
abbrev pub returned : Outcome Error ℕ → List ℕ
returned (ok vol) = vol ∷ []
returned (err e) = []
returned panic = []

module _ {Ip NetIp : Type 0} where
  -- With the volumes and streams that were there before, what the calls have made of them.
  pub record Balanced (vols streams : List ℕ) (s : Session Ip NetIp)
      (r : Outcome Error ℕ × Session Ip NetIp) : Type 0 where
    pub made : Log
    pub ending : r.1 ≡ record s { log = s.log ++ made }
    pub volumes : vols ++ volumes_created made ≡ volumes_freed made ++ returned r.0
    pub streams_closed : streams ++ streams_opened made ≡ streams_freed made
    pub none_deleted : volumes_deleted made ≡ []

module _ (hv : Hypervisor) {Ip NetIp : Type 0} where
  abbrev event : Call → Session Ip NetIp → Event
  event c s = record { call = c; answer = hv.number s.log c }

  -- A call before the rest: what it acquires is held, and what it frees was held.
  pub Balanced-call :
      (c : Call) (vols vols' streams streams' : List ℕ) (s : Session Ip NetIp)
      (r : Outcome Error ℕ × Session Ip NetIp)
      → vols ++ created c (hv.number s.log c) ≡ freed c ++ vols'
      → streams ++ opened c (hv.number s.log c) ≡ closed c ++ streams'
      → deleted c ≡ []
      → Balanced vols' streams' (logged hv c s) r
      → Balanced vols streams s r
  unfolding volumes_created created volumes_freed freed streams_opened opened streams_freed closed
      volumes_deleted deleted
  Balanced-call c vols vols' streams streams' s r e f g b = record {
    made = event c s ∷ b.made;
    ending = b.ending ∙ ap (λ l. record s { log = l }) (append_assoc s.log (event c s ∷ []) b.made);
    volumes =
        sym (append_assoc vols (created c (hv.number s.log c)) (volumes_created b.made))
        ∙ ap (λ x. x ++ volumes_created b.made) e
        ∙ append_assoc (freed c) vols' (volumes_created b.made)
        ∙ ap (λ x. freed c ++ x) b.volumes
        ∙ sym (append_assoc (freed c) (volumes_freed b.made) (returned r.0));
    streams_closed =
        sym (append_assoc streams (opened c (hv.number s.log c)) (streams_opened b.made))
        ∙ ap (λ x. x ++ streams_opened b.made) f
        ∙ append_assoc (closed c) streams' (streams_opened b.made)
        ∙ ap (λ x. closed c ++ x) b.streams_closed;
    none_deleted = ap (λ x. x ++ volumes_deleted b.made) g ∙ b.none_deleted;
  }

  -- A call of no interest.
  pub Balanced-skip :
      (c : Call) (vols streams : List ℕ) (s : Session Ip NetIp)
      (r : Outcome Error ℕ × Session Ip NetIp)
      → created c (hv.number s.log c) ≡ []
      → opened c (hv.number s.log c) ≡ []
      → freed c ≡ []
      → closed c ≡ []
      → deleted c ≡ []
      → Balanced vols streams (logged hv c s) r
      → Balanced vols streams s r
  Balanced-skip c vols streams s r e f g h i b =
      Balanced-call c vols vols streams streams s r
        (ap (λ x. vols ++ x) e ∙ append-nil vols ∙ ap (λ x. x ++ vols) (sym g))
        (ap (λ x. streams ++ x) f ∙ append-nil streams ∙ ap (λ x. x ++ streams) (sym h)) i b

  pub Balanced-done :
      (o : Outcome Error ℕ) (s : Session Ip NetIp) → Balanced (returned o) [] s (o, s)
  unfolding volumes_created volumes_freed streams_opened streams_freed volumes_deleted
  Balanced-done o s = record {
    made = [];
    ending = ap (λ l. record s { log = l }) (sym (append-nil s.log));
    volumes = append-nil (returned o);
    streams_closed = refl;
    none_deleted = refl;
  }
