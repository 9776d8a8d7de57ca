-- ===== src/Libvirt/Volumes/Upload/Paths.antt =====
-- The paths through `createVolumeFromURL` of runner/libvirt/volume.go.
use runtopo.Prelude.{
  ℕ, ◌≡◌, refl, ap, Bytes, Option, none, some, [], ◌∷◌, append-nil, Outcome, ok, err,
}
use runtopo.Prelude.Int.{ℤ}
use runtopo.Errors.{Error, stream_failed, upload_failed, bad_url, create_failed, bad_volume}
use runtopo.Libvirt.Exec.{
  continue, pure, raise, after_any, after_error, ◌>>◌, ◌>>=◌, finally, on_error,
}
use runtopo.Libvirt.Hypervisor.{
  create_volume, free_volume, new_stream, free_stream, upload, attempt, abort_stream, finish_stream,
  Hypervisor, Session, branch, logged, tell, tell_all,
}
use runtopo.Libvirt.Runner.{to_uint}
use runtopo.Libvirt.Volumes.{
  StorageVolume, new_volume, fetch_image, fetch_image_content_length, upload_image, fill_volume,
  named_volume, create_volume_from_url,
}
use runtopo.Libvirt.Volumes.Upload.{
  created, freed, deleted, opened, closed, returned, Balanced, Balanced-call, Balanced-skip,
  Balanced-done,
}
use runtopo.Libvirt.Volumes.Upload.Fetches.{fetch_image-Balanced, fetch_length-Balanced}

module _ (hv : Hypervisor) {Ip NetIp : Type 0} where
  module _ (vol stream : ℕ) where
    -- The deferred `stream.Free`, behind everything else.
    free_stream-Balanced :
        (o : Outcome Error ℕ) (s : Session Ip NetIp)
        → Balanced (returned o) (stream ∷ []) s (after_any (tell hv (free_stream stream)) (o, s))
    unfolding tell created opened freed closed deleted
    free_stream-Balanced o s =
        Balanced-call hv (free_stream stream) (returned o) (returned o) (stream ∷ []) [] s _
          (append-nil (returned o)) refl refl
          (Balanced-done hv o (logged hv (free_stream stream) s))

    -- The volume is given up, with or without an end of the stream.
    give_up-Balanced :
        (e : Error) (s : Session Ip NetIp)
        → Balanced (vol ∷ []) (stream ∷ []) s (
            after_any
              (tell hv (free_stream stream))
              (err e, (tell_all hv (free_volume vol ∷ abort_stream stream ∷ []) s).1))
    unfolding tell_all tell created opened freed closed deleted
    give_up-Balanced e s =
        Balanced-call hv (free_volume vol) (vol ∷ []) [] (stream ∷ []) (stream ∷ []) s _ refl refl
          refl
          (Balanced-skip hv (abort_stream stream) [] (stream ∷ []) _ _ refl refl refl refl refl
            (free_stream-Balanced (err e) _))

    finish-Balanced :
        (url : Bytes) (a : Option ℕ) (s : Session Ip NetIp)
        → Balanced (vol ∷ []) (stream ∷ []) s (
            after_any
              (tell hv (free_stream stream))
              (branch (tell hv (free_volume vol) >> raise (stream_failed url)) (λ _. pure vol) a s))
    unfolding tell created opened freed closed deleted
    finish-Balanced url none s =
        Balanced-call hv (free_volume vol) (vol ∷ []) [] (stream ∷ []) (stream ∷ []) s _ refl refl
          refl (free_stream-Balanced (err (stream_failed url)) _)
    finish-Balanced url (some n) s = free_stream-Balanced (ok vol) s

    uploaded-Balanced :
        (size : ℤ) (url : Bytes) (a : Option ℕ) (s : Session Ip NetIp)
        → Balanced (vol ∷ []) (stream ∷ []) s (
            after_any (tell hv (free_stream stream)) (
              branch
                (tell_all hv (free_volume vol ∷ abort_stream stream ∷ [])
                  >> raise (upload_failed url))
                (λ _.
                  on_error
                    (tell_all hv (free_volume vol ∷ abort_stream stream ∷ []))
                    (fetch_image hv stream url)
                  >> attempt hv
                      (finish_stream stream)
                      (tell hv (free_volume vol) >> raise (stream_failed url))
                      (λ _. pure vol))
                a
                s))
    unfolding tell_all tell created opened freed closed deleted
    uploaded-Balanced size url none s = give_up-Balanced (upload_failed url) s
    uploaded-Balanced size url (some n) s =
        fetch_image-Balanced hv (vol ∷ []) (stream ∷ []) stream url
          (λ r. after_any (tell hv (free_stream stream)) (
            continue
              (λ _.
                attempt hv (finish_stream stream)
                  (tell hv (free_volume vol) >> raise (stream_failed url)) (λ _. pure vol))
              (after_error (tell_all hv (free_volume vol ∷ abort_stream stream ∷ [])) r)))
          s (λ e t. give_up-Balanced e t)
          (λ t.
            Balanced-skip hv (finish_stream stream) (vol ∷ []) (stream ∷ []) t _ refl refl refl refl
              refl
              (finish-Balanced url (hv.number t.log (finish_stream stream))
                (logged hv (finish_stream stream) t)))

  fill_volume-Balanced :
      (vol : ℕ) (size : ℤ) (url : Bytes) (s : Session Ip NetIp)
      → Balanced (vol ∷ []) [] s (fill_volume hv vol size url s)
  unfolding fill_volume upload_image tell created opened freed closed deleted
  fill_volume-Balanced vol size url s = by_stream (hv.number s.log new_stream) refl
    where
      by_stream :
          (a : Option ℕ)
          → hv.number s.log new_stream ≡ a
          → Balanced (vol ∷ []) [] s (
              branch
                (tell hv (free_volume vol) >> raise (stream_failed url))
                (λ stream.
                  finally (tell hv (free_stream stream)) (upload_image hv vol stream size url))
                a
                (logged hv new_stream s))
      by_stream none e =
          Balanced-skip hv new_stream (vol ∷ []) [] s _ refl (ap (opened new_stream) e) refl refl
            refl
            (Balanced-call hv (free_volume vol) (vol ∷ []) [] [] [] _ _ refl refl refl
              (Balanced-done hv (err (stream_failed url)) _))
      by_stream (some stream) e =
          Balanced-call hv new_stream (vol ∷ []) (vol ∷ []) [] (stream ∷ []) s _ refl
            (ap (opened new_stream) e) refl
            (Balanced-skip hv (upload vol stream (to_uint size)) (vol ∷ []) (stream ∷ []) _ _ refl
              refl refl refl refl (uploaded-Balanced vol stream size url _ _))

module _ (hv : Hypervisor) (image_name : Bytes → Option Bytes)
    (marshal : StorageVolume → Option Bytes) {Ip NetIp : Type 0} where
  named_volume-Balanced :
      (pool : ℕ) (url : Bytes) (size : ℤ) (xml : Option Bytes) (s : Session Ip NetIp)
      → Balanced [] [] s (named_volume hv image_name marshal pool url size xml s)
  unfolding named_volume created opened freed closed deleted
  named_volume-Balanced pool url size none s = Balanced-done hv (err (bad_volume url)) s
  named_volume-Balanced pool url size (some xml) s =
      by_volume (hv.number s.log (create_volume pool xml)) refl
    where
      by_volume :
          (a : Option ℕ)
          → hv.number s.log (create_volume pool xml) ≡ a
          → Balanced [] [] s (
              branch
                (raise (create_failed url))
                (λ vol. fill_volume hv vol size url)
                a
                (logged hv (create_volume pool xml) s))
      by_volume none e =
          Balanced-skip hv (create_volume pool xml) [] [] s _
            (ap (created (create_volume pool xml)) e) refl refl refl refl
            (Balanced-done hv (err (create_failed url)) _)
      by_volume (some vol) e =
          Balanced-call hv (create_volume pool xml) [] (vol ∷ []) [] [] s _
            (ap (created (create_volume pool xml)) e) refl refl
            (fill_volume-Balanced hv vol size url _)

  -- Whatever libvirt and the server answer, `createVolumeFromURL` frees every stream that it opens, and
  -- every volume that it creates but the one that it returns; it returns a volume only if it created it and
  -- did not free it. It never deletes a volume, also not after an error. Nothing changes but the calls.
  pub create_volume_from_url-Balanced :
      (pool : ℕ) (url : Bytes) (s : Session Ip NetIp)
      → Balanced [] [] s (create_volume_from_url hv image_name marshal pool url s)
  unfolding create_volume_from_url
  create_volume_from_url-Balanced pool url s = by_name (image_name url)
    where
      by_name :
          (o : Option Bytes)
          → Balanced [] [] s (elim o [
            | none ↦ raise {A = ℕ} (bad_url url) s
            | some name ↦
                (fetch_image_content_length hv url >>= λ size.
                named_volume hv image_name marshal pool url size (marshal (new_volume name size)))
                  s
          ])
      by_name none = Balanced-done hv (err (bad_url url)) s
      by_name (some name) =
          fetch_length-Balanced hv [] [] url
            (continue (λ size.
              named_volume hv image_name marshal pool url size (marshal (new_volume name size))))
            s (λ e t. Balanced-done hv (err e) t)
            (λ size t. named_volume-Balanced pool url size (marshal (new_volume name size)) t)
