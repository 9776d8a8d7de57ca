-- ===== src/Libvirt/Volumes/Upload/Fetches.antt =====
-- The two requests of `createVolumeFromURL`: `fetchImageContentLength` and `fetchImage` of
-- runner/libvirt/helper.go.
use runtopo.Prelude.{
  ℕ, refl, Bool, true, false, if◌then◌else◌, Bytes, Option, none, some, List, Outcome, ok, err,
}
use runtopo.Prelude.Int.{ℤ}
use runtopo.Strconv.{atoi}
use runtopo.Errors.{Error, fetch_failed, bad_status, bad_length}
use runtopo.Libvirt.Exec.{Exec, continue, pure, raise}
use runtopo.Libvirt.Hypervisor.{
  http_get, http_head, copy_body, attempt, Hypervisor, Session, branch, logged,
}
use runtopo.Libvirt.Volumes.{
  status_ok, when_ok, length_or_error, fetch_image, fetch_image_content_length,
}
use runtopo.Libvirt.Volumes.Upload.{
  created, freed, deleted, opened, closed, Balanced, Balanced-skip,
}

module _ (hv : Hypervisor) {Ip NetIp : Type 0} where
  -- A request, whatever follows on an error and on success.
  pub fetch_image-Balanced :
      (vols streams : List ℕ) (stream : ℕ) (url : Bytes)
      (k : Outcome Error (Unit {0}) × Session Ip NetIp → Outcome Error ℕ × Session Ip NetIp)
      (s : Session Ip NetIp)
      → ((e : Error) (t : Session Ip NetIp) → Balanced vols streams t (k (err e, t)))
      → ((t : Session Ip NetIp) → Balanced vols streams t (k (ok tt, t)))
      → Balanced vols streams s (k (fetch_image hv stream url s))
  unfolding fetch_image when_ok created opened freed closed deleted
  fetch_image-Balanced vols streams stream url k s bad good =
      Balanced-skip hv (http_get url) vols streams s _ refl refl refl refl refl
        (by_status (hv.number s.log (http_get url)) (logged hv (http_get url) s))
    where
      by_copy :
          (a : Option ℕ) (t : Session Ip NetIp)
          → Balanced vols streams t (
              k (
                branch {B = Exec (Session Ip NetIp) (Unit {0})}
                  (raise (fetch_failed url))
                  (λ _. pure tt)
                  a
                  t))
      by_copy none t = bad _ t
      by_copy (some n) t = good t

      by_code :
          (b : Bool) (code : ℕ) (t : Session Ip NetIp)
          → Balanced vols streams t (
              k (
                (if b
                    then attempt hv (copy_body url stream) (raise (fetch_failed url)) (λ _. pure tt)
                    else raise (bad_status url))
                  t))
      by_code false code t = bad _ t
      by_code true code t =
          Balanced-skip hv (copy_body url stream) vols streams t _ refl refl refl refl refl
            (by_copy (hv.number t.log (copy_body url stream)) (logged hv (copy_body url stream) t))

      by_status :
          (a : Option ℕ) (t : Session Ip NetIp)
          → Balanced vols streams t (
              k (
                continue
                  (λ code.
                    if status_ok code
                    then attempt hv (copy_body url stream) (raise (fetch_failed url)) (λ _. pure tt)
                    else raise (bad_status url))
                  (branch {B = Exec (Session Ip NetIp) ℕ} (raise (fetch_failed url)) pure a t)))
      by_status none t = bad _ t
      by_status (some code) t = by_code (status_ok code) code t

  pub fetch_length-Balanced :
      (vols streams : List ℕ) (url : Bytes)
      (k : Outcome Error ℤ × Session Ip NetIp → Outcome Error ℕ × Session Ip NetIp)
      (s : Session Ip NetIp)
      → ((e : Error) (t : Session Ip NetIp) → Balanced vols streams t (k (err e, t)))
      → ((n : ℤ) (t : Session Ip NetIp) → Balanced vols streams t (k (ok n, t)))
      → Balanced vols streams s (k (fetch_image_content_length hv url s))
  unfolding fetch_image_content_length when_ok length_or_error created opened freed closed deleted
  fetch_length-Balanced vols streams url k s bad good =
      Balanced-skip hv (http_head url) vols streams s _ refl refl refl refl refl (
        by_status (hv.number s.log (http_head url)) (atoi (hv.text s.log (http_head url)))
          (logged hv (http_head url) s))
    where
      by_length :
          (n : Option ℤ) (t : Session Ip NetIp)
          → Balanced vols streams t (k (length_or_error hv url n t))
      by_length none t = bad (bad_length url) t
      by_length (some n) t = good n t

      by_code :
          (b : Bool) (n : Option ℤ) (t : Session Ip NetIp)
          → Balanced vols streams t
              (k ((if b then length_or_error hv url n else raise (bad_status url)) t))
      by_code false n t = bad (bad_status url) t
      by_code true n t = by_length n t

      by_status :
          (a : Option ℕ) (n : Option ℤ) (t : Session Ip NetIp)
          → Balanced vols streams t (
              k (
                continue
                  (λ code.
                    if status_ok code then length_or_error hv url n else raise (bad_status url))
                  (branch {B = Exec (Session Ip NetIp) ℕ} (raise (fetch_failed url)) pure a t)))
      by_status none n t = bad (fetch_failed url) t
      by_status (some code) n t = by_code (status_ok code) n t
