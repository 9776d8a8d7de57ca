-- ===== src/Libvirt/Volumes/Disks/Calm.antt =====
-- `downloadBaseImages` and then `createVolumes` of runner/libvirt/runner.go.
use runtopo.Prelude.{
  ℕ, ◌≡◌, ◌≢◌, refl, sym, subst, Bytes, Option, none, some, Option-cases, ◌⊎◌, inl, inr, List, [],
  ◌∷◌, ◌++◌, All, All-In, All-at, In, Outcome, ok, err, panic,
}
use runtopo.Prelude.Dict.{lookup, insert}
use runtopo.Errors.{Error, no_pool}
use runtopo.Topology.Device.{os_image}
use runtopo.Libvirt.Device.{HostDevice}
use runtopo.Libvirt.Exec.{Exec, raise}
use runtopo.Libvirt.Hypervisor.{lookup_pool, free_pool, Hypervisor, Session, branch, logged}
use runtopo.Libvirt.Hypervisor.Rollback.{tell_all-log}
use runtopo.Libvirt.Hypervisor.Quiet.{Calls}
use runtopo.Libvirt.Volumes.{StorageVolume}
use runtopo.Libvirt.Volumes.Images.{download_base_images}
use runtopo.Libvirt.Volumes.Images.Cover.{IsKey, image_of, image_of-some, IsCovered}
use runtopo.Libvirt.Volumes.Images.Received.{
  IsExpected, DownloadEnds, download_base_images-DownloadEnds,
}
use runtopo.Libvirt.Volumes.Disks.{
  create_one, mark_pool, settle, free_created, undo_created, create_each, create_volumes,
}
use runtopo.Libvirt.Volumes.Disks.Round.{created_by, new_volumes, create_one-Calls}
use runtopo.Libvirt.Volumes.Disks.Ready.{IsCalm, IsCovered-insert, create_one-IsCalm}

module _ (hv : Hypervisor) (marshal : StorageVolume → Option Bytes) {Ip NetIp : Type 0} where
  settle-IsCalm :
      (pool : ℕ) (created : List ℕ) (next : ℕ → Exec (Session Ip NetIp) (Unit {0}))
      (s : Session Ip NetIp) (r : Outcome Error ℕ × Session Ip NetIp)
      → IsCalm r
      → Calls created_by (new_volumes r.0) s r.1
      → ((vol : ℕ) (t : Session Ip NetIp) → Calls created_by (vol ∷ []) s t → IsCalm (next vol t))
      → IsCalm (settle hv marshal pool created next r)
  unfolding settle new_volumes
  settle-IsCalm pool created next s (panic, t) c calls rest = absurd c
  settle-IsCalm pool created next s (ok vol, t) c calls rest = rest vol t calls
  settle-IsCalm pool created next s (err e, t) c calls rest =
      let (es, f, g) = tell_all-log hv (free_pool pool ∷ undo_created created) t in rw (f) tt

  create_each-IsCalm :
      (pool : ℕ) (order : List Bytes) (created : List ℕ) (s : Session Ip NetIp)
      → All (IsCovered s.runner.devices s.base_images) order
      → IsCalm (create_each hv marshal pool order created s)
  unfolding create_each mark_pool
  create_each-IsCalm pool [] created s h =
      let (es, f, g) = tell_all-log hv (free_pool pool ∷ free_created created) s in rw (f) tt
  create_each-IsCalm pool (k ∷ order) created s (here, h) =
      elim (Option-cases (lookup k s.runner.devices)) [
        | inl e ↦ rw (e, create_each) (create_each-IsCalm pool order created s h)
        | inr (d, e) ↦
            rw (e, create_each)
              (settle-IsCalm pool created _ s (create_one hv marshal pool d s)
                (create_one-IsCalm hv marshal pool d s
                  (subst (λ i. (i ≡ []) ⊎ IsKey i s.base_images) (image_there d e) here))
                (create_one-Calls hv marshal pool d s)
                (λ vol t c.
                  create_each-IsCalm pool order (created ++ vol ∷ []) (mark_pool hv marshal k d t)
                    (still_covered d e t c order h)))
      ]
    where
      image_there :
          (d : HostDevice Ip NetIp)
          → lookup k s.runner.devices ≡ some d
          → image_of k s.runner.devices ≡ os_image d.device
      image_there d e = image_of-some k d s.runner.devices (os_image d.device) e refl

      still_covered :
          {vol : ℕ} (d : HostDevice Ip NetIp)
          → lookup k s.runner.devices ≡ some d
          → (t : Session Ip NetIp) → Calls created_by (vol ∷ []) s t
          → (ks : List Bytes) → All (IsCovered s.runner.devices s.base_images) ks
          → All
              (IsCovered
                (insert k (record d { pool = t.runner.storage_pool }) t.runner.devices)
                t.base_images)
              ks
      still_covered d e t c [] h = tt
      still_covered d e t c (j ∷ ks) (x, h) = (
        subst
            (λ q.
              IsCovered (insert k (record d { pool = q.runner.storage_pool }) q.runner.devices)
                q.base_images j)
            (sym c.ending)
            (IsCovered-insert k j d (record d { pool = s.runner.storage_pool }) s.runner.devices
              s.base_images e refl x),
        still_covered d e t c ks h,
      )

  -- When `downloadBaseImages` has returned no error, and the results of all images that the devices want
  -- have arrived, `createVolumes` does not panic, in whatever order it visits devices that
  -- `downloadBaseImages` has visited: no base image is missing.
  pub create_volumes-no_panic :
      (image_name : Bytes → Option Bytes) (ranges arrivals frees order : List Bytes)
      (s t : Session Ip NetIp)
      → All (IsExpected s.runner.devices arrivals) ranges
      → ((k : Bytes) → In k order → In k ranges)
      → download_base_images hv image_name marshal ranges arrivals frees s ≡ (ok tt, t)
      → (create_volumes hv marshal order t).0 ≢ panic
  unfolding create_volumes
  create_volumes-no_panic image_name ranges arrivals frees order s t named visited e =
      let (same, covered) =
        subst (DownloadEnds hv image_name marshal ranges arrivals frees s) e
          (download_base_images-DownloadEnds hv image_name marshal ranges arrivals frees s named) in
      not_panic _ (
        by_pool
          (All-In order (λ k i.
            All-at (IsCovered t.runner.devices t.base_images) k ranges
              (subst (λ r. All (IsCovered r.devices t.base_images) ranges) (sym same) covered)
              (visited k i)))
          (hv.number t.log (lookup_pool t.runner.storage_pool)))
    where
      not_panic : (r : Outcome Error (Unit {0}) × Session Ip NetIp) → IsCalm r → r.0 ≢ panic
      not_panic (panic, u) c = absurd c
      not_panic (err x, u) c = λ f. cc
      not_panic (ok x, u) c = λ f. cc

      by_pool :
          All (IsCovered t.runner.devices t.base_images) order
          → (a : Option ℕ)
          → IsCalm (
              branch
                (raise (no_pool t.runner.storage_pool))
                (λ pool. create_each hv marshal pool order [])
                a
                (logged hv (lookup_pool t.runner.storage_pool) t))
      by_pool covered none = tt
      by_pool covered (some pool) = create_each-IsCalm pool order [] _ covered
