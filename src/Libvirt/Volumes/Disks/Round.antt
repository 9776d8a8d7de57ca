-- ===== src/Libvirt/Volumes/Disks/Round.antt =====
-- The calls of one round of `createVolumes` of runner/libvirt/runner.go.
use runtopo.Prelude.{
  ℕ, ◌≡◌, refl, ap, Bytes, Option, none, some, List, [], ◌∷◌, Outcome, ok, err, panic,
}
use runtopo.Prelude.Dict.{lookup}
use runtopo.Errors.{Error, create_failed}
use runtopo.Topology.Device.{os_image}
use runtopo.Libvirt.Device.{HostDevice}
use runtopo.Libvirt.Exec.{Exec, continue, pure, raise}
use runtopo.Libvirt.Hypervisor.{
  Call, create_volume, volume_info, volume_path, Event, Hypervisor, Session, branch, logged,
}
use runtopo.Libvirt.Hypervisor.Quiet.{
  Calls, Calls-none, Calls-trans, Calls-logged, Quiet, Quiet->>=, Quiet-attempt,
}
use runtopo.Libvirt.Volumes.{StorageVolume, new_backing_store_from_vol}
use runtopo.Libvirt.Volumes.Disks.{backed_volume, volume_with, volume_of, marshalled, create_one}

-- The volume that a call has created.
creation : Call → Option ℕ → List ℕ
creation (create_volume pool xml) (some vol) = vol ∷ []
creation c a = []

abbrev pub created_by : Event → List ℕ
unfolding creation
created_by e = creation e.call e.answer

-- The new volume of a round.
unfoldable pub new_volumes : Outcome Error ℕ → List ℕ
new_volumes (ok vol) = vol ∷ []
new_volumes (err e) = []
new_volumes panic = []

module _ (hv : Hypervisor) (marshal : StorageVolume → Option Bytes) {Ip NetIp : Type 0} where
  new_backing_store-Quiet :
      (vol : ℕ) → Quiet created_by {Ip = Ip} {NetIp = NetIp} (new_backing_store_from_vol hv vol)
  unfolding new_backing_store_from_vol creation
  new_backing_store-Quiet vol s =
      Quiet-attempt created_by hv (volume_path vol) _ _ (λ a. refl) (Calls-none created_by)
        (λ n. Calls-none created_by) s

  backed_volume-Quiet :
      (d : HostDevice Ip NetIp) (base : Option ℕ)
      → Quiet created_by (backed_volume hv marshal d base)
  unfolding backed_volume creation
  backed_volume-Quiet d none = Calls-none created_by
  backed_volume-Quiet d (some base) =
      Quiet-attempt created_by hv (volume_info base) _ _ (λ a. refl) (Calls-none created_by)
        (λ size.
          Quiet->>= created_by _ _ (new_backing_store-Quiet base)
            (λ backing. Calls-none created_by))

  volume_with-Quiet :
      (d : HostDevice Ip NetIp) (image : Bytes) → Quiet created_by (volume_with hv marshal d image)
  unfolding volume_with
  volume_with-Quiet d [] s = Calls-none created_by s
  volume_with-Quiet d (c ∷ cs) s = backed_volume-Quiet d (lookup (c ∷ cs) s.base_images) s

  marshalled-Calls :
      (pool : ℕ) (name : Bytes) (xml : Option Bytes) (s : Session Ip NetIp)
      → Calls created_by
          (new_volumes (marshalled hv marshal pool name xml s).0)
          s
          (marshalled hv marshal pool name xml s).1
  unfolding marshalled new_volumes creation
  marshalled-Calls pool name none s = Calls-none created_by s
  marshalled-Calls pool name (some xml) s =
      by_answer (hv.number s.log (create_volume pool xml)) refl
    where
      by_answer :
          (a : Option ℕ)
          → hv.number s.log (create_volume pool xml) ≡ a
          → Calls created_by
              (new_volumes
                (branch
                  (raise (create_failed name))
                  pure
                  a
                  (logged hv (create_volume pool xml) s)).0)
              s
              (branch {B = Exec (Session Ip NetIp) ℕ}
                (raise (create_failed name))
                pure
                a
                (logged hv (create_volume pool xml) s)).1
      by_answer none e =
          Calls-logged created_by hv (create_volume pool xml) [] s
            (ap (creation (create_volume pool xml)) e)
      by_answer (some vol) e =
          Calls-logged created_by hv (create_volume pool xml) (vol ∷ []) s
            (ap (creation (create_volume pool xml)) e)

  pub create_one-Calls :
      (pool : ℕ) (d : HostDevice Ip NetIp) (s : Session Ip NetIp)
      → Calls created_by
          (new_volumes (create_one hv marshal pool d s).0)
          s
          (create_one hv marshal pool d s).1
  unfolding create_one volume_of new_volumes
  create_one-Calls pool d s =
      by_outcome (volume_of hv marshal d s) (volume_with-Quiet d (os_image d.device) s)
    where
      by_outcome :
          (r : Outcome Error StorageVolume × Session Ip NetIp)
          → Calls created_by [] s r.1
          → Calls created_by
              (new_volumes (continue (λ v. marshalled hv marshal pool d.name (marshal v)) r).0)
              s
              (continue (λ v. marshalled hv marshal pool d.name (marshal v)) r).1
      by_outcome (panic, t) c = c
      by_outcome (err e, t) c = c
      by_outcome (ok v, t) c =
          Calls-trans created_by [] _ s t _ c (marshalled-Calls pool d.name (marshal v) t)
