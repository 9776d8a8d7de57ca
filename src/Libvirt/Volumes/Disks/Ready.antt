-- ===== src/Libvirt/Volumes/Disks/Ready.antt =====
-- One round of `createVolumes` of runner/libvirt/runner.go, for a device whose image is there.
use runtopo.Prelude.{
  ℕ, ◌≡◌, sym, subst, Bytes, codes, str_eq_iff, Option, none, some, ◌⊎◌, inl, inr, [], ◌∷◌, Outcome,
  ok, err, panic, arith,
}
use runtopo.Prelude.Dict.{Dict, lookup, insert, lookup-insert}
use runtopo.Errors.{Error, no_info, no_path, create_failed}
use runtopo.Topology.Device.{os_image, disk_size}
use runtopo.Libvirt.Device.{HostDevice}
use runtopo.Libvirt.Exec.{Exec, continue, pure, raise, ◌>>=◌}
use runtopo.Libvirt.Hypervisor.{
  volume_info, volume_path, create_volume, Hypervisor, Session, branch, logged,
}
use runtopo.Libvirt.Volumes.{StorageVolume, BackingStore, new_volume, new_backing_store_from_vol}
use runtopo.Libvirt.Volumes.Images.Cover.{IsKey, image_of, IsCovered}
use runtopo.Libvirt.Volumes.Disks.{
  capacity_of, backed_volume, volume_with, volume_of, marshalled, create_one,
}

-- The outcome is no panic.
abbrev pub IsCalm : {A S : Type 0} → Outcome Error A × S → Type 0
IsCalm (ok a, s) = Unit
IsCalm (err e, s) = Unit
IsCalm (panic, s) = ⊥

module _ {Ip NetIp : Type 0} where
  pub image_of-insert :
      (k j : Bytes) (d d' : HostDevice Ip NetIp) (ds : Dict (HostDevice Ip NetIp))
      → lookup k ds ≡ some d
      → d'.device ≡ d.device
      → image_of j (insert k d' ds) ≡ image_of j ds
  unfolding image_of
  image_of-insert k j d d' ds e f = ground (arith, lookup-insert k j d' ds, str_eq_iff k j)

  -- A device with the same attributes has the same image.
  pub IsCovered-insert :
      (k j : Bytes) (d d' : HostDevice Ip NetIp) (ds : Dict (HostDevice Ip NetIp)) (images : Dict ℕ)
      → lookup k ds ≡ some d
      → d'.device ≡ d.device
      → IsCovered ds images j
      → IsCovered (insert k d' ds) images j
  IsCovered-insert k j d d' ds images e f h = subst (λ i. (i ≡ []) ⊎ IsKey i images) (sym same) h
    where
      same : image_of j (insert k d' ds) ≡ image_of j ds
      same = image_of-insert k j d d' ds e f

module _ (hv : Hypervisor) (marshal : StorageVolume → Option Bytes) {Ip NetIp : Type 0} where
  backing-IsCalm :
      (base : ℕ) (v : BackingStore → StorageVolume) (s : Session Ip NetIp)
      → IsCalm ((new_backing_store_from_vol hv base >>= λ b. pure (v b)) s)
  unfolding new_backing_store_from_vol
  backing-IsCalm base v s = by_path (hv.number s.log (volume_path base))
    where
      by_path :
          (a : Option ℕ)
          → IsCalm (
              continue
                (λ b. pure (v b))
                (branch {B = Exec (Session Ip NetIp) BackingStore}
                  (raise (no_path []))
                  (λ _.
                    pure
                      (record { path = hv.text s.log (volume_path base); format = codes "qcow2" }))
                  a
                  (logged hv (volume_path base) s)))
      by_path none = tt
      by_path (some n) = tt

  backed-IsCalm :
      (d : HostDevice Ip NetIp) (base : ℕ) (s : Session Ip NetIp)
      → IsCalm (backed_volume hv marshal d (some base) s)
  unfolding backed_volume
  backed-IsCalm d base s = by_info (hv.number s.log (volume_info base))
    where
      by_info :
          (a : Option ℕ)
          → IsCalm (
              branch {B = Exec (Session Ip NetIp) StorageVolume}
                (raise (no_info d.name))
                (λ size. new_backing_store_from_vol hv base >>= λ backing.
                  pure (record (new_volume d.name (capacity_of (disk_size d.device) size)) {
                    backing_store = some backing;
                  }))
                a
                (logged hv (volume_info base) s))
      by_info none = tt
      by_info (some size) =
          backing-IsCalm base
            (λ backing. record (new_volume d.name (capacity_of (disk_size d.device) size)) {
              backing_store = some backing;
            })
            (logged hv (volume_info base) s)

  volume_with-IsCalm :
      (d : HostDevice Ip NetIp) (image : Bytes) (s : Session Ip NetIp)
      → (image ≡ []) ⊎ IsKey image s.base_images
      → IsCalm (volume_with hv marshal d image s)
  unfolding volume_with
  volume_with-IsCalm d [] s h = tt
  volume_with-IsCalm d (c ∷ cs) s (inl e) = absurd (ground (arith, e))
  volume_with-IsCalm d (c ∷ cs) s (inr (base, e)) =
      subst (λ o. IsCalm (backed_volume hv marshal d o s)) (sym e) (backed-IsCalm d base s)

  marshalled-IsCalm :
      (pool : ℕ) (name : Bytes) (xml : Option Bytes) (s : Session Ip NetIp)
      → IsCalm (marshalled hv marshal pool name xml s)
  unfolding marshalled
  marshalled-IsCalm pool name none s = tt
  marshalled-IsCalm pool name (some xml) s = by_answer (hv.number s.log (create_volume pool xml))
    where
      by_answer :
          (a : Option ℕ)
          → IsCalm (
              branch {B = Exec (Session Ip NetIp) ℕ}
                (raise (create_failed name))
                pure
                a
                (logged hv (create_volume pool xml) s))
      by_answer none = tt
      by_answer (some vol) = tt

  pub create_one-IsCalm :
      (pool : ℕ) (d : HostDevice Ip NetIp) (s : Session Ip NetIp)
      → (os_image d.device ≡ []) ⊎ IsKey (os_image d.device) s.base_images
      → IsCalm (create_one hv marshal pool d s)
  unfolding create_one volume_of
  create_one-IsCalm pool d s h =
      by_volume (volume_of hv marshal d s) (volume_with-IsCalm d (os_image d.device) s h)
    where
      by_volume :
          (r : Outcome Error StorageVolume × Session Ip NetIp)
          → IsCalm r
          → IsCalm (continue (λ v. marshalled hv marshal pool d.name (marshal v)) r)
      by_volume (panic, t) c = c
      by_volume (err e, t) c = tt
      by_volume (ok v, t) c = marshalled-IsCalm pool d.name (marshal v) t
