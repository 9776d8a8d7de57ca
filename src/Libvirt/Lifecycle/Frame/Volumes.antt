-- ===== src/Libvirt/Lifecycle/Frame/Volumes.antt =====
-- `createVolumes` of runner/libvirt/runner.go leaves the BMCs and the names' prefix alone.
use runtopo.Prelude.{
  ℕ, Bytes, Option, none, some, List, [], ◌∷◌, ◌++◌, Outcome, ok, err, panic, Option-cases, inl,
  inr,
}
use runtopo.Prelude.Dict.{lookup}
use runtopo.Errors.{Error}
use runtopo.Topology.Device.{os_image}
use runtopo.Libvirt.Device.{HostDevice}
use runtopo.Libvirt.Vbmc.{BmcMan}
use runtopo.Libvirt.Exec.{Exec, crash, raise}
use runtopo.Libvirt.Hypervisor.{
  lookup_pool, lookup_volume, create_volume, volume_info, volume_path, free_pool, free_volume,
  delete_volume, Hypervisor, Session, tell_all, tell,
}
use runtopo.Libvirt.Hypervisor.Holds.{
  Held, Holds, Holds->>=, Holds-finally, Holds-attempt, tell-Holds, tell_all-Holds,
}
use runtopo.Libvirt.Volumes.{StorageVolume, new_backing_store_from_vol}
use runtopo.Libvirt.Volumes.Disks.{
  undo_created, free_created, backed_volume, volume_with, volume_of, marshalled, create_one,
  mark_pool, settle, create_each, create_volumes, delete_each, delete_volumes,
}

module _ (Q : BmcMan → Bytes → Type 0) (hv : Hypervisor) {Ip NetIp : Type 0} where
  new_backing_store-Holds :
      (vol : ℕ) → Holds Q {Ip = Ip} {NetIp = NetIp} (new_backing_store_from_vol hv vol)
  unfolding new_backing_store_from_vol
  new_backing_store-Holds vol s = Holds-attempt Q hv (volume_path vol) _ _ (λ t h. h) (λ n t h. h) s

  delete_each-Holds :
      (pool : ℕ) (order : List Bytes)
      → Holds Q {Ip = Ip} {NetIp = NetIp} (delete_each hv pool order)
  unfolding delete_each
  delete_each-Holds pool [] s h = h
  delete_each-Holds pool (k ∷ order) s h = elim (Option-cases (lookup k s.runner.devices)) [
    | inl e ↦ rw (e, delete_each) (delete_each-Holds pool order s h)
    | inr (d, e) ↦
        rw (e, delete_each)
          (Holds-attempt Q hv (lookup_volume pool d.name) _ _ (delete_each-Holds pool order)
            (λ vol.
              Holds->>= Q (tell_all hv (delete_volume vol ∷ free_volume vol ∷ [])) _
                (tell_all-Holds Q hv _) (λ _. delete_each-Holds pool order))
            s h)
  ]

  pub delete_volumes-Holds :
      (order : List Bytes) → Holds Q {Ip = Ip} {NetIp = NetIp} (delete_volumes hv order)
  unfolding delete_volumes
  delete_volumes-Holds order s =
      Holds-attempt Q hv (lookup_pool s.runner.storage_pool) _ _ (λ t h. h)
        (λ pool.
          Holds-finally Q (tell hv (free_pool pool)) (delete_each hv pool order)
            (tell-Holds Q hv (free_pool pool)) (delete_each-Holds pool order))
        s

  module _ (marshal : StorageVolume → Option Bytes) where
    backed_volume-Holds :
        (d : HostDevice Ip NetIp) (base : Option ℕ) → Holds Q (backed_volume hv marshal d base)
    unfolding backed_volume
    backed_volume-Holds d none s h = h
    backed_volume-Holds d (some base) s h =
        Holds-attempt Q hv (volume_info base) _ _ (λ t g. g)
          (λ cap.
            Holds->>= Q (new_backing_store_from_vol hv base) _ (new_backing_store-Holds base)
              (λ backing t g. g))
          s h

    volume_with-Holds :
        (d : HostDevice Ip NetIp) (url : Bytes) → Holds Q (volume_with hv marshal d url)
    unfolding volume_with
    volume_with-Holds d [] s h = h
    volume_with-Holds d (c ∷ cs) s h = backed_volume-Holds d (lookup (c ∷ cs) s.base_images) s h

    marshalled-Holds :
        (pool : ℕ) (name : Bytes) (xml : Option Bytes)
        → Holds Q {Ip = Ip} {NetIp = NetIp} (marshalled hv marshal pool name xml)
    unfolding marshalled
    marshalled-Holds pool name none s h = h
    marshalled-Holds pool name (some xml) s h =
        Holds-attempt Q hv (create_volume pool xml) _ _ (λ t g. g) (λ n t g. g) s h

    create_one-Holds : (pool : ℕ) (d : HostDevice Ip NetIp) → Holds Q (create_one hv marshal pool d)
    unfolding create_one volume_of
    create_one-Holds pool d =
        Holds->>= Q (volume_of hv marshal d) _ (volume_with-Holds d (os_image d.device))
          (λ v. marshalled-Holds pool d.name (marshal v))

    settle-Holds :
        (pool : ℕ) (created : List ℕ) (next : ℕ → Exec (Session Ip NetIp) (Unit {0}))
        (r : Outcome Error ℕ × Session Ip NetIp)
        → ((vol : ℕ) → Holds Q (next vol))
        → Held Q r.1
        → Held Q (settle hv marshal pool created next r).1
    unfolding settle
    settle-Holds pool created next (ok vol, t) rest h = rest vol t h
    settle-Holds pool created next (err e, t) rest h =
        Holds->>= Q (tell_all hv (free_pool pool ∷ undo_created created)) (λ _. raise e)
          (tell_all-Holds Q hv _) (λ _ u g. g) t h
    settle-Holds pool created next (panic, t) rest h =
        Holds->>= Q (tell_all hv (free_pool pool ∷ free_created created)) (λ _. crash)
          (tell_all-Holds Q hv _) (λ _ u g. g) t h

    create_each-Holds :
        (pool : ℕ) (order : List Bytes) (created : List ℕ)
        → Holds Q {Ip = Ip} {NetIp = NetIp} (create_each hv marshal pool order created)
    unfolding create_each mark_pool
    create_each-Holds pool [] created s h =
        tell_all-Holds Q hv (free_pool pool ∷ free_created created) s h
    create_each-Holds pool (k ∷ order) created s h =
        elim (Option-cases (lookup k s.runner.devices)) [
          | inl e ↦ rw (e, create_each) (create_each-Holds pool order created s h)
          | inr (d, e) ↦
              rw (e, create_each)
                (settle-Holds pool created
                  (λ vol t.
                    create_each hv marshal pool order (created ++ vol ∷ [])
                      (mark_pool hv marshal k d t))
                  (create_one hv marshal pool d s)
                  (λ vol t g.
                    create_each-Holds pool order (created ++ vol ∷ []) (mark_pool hv marshal k d t)
                      g)
                  (create_one-Holds pool d s h))
        ]

    pub create_volumes-Holds :
        (order : List Bytes) → Holds Q {Ip = Ip} {NetIp = NetIp} (create_volumes hv marshal order)
    unfolding create_volumes
    create_volumes-Holds order s =
        Holds-attempt Q hv (lookup_pool s.runner.storage_pool) _ _ (λ t h. h)
          (λ pool. create_each-Holds pool order []) s
