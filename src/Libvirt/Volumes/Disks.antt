-- ===== src/Libvirt/Volumes/Disks.antt =====
-- `createVolumes` and `deleteVolumes` of runner/libvirt/runner.go. The deferred functions are written at
-- each place where the function is left.
pub mod Round
pub mod Create
pub mod Ready
pub mod Calm
use runtopo.Prelude.{
  ℕ, zero, suc, Bool, Bytes, codes, Option, none, some, List, [], ◌∷◌, ◌++◌, Outcome, ok, err,
  panic, if◌then◌else◌, leb, ltb, ◌&&◌,
}
use runtopo.Prelude.Int.{ℤ, pos, negsuc, wrap64}
use runtopo.Prelude.Dict.{Dict, lookup, insert}
use runtopo.Strconv.{atoi}
use runtopo.Errors.{
  Error, no_pool, bad_url, bad_status, bad_length, fetch_failed, no_info, no_path, bad_volume,
  create_failed, stream_failed, upload_failed,
}
use runtopo.Topology.Device.{disk_size, os_image}
use runtopo.Topology.AutoMgmt.{is_empty}
use runtopo.Libvirt.Device.{HostDevice}
use runtopo.Libvirt.Runner.{Runner, to_uint}
use runtopo.Libvirt.Exec.{
  Exec, pure, raise, crash, modify, continue, ◌>>=◌, ◌>>◌, on_error, finally,
}
use runtopo.Libvirt.Hypervisor.{
  Call, lookup_pool, free_pool, lookup_volume, create_volume, delete_volume, free_volume,
  volume_info, volume_path, new_stream, upload, abort_stream, finish_stream, free_stream, http_head,
  http_get, copy_body, Hypervisor, Session, attempt, ask_or, tell, tell_all,
}
use runtopo.Libvirt.Volumes.{
  StorageVolume, new_volume, new_backing_store_from_vol, create_volume_from_url,
}

unfoldable pub capacity_of : ℤ → ℕ → ℤ
capacity_of (pos zero) bytes = wrap64 (pos bytes)
capacity_of (pos (suc n)) bytes = pos (suc n)
capacity_of (negsuc n) bytes = negsuc n

-- The calls of the deferred function of `createVolumes`, behind the one that frees the pool: on an
-- error, and without one.
abbrev pub undo_created : List ℕ → List Call
undo_created [] = []
undo_created (vol ∷ vols) = delete_volume vol ∷ free_volume vol ∷ undo_created vols

abbrev pub free_created : List ℕ → List Call
free_created [] = []
free_created (vol ∷ vols) = free_volume vol ∷ free_created vols

module _ (hv : Hypervisor) (marshal : StorageVolume → Option Bytes) {Ip NetIp : Type 0} where
  -- The volume of a device with an image; a missing image panics.
  unfoldable pub backed_volume :
      HostDevice Ip NetIp → Option ℕ → Exec (Session Ip NetIp) StorageVolume
  unfolding capacity_of
  backed_volume d none = crash
  backed_volume d (some base) = attempt hv (volume_info base) (raise (no_info d.name)) (λ cap.
      new_backing_store_from_vol hv base >>= λ backing.
      pure (record (new_volume d.name (capacity_of (disk_size d.device) cap)) {
        backing_store = some backing;
      }))

  unfoldable pub volume_with : HostDevice Ip NetIp → Bytes → Exec (Session Ip NetIp) StorageVolume
  volume_with d [] s = pure (new_volume d.name (disk_size d.device)) s
  volume_with d (c ∷ cs) s = backed_volume d (lookup (c ∷ cs) s.base_images) s

  unfoldable pub volume_of : HostDevice Ip NetIp → Exec (Session Ip NetIp) StorageVolume
  volume_of d = volume_with d (os_image d.device)

  unfoldable pub marshalled : ℕ → Bytes → Option Bytes → Exec (Session Ip NetIp) ℕ
  marshalled pool name none = raise (bad_volume name)
  marshalled pool name (some xml) =
      attempt hv (create_volume pool xml) (raise (create_failed name)) pure

  -- A round of the loop, up to the created volume.
  unfoldable pub create_one : ℕ → HostDevice Ip NetIp → Exec (Session Ip NetIp) ℕ
  unfolding marshalled
  create_one pool d = volume_of d >>= λ v. marshalled pool d.name (marshal v)

  -- `d.pool = r.storagePool`
  unfoldable pub mark_pool : Bytes → HostDevice Ip NetIp → Session Ip NetIp → Session Ip NetIp
  mark_pool k d s = record s {
    runner = record s.runner {
      devices = insert k (record d { pool = s.runner.storage_pool }) s.runner.devices;
    };
  }

  -- The rest of the loop, or the deferred functions.
  unfoldable pub settle :
      ℕ
      → List ℕ
      → (ℕ → Exec (Session Ip NetIp) (Unit {0}))
      → Outcome Error ℕ × Session Ip NetIp
      → Outcome Error (Unit {0}) × Session Ip NetIp
  settle pool created next (ok vol, s) = next vol s
  settle pool created next (err e, s) =
      (tell_all hv (free_pool pool ∷ undo_created created) >> raise e) s
  settle pool created next (panic, s) =
      (tell_all hv (free_pool pool ∷ free_created created) >> crash) s

  unfoldable pub create_each : ℕ → List Bytes → List ℕ → Exec (Session Ip NetIp) (Unit {0})
  unfolding settle
  create_each pool [] created s = tell_all hv (free_pool pool ∷ free_created created) s
  create_each pool (k ∷ order) created s = elim (lookup k s.runner.devices) [
    | none ↦ create_each pool order created s
    | some d ↦
        settle pool created
          (λ vol t. create_each pool order (created ++ vol ∷ []) (mark_pool k d t))
          (create_one pool d s)
  ]

  unfoldable pub create_volumes : List Bytes → Exec (Session Ip NetIp) (Unit {0})
  create_volumes order s =
      attempt hv (lookup_pool s.runner.storage_pool) (raise (no_pool s.runner.storage_pool))
        (λ pool. create_each pool order []) s

module _ (hv : Hypervisor) {Ip NetIp : Type 0} where
  unfoldable pub delete_each : ℕ → List Bytes → Exec (Session Ip NetIp) (Unit {0})
  delete_each pool [] s = pure tt s
  delete_each pool (k ∷ order) s = elim (lookup k s.runner.devices) [
    | none ↦ delete_each pool order s
    | some d ↦
        attempt hv (lookup_volume pool d.name) (delete_each pool order)
          (λ vol. tell_all hv (delete_volume vol ∷ free_volume vol ∷ []) >> delete_each pool order)
          s
  ]

  -- A volume that is not found is passed over; the error of its deletion is ignored.
  unfoldable pub delete_volumes : List Bytes → Exec (Session Ip NetIp) (Unit {0})
  unfolding delete_each
  delete_volumes order s =
      attempt hv (lookup_pool s.runner.storage_pool) (raise (no_pool s.runner.storage_pool))
        (λ pool. finally (tell hv (free_pool pool)) (delete_each pool order)) s
