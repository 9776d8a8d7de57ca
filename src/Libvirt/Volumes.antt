-- ===== src/Libvirt/Volumes.antt =====
-- runner/libvirt/volume.go, and the fetches of runner/libvirt/helper.go. What `url.Parse` makes of an image's
-- address, with `path.Base` of its path, is the argument `image_name`; the XML of a volume is the argument
-- `marshal`. The context is not modelled: a request that it ends has failed.
pub mod Images
pub mod Disks
pub mod Upload
use runtopo.Prelude.{
  ℕ, zero, suc, Bool, Bytes, codes, Option, none, some, List, [], ◌∷◌, ◌++◌, Outcome, ok, err,
  panic, if◌then◌else◌, leb, ltb, ◌&&◌,
}
use runtopo.Prelude.Int.{ℤ, pos, negsuc, wrap64}
use runtopo.Prelude.Dict.{Dict, lookup, insert}
use runtopo.Strconv.{atoi}
use runtopo.Errors.{
  Error, no_pool, bad_url, bad_status, bad_length, fetch_failed, no_info, no_path, bad_volume,
  create_failed, stream_failed, upload_failed,
}
use runtopo.Topology.Device.{disk_size, os_image}
use runtopo.Topology.AutoMgmt.{is_empty}
use runtopo.Libvirt.Device.{HostDevice}
use runtopo.Libvirt.Runner.{Runner, to_uint}
use runtopo.Libvirt.Exec.{
  Exec, pure, raise, crash, modify, continue, ◌>>=◌, ◌>>◌, on_error, finally,
}
use runtopo.Libvirt.Hypervisor.{
  Call, lookup_pool, free_pool, lookup_volume, create_volume, delete_volume, free_volume,
  volume_info, volume_path, new_stream, upload, abort_stream, finish_stream, free_stream, http_head,
  http_get, copy_body, Hypervisor, Session, attempt, ask_or, tell, tell_all,
}

-- `libvirtxml.StorageVolume` and `libvirtxml.StorageVolumeBackingStore`, as far as the code fills them.
pub record BackingStore : Type 0 where
  pub path : Bytes
  pub format : Bytes

pub record StorageVolume : Type 0 where
  pub name : Bytes
  pub format : Bytes
  pub mode : Bytes
  pub group : Bytes
  pub capacity : ℕ
  pub unit : Bytes
  pub backing_store : Option BackingStore

unfoldable pub new_volume : Bytes → ℤ → StorageVolume
unfolding to_uint
new_volume name size = record {
  name = name;
  format = codes "qcow2";
  mode = codes "0664";
  group = codes "107";
  capacity = to_uint size;
  unit = codes "bytes";
  backing_store = none;
}

-- The status of a response counts as fine.
unfoldable pub status_ok : ℕ → Bool
status_ok code = leb 200 code && ltb code 300

module _ (hv : Hypervisor) {Ip NetIp : Type 0} where
  unfoldable pub new_backing_store_from_vol : ℕ → Exec (Session Ip NetIp) BackingStore
  new_backing_store_from_vol vol s =
      attempt hv (volume_path vol) (raise (no_path []))
        (λ _. pure (record { path = hv.text s.log (volume_path vol); format = codes "qcow2" })) s

  unfoldable pub length_or_error : Bytes → Option ℤ → Exec (Session Ip NetIp) ℤ
  length_or_error url none = raise (bad_length url)
  length_or_error url (some n) = pure n

  unfoldable pub when_ok :
      {A : Type 0} → Bytes → ℕ → Exec (Session Ip NetIp) A → Exec (Session Ip NetIp) A
  when_ok url code next = if status_ok code then next else raise (bad_status url)

  -- The answer to a request is the status; its text is the header Content-Length, read in base 10.
  unfoldable pub fetch_image_content_length : Bytes → Exec (Session Ip NetIp) ℤ
  unfolding length_or_error when_ok status_ok
  fetch_image_content_length url s =
      (ask_or hv (fetch_failed url) (http_head url) >>= λ code.
      when_ok url code (length_or_error url (atoi (hv.text s.log (http_head url)))))
        s

  unfoldable pub fetch_image : ℕ → Bytes → Exec (Session Ip NetIp) (Unit {0})
  unfolding when_ok status_ok
  fetch_image stream url = ask_or hv (fetch_failed url) (http_get url) >>= λ code.
      when_ok url code (attempt hv (copy_body url stream) (raise (fetch_failed url)) (λ _. pure tt))

  -- The last part of `createVolumeFromURL`, before the deferred `stream.Free`.
  unfoldable pub upload_image : ℕ → ℕ → ℤ → Bytes → Exec (Session Ip NetIp) ℕ
  unfolding fetch_image
  upload_image vol stream size url =
      attempt hv (upload vol stream (to_uint size))
        (tell_all hv (free_volume vol ∷ abort_stream stream ∷ []) >> raise (upload_failed url))
        (λ _.
          on_error (tell_all hv (free_volume vol ∷ abort_stream stream ∷ []))
            (fetch_image stream url)
          >> attempt hv (finish_stream stream)
              (tell hv (free_volume vol) >> raise (stream_failed url)) (λ _. pure vol))

  unfoldable pub fill_volume : ℕ → ℤ → Bytes → Exec (Session Ip NetIp) ℕ
  fill_volume vol size url =
      attempt hv new_stream (tell hv (free_volume vol) >> raise (stream_failed url))
        (λ stream. finally (tell hv (free_stream stream)) (upload_image vol stream size url))

module _ (hv : Hypervisor) (image_name : Bytes → Option Bytes)
    (marshal : StorageVolume → Option Bytes) {Ip NetIp : Type 0} where
  unfoldable pub named_volume : ℕ → Bytes → ℤ → Option Bytes → Exec (Session Ip NetIp) ℕ
  named_volume pool url size none = raise (bad_volume url)
  named_volume pool url size (some xml) =
      attempt hv (create_volume pool xml) (raise (create_failed url))
        (λ vol. fill_volume hv vol size url)

  -- The file's name is none where the address is no URL.
  unfoldable pub create_volume_from_url : ℕ → Bytes → Exec (Session Ip NetIp) ℕ
  unfolding named_volume
  create_volume_from_url pool url s = elim (image_name url) [
    | none ↦ raise (bad_url url) s
    | some name ↦
        (fetch_image_content_length hv url >>= λ size.
        named_volume pool url size (marshal (new_volume name size)))
          s
  ]
