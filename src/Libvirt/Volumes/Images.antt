-- ===== src/Libvirt/Volumes/Images.antt =====
-- `downloadBaseImages` of runner/libvirt/runner.go. The fetches, which the source runs side by side, are
-- taken one after the other, in the order in which their results arrive.
pub mod Accounts
pub mod Cover
pub mod Owned
pub mod Received
use runtopo.Prelude.{ℕ, Bytes, Option, none, some, List, [], ◌∷◌, Outcome, ok, err, panic}
use runtopo.Prelude.Dict.{Dict, lookup, insert}
use runtopo.Errors.{Error, no_pool, bad_url}
use runtopo.Topology.Device.{os_image}
use runtopo.Libvirt.Exec.{Exec, pure, raise, modify, continue, ◌>>=◌, ◌>>◌, finally}
use runtopo.Libvirt.Hypervisor.{
  Call, lookup_pool, free_pool, lookup_volume, free_volume, Hypervisor, Session, attempt, tell,
  tell_all,
}
use runtopo.Libvirt.Volumes.{StorageVolume, create_volume_from_url}

unfoldable pub free_images : List Bytes → Dict ℕ → List Call
free_images [] images = []
free_images (url ∷ urls) images = elim (lookup url images) [
  | none ↦ free_images urls images
  | some vol ↦ free_volume vol ∷ free_images urls images
]

module _ (hv : Hypervisor) (image_name : Bytes → Option Bytes)
    (marshal : StorageVolume → Option Bytes) {Ip NetIp : Type 0} where
  -- The first loop of `downloadBaseImages`: the volumes that are there, and the addresses of the images
  -- that have to be fetched. On an error the handles are not freed.
  unfoldable pub look_up_images :
      ℕ → List Bytes → Dict ℕ → Dict (Unit {0}) → Exec (Session Ip NetIp) (Dict ℕ × Dict (Unit {0}))
  look_up_images pool [] have want s = pure (have, want) s
  look_up_images pool (k ∷ order) have want s = elim (lookup k s.runner.devices) [
    | none ↦ look_up_images pool order have want s
    | some d ↦ elim (os_image d.device) [
      | [] ↦ look_up_images pool order have want s
      | c ∷ cs ↦ elim (image_name (c ∷ cs)) [
        | none ↦ raise (bad_url (c ∷ cs)) s
        | some name ↦
            attempt hv (lookup_volume pool name)
              (look_up_images pool order have (insert (c ∷ cs) tt want))
              (λ vol. look_up_images pool order (insert (c ∷ cs) vol have) want) s
      ]
    ]
  ]

  -- A result that has arrived: the volume is kept, and of the errors the first one.
  unfoldable pub arrived :
      Bytes
      → Dict ℕ × Option Error
      → Outcome Error ℕ × Session Ip NetIp
      → Outcome Error (Dict ℕ × Option Error) × Session Ip NetIp
  arrived url (have, first) (panic, s) = (panic, s)
  arrived url (have, first) (ok vol, s) = (ok (insert url vol have, first), s)
  arrived url (have, none) (err e, s) = (ok (have, some e), s)
  arrived url (have, some f) (err e, s) = (ok (have, some f), s)

  -- The second loop; `arrivals` is the order in which the results arrive.
  unfoldable pub receive_images :
      ℕ
      → List Bytes
      → Dict (Unit {0})
      → Dict ℕ × Option Error
      → Exec (Session Ip NetIp) (Dict ℕ × Option Error)
  unfolding arrived
  receive_images pool [] want so_far s = pure so_far s
  receive_images pool (url ∷ arrivals) want so_far s = elim (lookup url want) [
    | none ↦ receive_images pool arrivals want so_far s
    | some _ ↦
        continue (receive_images pool arrivals want)
          (arrived url so_far (create_volume_from_url hv image_name marshal pool url s))
  ]

  -- What follows the loops; `urls` is the order in which the range over the images visits them.
  unfoldable pub keep_images :
      List Bytes → Dict ℕ × Option Error → Exec (Session Ip NetIp) (Unit {0})
  unfolding free_images
  keep_images urls (have, none) = modify (λ s. record s { base_images = have })
  keep_images urls (have, some e) = tell_all hv (free_images urls have) >> raise e

  unfoldable pub download_base_images :
      List Bytes → List Bytes → List Bytes → Exec (Session Ip NetIp) (Unit {0})
  unfolding keep_images receive_images look_up_images
  download_base_images order arrivals urls s =
      attempt hv (lookup_pool s.runner.storage_pool) (raise (no_pool s.runner.storage_pool))
        (λ pool. finally (tell hv (free_pool pool)) (
          look_up_images pool order [] [] >>= λ (have, want).
          receive_images pool arrivals want (have, none) >>= keep_images urls))
        s
