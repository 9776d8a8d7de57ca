-- ===== src/Tests/Images.antt =====
-- The theorem on the images and volumes, for a device whose image is in the pool.
use runtopo.Prelude.{
  ℕ, ◌≡◌, ◌≢◌, refl, true, Bytes, codes, str_eq, Option, none, some, inl, inr, List, [], ◌∷◌, All,
  ok, err, panic, Outcome,
}
use runtopo.Prelude.Dict.{lookup}
use runtopo.Errors.{Error, upload_failed}
use runtopo.Topology.Device.{Device, attr, os_image}
use runtopo.Libvirt.Hypervisor.{
  Call, lookup_pool, lookup_volume, create_volume, new_stream, http_head, http_get, Log, Hypervisor,
  Session, tell,
}
use runtopo.Libvirt.Volumes.Images.{download_base_images, look_up_images}
use runtopo.Libvirt.Volumes.Images.Cover.{image_of}
use runtopo.Libvirt.Volumes.Images.Received.{IsExpected}
use runtopo.Libvirt.Volumes.Images.Owned.{NoneLost, download_base_images-NoneLost}
use runtopo.Libvirt.Volumes.Disks.{create_volumes}
use runtopo.Libvirt.Volumes.Disks.Calm.{create_volumes-no_panic}
use runtopo.Tests.Graphs.{device}
use runtopo.Tests.Hosts.{host_device}
use runtopo.Tests.Runs.{session, marshal}

abbrev pub pictured : Device ℕ
pictured = device (codes "web-1") ((codes "os", codes "img") ∷ [])

-- A pool that has every volume.
abbrev stocked : Log → Call → Option ℕ
stocked log (lookup_pool name) = some 2
stocked log (lookup_volume pool name) = some 4
stocked log c = none

abbrev hv : Hypervisor
hv = record { number = stocked; text = λ log c. []; vbmc = λ log commands c. true }

abbrev pub before : Session ℕ ℕ
before = record session {
  runner = record session.runner { devices = (codes "web-1", host_device pictured 1) ∷ [] };
}

abbrev ranges : List Bytes
ranges = codes "web-1" ∷ []

abbrev arrivals : List Bytes
arrivals = codes "img" ∷ []

after : Session ℕ ℕ
after = (download_base_images hv (λ url. some url) marshal ranges arrivals [] before).1

downloaded :
    download_base_images hv (λ url. some url) marshal ranges arrivals [] before ≡ (ok tt, after)
unfolding after download_base_images look_up_images tell lookup str_eq os_image attr
downloaded = refl

expected : All (IsExpected before.runner.devices arrivals) ranges
unfolding image_of lookup str_eq os_image attr
expected = (inr (inl refl), tt)

create_volumes-no_panic_example :
    (create_volumes hv marshal (codes "web-1" ∷ codes "web-1" ∷ []) after).0 ≢ panic
create_volumes-no_panic_example =
    create_volumes-no_panic hv marshal (λ url. some url) ranges arrivals []
      (codes "web-1" ∷ codes "web-1" ∷ []) before after expected
      (λ k i. elim i [ inl e ↦ inl e | inr j ↦ j ]) downloaded

-- A pool without volumes, and a server that has the image, whose copy fails.
abbrev failing : Log → Call → Option ℕ
failing log (lookup_pool name) = some 2
failing log (create_volume pool xml) = some 7
failing log new_stream = some 8
failing log (http_head url) = some 200
failing log (http_get url) = some 200
failing log c = none

abbrev serving : Hypervisor
serving = record { number = failing; text = λ log c. codes "5"; vbmc = λ log commands c. true }

abbrev fetch : Outcome Error (Unit {0}) × Session ℕ ℕ
fetch = download_base_images serving (λ url. some url) marshal ranges arrivals arrivals before

fetch_run : fetch.0 ≡ err (upload_failed (codes "img"))
unfolding download_base_images tell lookup str_eq os_image attr runtopo.Prelude.Dict.insert
    runtopo.Libvirt.Volumes.create_volume_from_url
    runtopo.Libvirt.Volumes.fetch_image_content_length runtopo.Strconv.atoi
    runtopo.Libvirt.Volumes.fill_volume runtopo.Libvirt.Volumes.upload_image
    runtopo.Libvirt.Hypervisor.tell_all
fetch_run = refl

download_base_images-NoneLost_example :
    NoneLost serving
      (λ url. some url)
      marshal
      before
      (download_base_images serving (λ url. some url) marshal ranges arrivals arrivals before)
download_base_images-NoneLost_example =
    download_base_images-NoneLost serving (λ url. some url) marshal ranges arrivals arrivals before
      (tt, tt) (λ url i. i)
