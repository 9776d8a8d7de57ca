-- ===== src/Libvirt/Lifecycle/Frame/Images.antt =====
-- `downloadBaseImages` of runner/libvirt/runner.go, with the fetches, leaves the BMCs and the names'
-- prefix alone.
use runtopo.Prelude.{
  ℕ, Bytes, Option, none, some, List, [], ◌∷◌, Outcome, ok, err, panic, Option-cases, Bool-cases,
  List-cases, inl, inr,
}
use runtopo.Prelude.Int.{ℤ}
use runtopo.Prelude.Dict.{Dict, lookup, insert}
use runtopo.Strconv.{atoi}
use runtopo.Errors.{Error, stream_failed, upload_failed}
use runtopo.Topology.Device.{os_image}
use runtopo.Libvirt.Vbmc.{BmcMan}
use runtopo.Libvirt.Runner.{to_uint}
use runtopo.Libvirt.Exec.{Exec, raise}
use runtopo.Libvirt.Hypervisor.{
  lookup_pool, lookup_volume, create_volume, free_pool, free_volume, free_stream, abort_stream,
  finish_stream, new_stream, upload, copy_body, http_head, http_get, Hypervisor, Session, tell_all,
  tell, ask_or,
}
use runtopo.Libvirt.Hypervisor.Holds.{
  Held, Holds, Holds-continue, Holds->>=, Holds-on_error, Holds-finally, Holds-attempt, tell-Holds,
  tell_all-Holds,
}
use runtopo.Libvirt.Volumes.{
  StorageVolume, new_volume, length_or_error, when_ok, status_ok, fetch_image_content_length,
  fetch_image, upload_image, fill_volume, named_volume, create_volume_from_url,
}
use runtopo.Libvirt.Volumes.Images.{
  free_images, look_up_images, arrived, receive_images, keep_images, download_base_images,
}

module _ (Q : BmcMan → Bytes → Type 0) (hv : Hypervisor) {Ip NetIp : Type 0} where
  length_or_error-Holds :
      (url : Bytes) (n : Option ℤ) → Holds Q {Ip = Ip} {NetIp = NetIp} (length_or_error hv url n)
  unfolding length_or_error
  length_or_error-Holds url none s h = h
  length_or_error-Holds url (some n) s h = h

  when_ok-Holds :
      {A : Type 0} (url : Bytes) (code : ℕ) (next : Exec (Session Ip NetIp) A)
      → Holds Q next
      → Holds Q (when_ok hv url code next)
  unfolding when_ok
  when_ok-Holds url code next rest s h = elim (Bool-cases (status_ok code)) [
    | inl e ↦ rw (e, when_ok) (rest s h)
    | inr e ↦ rw (e, when_ok) h
  ]

  fetch_length-Holds :
      (url : Bytes) → Holds Q {Ip = Ip} {NetIp = NetIp} (fetch_image_content_length hv url)
  unfolding fetch_image_content_length
  fetch_length-Holds url s h =
      Holds->>= Q {Ip = Ip} {NetIp = NetIp} (ask_or hv _ (http_head url)) _
        (Holds-attempt Q hv (http_head url) _ _ (λ t g. g) (λ n t g. g))
        (λ code.
          when_ok-Holds url code (length_or_error hv url (atoi (hv.text s.log (http_head url))))
            (length_or_error-Holds url _))
        s h

  fetch_image-Holds :
      (stream : ℕ) (url : Bytes) → Holds Q {Ip = Ip} {NetIp = NetIp} (fetch_image hv stream url)
  unfolding fetch_image
  fetch_image-Holds stream url =
      Holds->>= Q {Ip = Ip} {NetIp = NetIp} (ask_or hv _ (http_get url)) _
        (Holds-attempt Q hv (http_get url) _ _ (λ t g. g) (λ n t g. g))
        (λ code.
          when_ok-Holds url code _
            (Holds-attempt Q hv (copy_body url stream) _ _ (λ t g. g) (λ n t g. g)))

  upload_image-Holds :
      (vol stream : ℕ) (size : ℤ) (url : Bytes)
      → Holds Q {Ip = Ip} {NetIp = NetIp} (upload_image hv vol stream size url)
  unfolding upload_image
  upload_image-Holds vol stream size url =
      Holds-attempt Q hv (upload vol stream (to_uint size)) _ _
        (Holds->>= Q (tell_all hv _) (λ _. raise (upload_failed url)) (tell_all-Holds Q hv _)
          (λ _ t g. g))
        (λ _.
          Holds->>= Q {A = Unit {0}} {B = ℕ} _ _
            (Holds-on_error Q (tell_all hv (free_volume vol ∷ abort_stream stream ∷ []))
              (fetch_image hv stream url) (tell_all-Holds Q hv _) (fetch_image-Holds stream url))
            (λ _.
              Holds-attempt Q hv (finish_stream stream) _ _
                (Holds->>= Q (tell hv (free_volume vol)) (λ _. raise (stream_failed url))
                  (tell-Holds Q hv _) (λ _ t g. g))
                (λ n t g. g)))

  fill_volume-Holds :
      (vol : ℕ) (size : ℤ) (url : Bytes)
      → Holds Q {Ip = Ip} {NetIp = NetIp} (fill_volume hv vol size url)
  unfolding fill_volume
  fill_volume-Holds vol size url =
      Holds-attempt Q hv new_stream _ _
        (Holds->>= Q (tell hv (free_volume vol)) (λ _. raise (stream_failed url))
          (tell-Holds Q hv _) (λ _ t g. g))
        (λ stream.
          Holds-finally Q (tell hv (free_stream stream)) _ (tell-Holds Q hv _)
            (upload_image-Holds vol stream size url))

  module _ (image_name : Bytes → Option Bytes) (marshal : StorageVolume → Option Bytes) where
    named_volume-Holds :
        (pool : ℕ) (url : Bytes) (size : ℤ) (xml : Option Bytes)
        → Holds Q {Ip = Ip} {NetIp = NetIp} (named_volume hv image_name marshal pool url size xml)
    unfolding named_volume
    named_volume-Holds pool url size none s h = h
    named_volume-Holds pool url size (some xml) s h =
        Holds-attempt Q hv (create_volume pool xml) _ _ (λ t g. g)
          (λ vol. fill_volume-Holds vol size url) s h

    create_volume_from_url-Holds :
        (pool : ℕ) (url : Bytes)
        → Holds Q {Ip = Ip} {NetIp = NetIp} (create_volume_from_url hv image_name marshal pool url)
    unfolding create_volume_from_url
    create_volume_from_url-Holds pool url s h = elim (Option-cases (image_name url)) [
      | inl e ↦ rw (e, create_volume_from_url) h
      | inr (name, e) ↦
          rw (e, create_volume_from_url)
            (Holds->>= Q (fetch_image_content_length hv url) _ (fetch_length-Holds url)
              (λ size. named_volume-Holds pool url size (marshal (new_volume name size))) s h)
    ]

    look_up_images-Holds :
        (pool : ℕ) (order : List Bytes) (have : Dict ℕ) (want : Dict (Unit {0}))
        → Holds Q {Ip = Ip} {NetIp = NetIp}
            (look_up_images hv image_name marshal pool order have want)
    unfolding look_up_images
    look_up_images-Holds pool [] have want s h = h
    look_up_images-Holds pool (k ∷ order) have want s h =
        elim (Option-cases (lookup k s.runner.devices)) [
          | inl e ↦ rw (e, look_up_images) (look_up_images-Holds pool order have want s h)
          | inr (d, e) ↦ elim (List-cases (os_image d.device)) [
            | inl f ↦ rw (e, f, look_up_images) (look_up_images-Holds pool order have want s h)
            | inr (c, cs, f) ↦ elim (Option-cases (image_name (c ∷ cs))) [
              | inl g ↦ rw (e, f, g, look_up_images) h
              | inr (name, g) ↦
                  rw (e, f, g, look_up_images)
                    (Holds-attempt Q hv (lookup_volume pool name) _ _
                      (look_up_images-Holds pool order have (insert (c ∷ cs) tt want))
                      (λ vol. look_up_images-Holds pool order (insert (c ∷ cs) vol have) want) s h)
            ]
          ]
        ]

    arrived-Holds :
        (url : Bytes) (so_far : Dict ℕ × Option Error) (r : Outcome Error ℕ × Session Ip NetIp)
        → Held Q r.1
        → Held Q (arrived hv image_name marshal url so_far r).1
    unfolding arrived
    arrived-Holds url (have, first) (panic, t) h = h
    arrived-Holds url (have, first) (ok vol, t) h = h
    arrived-Holds url (have, none) (err e, t) h = h
    arrived-Holds url (have, some f) (err e, t) h = h

    receive_images-Holds :
        (pool : ℕ) (arrivals : List Bytes) (want : Dict (Unit {0})) (so_far : Dict ℕ × Option Error)
        → Holds Q {Ip = Ip} {NetIp = NetIp}
            (receive_images hv image_name marshal pool arrivals want so_far)
    unfolding receive_images
    receive_images-Holds pool [] want so_far s h = h
    receive_images-Holds pool (url ∷ arrivals) want so_far s h =
        elim (Option-cases (lookup url want)) [
          | inl e ↦ rw (e, receive_images) (receive_images-Holds pool arrivals want so_far s h)
          | inr (u, e) ↦
              rw (e, receive_images)
                (Holds-continue Q (receive_images hv image_name marshal pool arrivals want)
                  (arrived hv image_name marshal url so_far
                    (create_volume_from_url hv image_name marshal pool url s))
                  (arrived-Holds url so_far _ (create_volume_from_url-Holds pool url s h))
                  (receive_images-Holds pool arrivals want))
        ]

    keep_images-Holds :
        (urls : List Bytes) (so_far : Dict ℕ × Option Error)
        → Holds Q {Ip = Ip} {NetIp = NetIp} (keep_images hv image_name marshal urls so_far)
    unfolding keep_images
    keep_images-Holds urls (have, none) s h = h
    keep_images-Holds urls (have, some e) s h =
        Holds->>= Q (tell_all hv (free_images urls have)) (λ _. raise e) (tell_all-Holds Q hv _)
          (λ _ t g. g) s h

    pub download_base_images-Holds :
        (order arrivals urls : List Bytes)
        → Holds Q {Ip = Ip} {NetIp = NetIp}
            (download_base_images hv image_name marshal order arrivals urls)
    unfolding download_base_images
    download_base_images-Holds order arrivals urls s =
        Holds-attempt Q hv (lookup_pool s.runner.storage_pool) _ _ (λ t h. h)
          (λ pool. Holds-finally Q (tell hv (free_pool pool)) _ (tell-Holds Q hv _) (
            Holds->>= Q {Ip = Ip} {NetIp = NetIp}
              (look_up_images hv image_name marshal pool order [] []) _
              (look_up_images-Holds pool order [] [])
              (λ (have, want).
                Holds->>= Q {Ip = Ip} {NetIp = NetIp}
                  (receive_images hv image_name marshal pool arrivals want (have, none)) _
                  (receive_images-Holds pool arrivals want (have, none)) (keep_images-Holds urls))))
          s
