-- ===== src/Topology/Parse/Endpoints.antt =====
-- The links of each device, the last loop of `Parse`.
use runtopo.Prelude.{
  ◌≡◌, refl, sym, ap, ◌∙◌, ◌&&◌, ◌||◌, not, Bytes, str_eq, str_eq_iff, Option, none, some, List, [],
  ◌∷◌, ◌++◌, append_assoc, append-nil, ok, >>=-eq-ok, ok-injective, if◌then◌else◌, Bool-cases,
  Option-cases, inl, inr,
}
use runtopo.Prelude.Dict.{Dict, lookup, lookup-insert}
use runtopo.Topology.AutoMgmt.{is_empty}
use runtopo.Topology.Device.{Device}
use runtopo.Topology.Link.{Link}
use runtopo.Topology.Netaddr.{Netaddr}
use runtopo.Topology.Parse.{add_link, add_ends, attach_link, attach_links, is_missing, is_mgmt_port}

-- The link as often as the device of that name is an end of it.
pub at_ends : Bytes → Link → List Link
at_ends k l =
    (if str_eq l.from k then l ∷ [] else [])
    ++ (if is_empty l.to then [] else if str_eq l.to k then l ∷ [] else [])

pub incident : Bytes → List Link → List Link
incident k [] = []
incident k (l ∷ ls) = at_ends k l ++ incident k ls

module _ (N : Netaddr) where
  open N use {Ip}

  abbrev pub with_links : List Link → Option (Device Ip) → Option (Device Ip)
  with_links ls none = none
  with_links ls (some d) = some (record d { links = d.links ++ ls })

  with_links-nil : (o : Option (Device Ip)) → with_links [] o ≡ o
  with_links-nil none = refl
  with_links-nil (some d) = rw append-nil

  with_links-append :
      (xs ys : List Link) (o : Option (Device Ip))
      → with_links ys (with_links xs o) ≡ with_links (xs ++ ys) o
  with_links-append xs ys none = refl
  with_links-append xs ys (some d) = rw append_assoc

  lookup-add_link :
      (key k : Bytes) (l : Link) (devs devs' : Dict (Device Ip))
      → add_link N key l devs ≡ ok devs'
      → lookup k devs' ≡ with_links (if str_eq key k then l ∷ [] else []) (lookup k devs)
  unfolding add_link
  lookup-add_link key k l devs devs' h = elim (Option-cases (lookup key devs)) [
    | inl e ↦ absurd (cc (rw (e, add_link) at h))
    | inr (d, e) ↦
        ap (lookup k) (sym (ok-injective (rw (e, add_link) at h)))
        ∙ lookup-insert key k (record d { links = d.links ++ l ∷ [] }) devs
        ∙ (elim (Bool-cases (str_eq key k)) [
          | inl f ↦ rw (f, ← (str_eq_iff key k).0 f, e)
          | inr f ↦ rw (f, with_links-nil)
        ])
  ]

  second_end :
      (k : Bytes) (l : Link) (devs devs' : Dict (Device Ip))
      → (if is_empty l.to then ok devs else add_link N l.to l devs) ≡ ok devs'
      → lookup k devs'
        ≡ with_links
            (if is_empty l.to then [] else if str_eq l.to k then l ∷ [] else [])
            (lookup k devs)
  second_end k l devs devs' h = elim (Bool-cases (is_empty l.to)) [
    | inl e ↦ rw e (ap (lookup k) (sym (ok-injective (rw e at h))) ∙ sym (with_links-nil _))
    | inr e ↦ rw e (lookup-add_link l.to k l devs devs' (rw e at h))
  ]

  lookup-add_ends :
      (k : Bytes) (l : Link) (devs devs' : Dict (Device Ip))
      → add_ends N l devs ≡ ok devs'
      → lookup k devs' ≡ with_links (at_ends k l) (lookup k devs)
  unfolding add_ends at_ends
  lookup-add_ends k l devs devs' h =
      let (m, first, rest) = >>=-eq-ok (add_link N l.from l devs) _ h in
      second_end k l m devs' rest
      ∙ ap (with_links _) (lookup-add_link l.from k l devs m first)
      ∙ with_links-append _ _ (lookup k devs)

  lookup-attach_link :
      (k : Bytes) (l : Link) (devs devs' : Dict (Device Ip))
      → attach_link N l devs ≡ ok devs'
      → lookup k devs' ≡ with_links (at_ends k l) (lookup k devs)
  unfolding attach_link
  lookup-attach_link k l devs devs' h =
      elim (Bool-cases ((is_missing l.from devs || is_missing l.to devs) && not (is_mgmt_port l))) [
        | inl e ↦ absurd (cc (rw e at h))
        | inr e ↦ lookup-add_ends k l devs devs' (rw e at h)
      ]

  -- Where the loop returns no error, each device has its earlier links and then those that it is an
  -- end of, in their order, a link from a device to itself twice; and no device comes or goes.
  pub lookup-attach_links :
      (k : Bytes) (ls : List Link) (devs devs' : Dict (Device Ip))
      → attach_links N ls devs ≡ ok devs'
      → lookup k devs' ≡ with_links (incident k ls) (lookup k devs)
  unfolding attach_links incident
  lookup-attach_links k [] devs devs' h =
      ap (lookup k) (sym (ok-injective h)) ∙ sym (with_links-nil _)
  lookup-attach_links k (l ∷ ls) devs devs' h =
      let (m, first, rest) = >>=-eq-ok (attach_link N l devs) _ h in
      lookup-attach_links k ls m devs' rest
      ∙ ap (with_links _) (lookup-attach_link k l devs m first)
      ∙ with_links-append _ _ (lookup k devs)
