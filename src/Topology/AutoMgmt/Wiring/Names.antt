-- ===== src/Topology/AutoMgmt/Wiring/Names.antt =====
-- The links that the second loop of `setupAutoMgmtNetwork` of topology/topology.go adds, by the names of
-- the devices that are attached.
use runtopo.Prelude.{
  ℕ, ◌+◌, ◌≡◌, refl, sym, ap, ◌∙◌, true, Bytes, Option, none, some, List, [], ◌∷◌, if◌then◌else◌,
  str_eq, str_eq_iff, Bool-cases, inl, inr,
}
use runtopo.Prelude.Dict.{Dict, lookup, insert, lookup-insert}
use runtopo.Topology.Device.{Device, attr, has_function, function}
use runtopo.Topology.Link.{Link}
use runtopo.Topology.Netaddr.{Netaddr}
use runtopo.Topology.AutoMgmt.{is_attached, is_oob_or_fake, switch_link}

-- Links to the named devices, on consecutive ports.
unfoldable pub number_links : Bytes → ℕ → List Bytes → List Link
number_links switch i [] = []
number_links switch i (name ∷ names) = switch_link switch i name ∷ number_links switch (i + 1) names

module _ (N : Netaddr) where
  open N use {Ip}

  -- The name of a device that is there and is attached.
  abbrev pub attached_name : Option (Device Ip) → Option Bytes
  attached_name none = none
  attached_name (some d) = if is_attached N d then some d.name else none

  abbrev cons_some : Option Bytes → List Bytes → List Bytes
  cons_some none names = names
  cons_some (some name) names = name ∷ names

  -- The names of the attached devices among the visited ones.
  unfoldable pub attached_names : Dict (Device Ip) → List Bytes → List Bytes
  attached_names devs [] = []
  attached_names devs (k ∷ order) =
      cons_some (attached_name (lookup k devs)) (attached_names devs order)

  -- A device whose address alone may differ.
  abbrev pub SameDevice : Device Ip → Device Ip → Type 0
  SameDevice d d' = (d'.name ≡ d.name) × (d'.attrs ≡ d.attrs)

  pub attached_name-same :
      (d d' : Device Ip) → SameDevice d d' → attached_name (some d') ≡ attached_name (some d)
  unfolding is_attached is_oob_or_fake attr has_function function
  attached_name-same d d' (n, t) = rw (n, t)

  pub attached_name-insert :
      (devs : Dict (Device Ip)) (k j : Bytes) (d d' : Device Ip)
      → lookup k devs ≡ some d
      → SameDevice d d'
      → attached_name (lookup j (insert k d' devs)) ≡ attached_name (lookup j devs)
  attached_name-insert devs k j d d' look same = elim (Bool-cases (str_eq k j)) [
    | inl e ↦
        rw (lookup-insert, e)
          (attached_name-same d d' same
            ∙ ap attached_name (sym look ∙ ap (λ i. lookup i devs) ((str_eq_iff k j).0 e)))
    | inr e ↦ rw (lookup-insert, e)
  ]

  pub attached_names_congr :
      (devs devs' : Dict (Device Ip)) (order : List Bytes)
      → ((k : Bytes) → attached_name (lookup k devs') ≡ attached_name (lookup k devs))
      → attached_names devs' order ≡ attached_names devs order
  unfolding attached_names
  attached_names_congr devs devs' [] same = refl
  attached_names_congr devs devs' (k ∷ order) same =
      cc (same k, attached_names_congr devs devs' order same)

  -- A name was shown, so there is an attached device.
  pub attached_name-some :
      (o : Option (Device Ip)) {name : Bytes}
      → attached_name o ≡ some name
      → (d : Device Ip) × (o ≡ some d) × (is_attached N d ≡ true)
  attached_name-some none h = cc
  attached_name-some (some d) h = elim (Bool-cases (is_attached N d)) [
    | inl e ↦ (d, refl, e)
    | inr e ↦ absurd (cc (rw e at h))
  ]
