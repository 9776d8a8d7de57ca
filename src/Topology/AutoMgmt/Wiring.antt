-- ===== src/Topology/AutoMgmt/Wiring.antt =====
-- The links from the management switch to devices, the second loop of `setupAutoMgmtNetwork`.
pub mod Names
use runtopo.Prelude.{
  ℕ, ◌+◌, ◌≡◌, refl, sym, ap, ◌∙◌, true, false, Bytes, Option, none, some, List, [], ◌∷◌, arith, ok,
  >>=-eq-ok, ok-pair, if◌then◌else◌, str_eq, str_eq_iff, Bool-cases, Option-cases, ◌⊎◌, inl, inr,
  In,
}
use runtopo.Prelude.Dict.{Dict, lookup, insert, lookup-insert}
use runtopo.Topology.Device.{Device, attr, has_function, function}
use runtopo.Topology.Link.{Link}
use runtopo.Topology.Netaddr.{Netaddr, IsNetaddr}
use runtopo.Topology.IpAllocator.{IpAllocator}
use runtopo.Topology.AutoMgmt.{allocate_missing, wire_all, is_attached, is_oob_or_fake, switch_link}
use runtopo.Topology.AutoMgmt.Addresses.{
  IsAssigned, HasIp, Settles, allocate_missing-Settles, settle-IsAssigned,
}
use runtopo.Topology.AutoMgmt.Wiring.Names.{
  number_links, attached_name, attached_names, SameDevice, attached_name-same, attached_name-insert,
  attached_names_congr, attached_name-some,
}

module _ (N : Netaddr) where
  open N use {Ip}

  -- A round of the loop over an attached device.
  wire_step :
      (switch k : Bytes) (order : List Bytes) (i : ℕ) (devs : Dict (Device Ip)) (a : IpAllocator N)
      (d : Device Ip) {devs' : Dict (Device Ip)} {ls : List Link}
      → lookup k devs ≡ some d
      → is_attached N d ≡ true
      → wire_all N switch (k ∷ order) i devs a ≡ ok (devs', ls)
      → (d' : Device Ip) × (b : IpAllocator N) × (ls' : List Link) × (allocate_missing N d a
          ≡ ok (d', b))
        × (wire_all N switch order (i + 1) (insert k d' devs) b ≡ ok (devs', ls'))
        × (ls ≡ switch_link switch i d.name ∷ ls')
  unfolding wire_all
  wire_step switch k order i devs a d e f h =
      let ((d', b), first, rest) =
        >>=-eq-ok (allocate_missing N d a) _ (rw (e, f, wire_all) at h) in
      let ((devs'', ls'), second, last) =
        >>=-eq-ok (wire_all N switch order (i + 1) (insert k d' devs) b) _ rest in
      let (q, r) = ok-pair last in (d', b, ls', first, second ∙ ap (λ x. ok (x, ls')) (sym q), r)

-- What the second loop leaves.
module _ (N : Netaddr) (L : IsNetaddr N) (p : N.IpPrefix) where
  open N use {Ip}

  -- A device that the loop reaches and attaches, or that has its address already.
  abbrev pub IsServed : Bytes → Device Ip → List Bytes → Type 0
  IsServed k d order = HasIp N L p d ⊎ (In k order × (is_attached N d ≡ true))

  pub record Wired (switch : Bytes) (order : List Bytes) (i : ℕ) (devs devs' : Dict (Device Ip))
      (ls : List Link) : Type 0 where
    pub allocator : IpAllocator N
    pub assigned : IsAssigned N L p devs' allocator
    pub numbered : ls ≡ number_links switch i (attached_names N devs order)
    pub has_ip :
        (k : Bytes) (d : Device Ip)
        → lookup k devs ≡ some d
        → IsServed k d order
        → (d' : Device Ip) × (lookup k devs' ≡ some d') × HasIp N L p d'

  -- What one device's turn does to another device's service.
  IsServed-later :
      (k j : Bytes) (order : List Bytes) (devs : Dict (Device Ip)) (d d' c : Device Ip)
      → lookup k devs ≡ some d
      → HasIp N L p d'
      → lookup j devs ≡ some c
      → IsServed j c (k ∷ order)
      → (c' : Device Ip) × (lookup j (insert k d' devs) ≡ some c') × IsServed j c' order
  IsServed-later k j order devs d d' c look has look' s = elim (Bool-cases (str_eq k j)) [
    | inl e ↦ (d', rw (lookup-insert, e), inl has)
    | inr e ↦ (c, rw (lookup-insert, e) look', later e s)
  ]
    where
      later : str_eq k j ≡ false → IsServed j c (k ∷ order) → IsServed j c order
      later e (inl h) = inl h
      later e (inr (inl same, t)) = absurd (ground (arith, str_eq_iff k j))
      later e (inr (inr i, t)) = inr (i, t)

  -- A key that the loop passes over is not waiting for it.
  passed :
      (k j : Bytes) (order : List Bytes) (devs : Dict (Device Ip)) (c : Device Ip)
      → attached_name N (lookup k devs) ≡ none
      → lookup j devs ≡ some c
      → IsServed j c (k ∷ order)
      → IsServed j c order
  passed k j order devs c h look (inl has) = inl has
  passed k j order devs c h look (inr (inr i, t)) = inr (i, t)
  passed k j order devs c h look (inr (inl same, t)) = absurd (cc (rw (← same, look, t) at h))

  wire_passed :
      (switch k : Bytes) (order : List Bytes) (i : ℕ) (devs devs' : Dict (Device Ip))
      (ls : List Link)
      → attached_name N (lookup k devs) ≡ none
      → Wired switch order i devs devs' ls
      → Wired switch (k ∷ order) i devs devs' ls
  unfolding attached_names
  wire_passed switch k order i devs devs' ls h W = record {
    allocator = W.allocator;
    assigned = W.assigned;
    numbered = W.numbered ∙ ap (number_links switch i) (rw h);
    has_ip = λ j c look s. W.has_ip j c look (passed k j order devs c h look s);
  }

  wire_attached :
      (switch k : Bytes) (order : List Bytes) (i : ℕ) (devs devs' : Dict (Device Ip))
      (ls : List Link) (d d' : Device Ip)
      → lookup k devs ≡ some d
      → is_attached N d ≡ true
      → SameDevice N d d'
      → HasIp N L p d'
      → Wired switch order (i + 1) (insert k d' devs) devs' ls
      → Wired switch (k ∷ order) i devs devs' (switch_link switch i d.name ∷ ls)
  unfolding attached_names number_links
  wire_attached switch k order i devs devs' ls d d' look att same has W = record {
    allocator = W.allocator;
    assigned = W.assigned;
    numbered = rw (
      look,
      att,
      W.numbered,
      attached_names_congr N devs (insert k d' devs) order
          (λ j. attached_name-insert N devs k j d d' look same),
    );
    has_ip = λ j c look' s.
        let (c', at, s') = IsServed-later k j order devs d d' c look has look' s in
        W.has_ip j c' at s';
  }

  pub Settles-SameDevice :
      (d d' : Device Ip) (a b : IpAllocator N) → Settles N L p d a d' b → SameDevice N d d'
  Settles-SameDevice d d' a b (inl (e, _)) = rw e (refl, refl)
  Settles-SameDevice d d' a b (inr (ip, e, _, _, _)) = rw e (refl, refl)

  wire_done :
      (switch : Bytes) (i : ℕ) (devs : Dict (Device Ip)) (a : IpAllocator N)
      → IsAssigned N L p devs a
      → Wired switch [] i devs devs []
  unfolding attached_names number_links
  wire_done switch i devs a I = record {
    allocator = a;
    assigned = I;
    numbered = refl;
    has_ip = λ k d look s. (d, look, elim s [ inl has ↦ has | inr (i, _) ↦ absurd i ]);
  }

  pub wire_all-Wired :
      (switch : Bytes) (order : List Bytes) (i : ℕ) (devs : Dict (Device Ip)) (a : IpAllocator N)
      (devs' : Dict (Device Ip)) (ls : List Link)
      → IsAssigned N L p devs a
      → wire_all N switch order i devs a ≡ ok (devs', ls)
      → Wired switch order i devs devs' ls
  unfolding wire_all
  wire_all-Wired switch [] i devs a devs' ls I h =
      let (q, r) = ok-pair h in rw (q, r) (wire_done switch i devs a I)
  wire_all-Wired switch (k ∷ order) i devs a devs' ls I h = elim (Option-cases (lookup k devs)) [
    | inl e ↦
        wire_passed switch k order i devs devs' ls (rw e)
          (wire_all-Wired switch order i devs a devs' ls I (rw (e, wire_all) at h))
    | inr (d, e) ↦ elim (Bool-cases (is_attached N d)) [
      | inr f ↦
          wire_passed switch k order i devs devs' ls (rw (e, f))
            (wire_all-Wired switch order i devs a devs' ls I (rw (e, f, wire_all) at h))
      | inl f ↦
          let (d', b, ls', first, second, links) = wire_step N switch k order i devs a d e f h in
          let (settles, has) = allocate_missing-Settles N L p d a d' b I.left first in
          let W =
            wire_all-Wired switch order (i + 1) (insert k d' devs) b devs' ls'
              (settle-IsAssigned N L p d d' a b k settles e I) second in
          rw links (
            wire_attached switch k order i devs devs' ls' d d' e f
              (Settles-SameDevice d d' a b settles) has W)
    ]
  ]
