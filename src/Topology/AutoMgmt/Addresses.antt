-- ===== src/Topology/AutoMgmt/Addresses.antt =====
-- The management addresses that the two loops of `setupAutoMgmtNetwork` give to devices.
use runtopo.Prelude.{
  ◌≡◌, ◌≢◌, ◌⊎◌, refl, sym, ap, ◌∙◌, true, false, Bytes, Option, none, some, List, [], ◌∷◌, arith,
  ok, >>=-eq-ok, ok-pair, if◌then◌else◌, str_eq, str_eq_iff, Bool-cases, Option-cases, inl, inr,
  ◌||◌, not, codes,
}
use runtopo.Prelude.Dict.{Dict, lookup, insert, lookup-insert, lookup-insert_same}
use runtopo.Topology.Device.{Device, attr}
use runtopo.Topology.Netaddr.{Netaddr, IsNetaddr}
use runtopo.Topology.IpAllocator.{IpAllocator, reserve, allocate}
use runtopo.Topology.IpAllocator.Laws.{free, IsHost, allocate-some}
use runtopo.Topology.AutoMgmt.{
  reserve_explicit, reserve_for, give, reserve_all, allocate_missing, is_oob_or_fake, is_empty,
}

module _ (N : Netaddr) (L : IsNetaddr N) (p : N.IpPrefix) where
  open N use {Ip, ip_eq, is_zero, parse_ip, prefix_ip}

  -- An address that a device may have: a host address of the prefix other than the server's.
  abbrev pub IsUsable : Ip → Type 0
  IsUsable ip = IsHost N p ip × (ip ≢ prefix_ip p)

  -- The address is set.
  abbrev pub HasIp : Device Ip → Type 0
  HasIp d = is_zero d.mgmt_ip ≡ false

  pub record IsAssigned (devs : Dict (Device Ip)) (a : IpAllocator N) : Type 0 where
    pub usable : (k : Bytes) (d : Device Ip) → lookup k devs ≡ some d → HasIp d → IsUsable d.mgmt_ip
    pub taken :
        (k : Bytes) (d : Device Ip) → lookup k devs ≡ some d → HasIp d → free N a d.mgmt_ip ≡ false
    pub distinct :
        (j k : Bytes) (c d : Device Ip)
        → j ≢ k
        → lookup j devs ≡ some c
        → lookup k devs ≡ some d
        → HasIp c
        → HasIp d
        → c.mgmt_ip ≢ d.mgmt_ip
    pub left : (ip : Ip) → free N a ip ≡ true → IsUsable ip

  -- Only `ip` leaves the free addresses.
  abbrev Takes : IpAllocator N → Ip → IpAllocator N → Type 0
  Takes a ip b = (c : Ip) → free N b c ≡ (if ip_eq ip c then false else free N a c)

  -- What a lookup finds after a write: the new device at its key, the old ones elsewhere.
  by_key :
      {C : Type 0} (k : Bytes) (d : Device Ip) (devs : Dict (Device Ip)) (j : Bytes) (e : Device Ip)
      → lookup j (insert k d devs) ≡ some e
      → (k ≡ j → d ≡ e → C)
      → (k ≢ j → lookup j devs ≡ some e → C)
      → C
  by_key k d devs j e look here there = elim (Bool-cases (str_eq k j)) [
    | inl same ↦ here ((str_eq_iff k j).0 same) (ground (arith, lookup-insert k j d devs))
    | inr other ↦
        there (λ q. ground (arith, str_eq_iff k j)) (ground (arith, lookup-insert k j d devs))
  ]

  -- A free address is given to a device.
  assign-IsAssigned :
      {devs : Dict (Device Ip)} (a b : IpAllocator N) (k : Bytes) (d : Device Ip)
      → IsAssigned devs a
      → free N a d.mgmt_ip ≡ true
      → Takes a d.mgmt_ip b
      → IsAssigned (insert k d devs) b
  assign-IsAssigned {devs} a b k d I was takes = record {
    usable = λ j e look has.
        by_key k d devs j e look (λ _ q. rw (← q) (I.left d.mgmt_ip was))
          (λ _ old. I.usable j e old has);
    taken = λ j e look has.
        by_key k d devs j e look
          (λ _ q. rw (← q) (ground (arith, takes d.mgmt_ip, L.ip_eq_iff d.mgmt_ip d.mgmt_ip)))
          (λ _ old. ground (arith, takes e.mgmt_ip, I.taken j e old has));
    distinct = λ i j c e ne look look' has has'.
        by_key k d devs i c look
          (λ ki dc.
            by_key k d devs j e look' (λ kj _. absurd (ne (sym ki ∙ kj)))
              (λ _ old q.
                differ d e was (I.taken j e old has') (ap (λ (x : Device Ip). x.mgmt_ip) dc ∙ q)))
          (λ _ old.
            by_key k d devs j e look'
              (λ _ de q.
                differ d c was (I.taken i c old has) (ap (λ (x : Device Ip). x.mgmt_ip) de ∙ sym q))
              (λ _ old'. I.distinct i j c e ne old old' has has'));
    left = λ c f. I.left c (ground (arith, takes c));
  }
    where
      differ :
          (x y : Device Ip)
          → free N a x.mgmt_ip ≡ true
          → free N a y.mgmt_ip ≡ false
          → x.mgmt_ip ≡ y.mgmt_ip
          → ⊥
      differ x y t f q = cc (ap (free N a) q)

  keep-IsAssigned :
      {devs : Dict (Device Ip)} (a : IpAllocator N) (k : Bytes) (d : Device Ip)
      → lookup k devs ≡ some d
      → IsAssigned devs a
      → IsAssigned (insert k d devs) a
  keep-IsAssigned {devs} a k d look I =
      let same = λ (j : Bytes). lookup-insert_same k j d devs look in
      record {
        usable = λ j e l. I.usable j e (sym (same j) ∙ l);
        taken = λ j e l. I.taken j e (sym (same j) ∙ l);
        distinct = λ i j c e ne l m. I.distinct i j c e ne (sym (same i) ∙ l) (sym (same j) ∙ m);
        left = I.left;
      }

  -- A device is left as it is, or gets an address that was free.
  abbrev pub Settles : Device Ip → IpAllocator N → Device Ip → IpAllocator N → Type 0
  Settles d a d' b =
      ((d' ≡ d) × (b ≡ a))
      ⊎ (ip : Ip) × (d' ≡ record d { mgmt_ip = ip })
        × (free N a ip ≡ true)
        × Takes a ip b
        × (is_zero ip ≡ false)

  pub settle-IsAssigned :
      {devs : Dict (Device Ip)} (d d' : Device Ip) (a b : IpAllocator N) (k : Bytes)
      → Settles d a d' b
      → lookup k devs ≡ some d
      → IsAssigned devs a
      → IsAssigned (insert k d' devs) b
  settle-IsAssigned d d' a b k (inl (e, f)) look I = rw (e, f) (keep-IsAssigned a k d look I)
  settle-IsAssigned d d' a b k (inr (ip, e, was, takes, _)) look I =
      rw e (assign-IsAssigned a b k _ I was takes)

  reserve_for-Settles :
      (d : Device Ip) (a : IpAllocator N) (s : Bytes) (o : Option Ip) {d' : Device Ip}
      {b : IpAllocator N}
      → parse_ip s ≡ o
      → reserve_for N d a o ≡ ok (d', b)
      → Settles d a d' b
  unfolding reserve_for reserve
  reserve_for-Settles d a s none e h = cc
  reserve_for-Settles d a s (some ip) e h = elim (Bool-cases (free N a ip)) [
    | inl f ↦
        let (q, r) = ok-pair (rw f at h) in
        inr (ip, q, f, rw r (λ c. L.contains-remove a.builder ip c), L.is_zero-parse_ip s ip e)
    | inr f ↦ absurd (cc (rw f at h))
  ]

  pub reserve_explicit-Settles :
      (d : Device Ip) (a : IpAllocator N) (d' : Device Ip) (b : IpAllocator N)
      → reserve_explicit N d a ≡ ok (d', b)
      → Settles d a d' b
  unfolding reserve_explicit
  reserve_explicit-Settles d a d' b h =
      let s = attr d (codes "mgmt_ip") in
      elim (Bool-cases (is_oob_or_fake N d)) [
        | inl e ↦ inl (ok-pair (rw e at h))
        | inr e ↦ elim (Bool-cases (is_empty s || not (is_empty (attr d (codes "no_mgmt"))))) [
          | inl f ↦ inl (ok-pair (rw (e, f) at h))
          | inr f ↦ reserve_for-Settles d a s (parse_ip s) refl (rw (e, f) at h)
        ]
      ]

  give-Settles :
      (d : Device Ip) (a : IpAllocator N) (got : Option Ip) {d' : Device Ip} {b : IpAllocator N}
      → ((ip : Ip) → free N a ip ≡ true → IsUsable ip)
      → (allocate N a).1 ≡ got
      → give N d ((allocate N a).0, got) ≡ ok (d', b)
      → Settles d a d' b × HasIp d'
  unfolding give
  give-Settles d a none left e h = cc
  give-Settles d a (some ip) left e h =
      let (q, r) = ok-pair h in
      let (was, takes) = allocate-some N L a ip e in
      let set = L.is_zero-prefix p ip (left ip was).0.0 in
      (inr (ip, q, was, rw r takes, set), rw q set)

  pub allocate_missing-Settles :
      (d : Device Ip) (a : IpAllocator N) (d' : Device Ip) (b : IpAllocator N)
      → ((ip : Ip) → free N a ip ≡ true → IsUsable ip)
      → allocate_missing N d a ≡ ok (d', b)
      → Settles d a d' b × HasIp d'
  unfolding allocate_missing
  allocate_missing-Settles d a d' b left h = elim (Bool-cases (is_zero d.mgmt_ip)) [
    | inl e ↦ give-Settles d a (allocate N a).1 left refl (rw e at h)
    | inr e ↦ let (q, r) = ok-pair (rw e at h) in (inl (q, r), rw q e)
  ]

  pub reserve_all-IsAssigned :
      (order : List Bytes) (devs : Dict (Device Ip)) (a : IpAllocator N) {devs' : Dict (Device Ip)}
      {b : IpAllocator N}
      → IsAssigned devs a
      → reserve_all N order devs a ≡ ok (devs', b)
      → IsAssigned devs' b
  unfolding reserve_all
  reserve_all-IsAssigned [] devs a I h = let (q, r) = ok-pair h in rw (q, r) I
  reserve_all-IsAssigned (k ∷ order) devs a I h = elim (Option-cases (lookup k devs)) [
    | inl e ↦ reserve_all-IsAssigned order devs a I (rw (e, reserve_all) at h)
    | inr (d, e) ↦
        let ((d', c), step, rest) =
          >>=-eq-ok (reserve_explicit N d a) _ (rw (e, reserve_all) at h) in
        reserve_all-IsAssigned order (insert k d' devs) c
          (settle-IsAssigned d d' a c k (reserve_explicit-Settles d a d' c step) e I) rest
  ]
