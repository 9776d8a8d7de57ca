-- ===== src/Topology/IpAllocator/Laws.antt =====
-- `ipAllocator` of topology/helper.go as a set of free addresses.
use runtopo.Prelude.{
  ◌≡◌, ◌≢◌, ◌↔◌, refl, Bool, true, false, Option, none, some, List, [], ◌∷◌, arith, if◌then◌else◌,
  All, Distinct,
}
use runtopo.Topology.Netaddr.{Netaddr, IsNetaddr}
use runtopo.Topology.IpAllocator.{IpAllocator, new_ip_allocator, reserve, allocate, first_of_ranges}

module _ (N : Netaddr) where
  open N use {Ip, IpPrefix, ip_eq, masked_ip, range_to, prefix_contains, contains, ranges_from}

  -- The addresses that can still be handed out.
  abbrev pub free : IpAllocator N → Ip → Bool
  free a ip = contains a.builder ip

  -- A host address of the prefix: neither the network's nor the broadcast address.
  abbrev pub IsHost : IpPrefix → Ip → Type 0
  IsHost p ip = (prefix_contains p ip ≡ true) × (ip ≢ masked_ip p) × (ip ≢ range_to p)

  -- One request to an allocator, and the address that it hands out, if it does.
  pub data Request : Type 0 where
    reserving : Ip → Request
    allocating : Request

  unfoldable pub serve : IpAllocator N → Request → IpAllocator N × Option Ip
  serve a (reserving ip) =
      let (b, success) = reserve N a ip in (b, (if success then some ip else none))
  serve a allocating = allocate N a

  handed : Option Ip → List Ip → List Ip
  handed none out = out
  handed (some ip) out = ip ∷ out

  -- All addresses that a sequence of requests hands out.
  unfoldable pub hand_out : IpAllocator N → List Request → List Ip
  unfolding handed
  hand_out a [] = []
  hand_out a (r ∷ rs) = let (b, got) = serve a r in handed got (hand_out b rs)

  module _ (L : IsNetaddr N) where
    -- A new allocator has exactly the host addresses of its prefix.
    pub free-new : (p : IpPrefix) (ip : Ip) → (free (new_ip_allocator N p) ip ≡ true) ↔ IsHost p ip
    unfolding new_ip_allocator
    free-new p ip =
        rw (L.contains-remove, L.contains-remove, L.contains-add_prefix, L.contains-empty)
          (ground (arith, L.ip_eq_iff (masked_ip p) ip, L.ip_eq_iff (range_to p) ip))

    pub free-reserve :
        (a : IpAllocator N) (ip c : Ip)
        → free (reserve N a ip).0 c ≡ (if ip_eq ip c then false else free a c)
    unfolding reserve
    free-reserve a ip c = ground (arith, L.contains-remove a.builder ip c, L.ip_eq_iff ip c)

    -- `allocate` fails on an allocator with no free address only.
    pub allocate-none :
        (a : IpAllocator N) → (allocate N a).1 ≡ none → (ip : Ip) → free a ip ≡ false
    unfolding allocate
    allocate-none a h ip = go (ranges_from a.builder) refl h
      where
        go :
            (rs : List Ip)
            → ranges_from a.builder ≡ rs
            → (first_of_ranges N a rs).1 ≡ none
            → free a ip ≡ false
        go [] e h = L.contains-no_ranges a.builder ip e
        go (f ∷ rs) e h = cc

    -- The address that `allocate` returns was free, and it alone is so no longer.
    pub allocate-some :
        (a : IpAllocator N) (ip : Ip)
        → (allocate N a).1 ≡ some ip
        → (free a ip ≡ true)
          × ((c : Ip) → free (allocate N a).0 c ≡ (if ip_eq ip c then false else free a c))
    unfolding allocate
    allocate-some a ip h = go (ranges_from a.builder) refl h
      where
        go :
            (rs : List Ip)
            → ranges_from a.builder ≡ rs
            → (first_of_ranges N a rs).1 ≡ some ip
            → (free a ip ≡ true)
              × ((c : Ip)
                  → free (first_of_ranges N a rs).0 c ≡ (if ip_eq ip c then false else free a c))
        go [] e h = cc
        go (f ∷ rs) e h =
            let same : f ≡ ip = cc in
            rw (← same)
              (L.contains-ranges_from a.builder f rs e, λ c. L.contains-remove a.builder f c)

    serve-some :
        (a : IpAllocator N) (r : Request) (ip : Ip)
        → (serve a r).1 ≡ some ip
        → (free a ip ≡ true) × (free (serve a r).0 ip ≡ false)
    unfolding serve reserve
    serve-some a (reserving k) ip h =
        ground (arith, L.contains-remove a.builder k ip, L.ip_eq_iff k ip)
    serve-some a allocating ip h =
        let (was, now) = allocate-some a ip h in (was, rw now (rw ((L.ip_eq_iff ip ip).1 refl)))

    allocate-free :
        {a : IpAllocator N} {c : Ip} (rs : List Ip)
        → ranges_from a.builder ≡ rs
        → free (allocate N a).0 c ≡ true
        → free a c ≡ true
    unfolding allocate
    allocate-free {a} {c} [] e h = rw (e, first_of_ranges) at h
    allocate-free {a} {c} (f ∷ rs) e h =
        let k : free (first_of_ranges N a (f ∷ rs)).0 c ≡ true = rw e at h in
        ground (arith, L.contains-remove a.builder f c)

    -- No request makes an address free.
    serve-free :
        (a : IpAllocator N) (r : Request) (c : Ip) → free (serve a r).0 c ≡ true → free a c ≡ true
    unfolding serve
    serve-free a (reserving k) c h = ground (arith, free-reserve a k c)
    serve-free a allocating c h = allocate-free (ranges_from a.builder) refl h

    abbrev pub FreeIn : IpAllocator N → List Ip → Type 0
    FreeIn a = All (λ ip. free a ip ≡ true)

    FreeIn-serve :
        (a : IpAllocator N) (r : Request) (out : List Ip) → FreeIn (serve a r).0 out → FreeIn a out
    FreeIn-serve a r [] h = tt
    FreeIn-serve a r (c ∷ out) (h, hs) = (serve-free a r c h, FreeIn-serve a r out hs)

    ne_of_free :
        (b : IpAllocator N) (ip : Ip) (out : List Ip)
        → free b ip ≡ false
        → FreeIn b out
        → All (λ other. other ≢ ip) out
    ne_of_free b ip [] gone h = tt
    ne_of_free b ip (c ∷ out) gone (h, hs) = ((λ e. cc), ne_of_free b ip out gone hs)

    handed-Distinct :
        (a : IpAllocator N) (r : Request) (got : Option Ip) (out : List Ip)
        → (serve a r).1 ≡ got
        → Distinct out × FreeIn (serve a r).0 out
        → Distinct (handed got out) × FreeIn a (handed got out)
    unfolding handed
    handed-Distinct a r none out e (d, f) = (d, FreeIn-serve a r out f)
    handed-Distinct a r (some ip) out e (d, f) =
        let (was, gone) = serve-some a r ip e in
        ((ne_of_free (serve a r).0 ip out gone f, d), (was, FreeIn-serve a r out f))

    -- Whatever the requests, the addresses handed out are distinct, and each was free at the start.
    pub hand_out-Distinct :
        (a : IpAllocator N) (rs : List Request)
        → Distinct (hand_out a rs) × FreeIn a (hand_out a rs)
    unfolding hand_out
    hand_out-Distinct a [] = (tt, tt)
    hand_out-Distinct a (r ∷ rs) =
        handed-Distinct a r (serve a r).1 (hand_out (serve a r).0 rs) refl
          (hand_out-Distinct (serve a r).0 rs)

    hosts_of_free :
        (p : IpPrefix) (out : List Ip) → FreeIn (new_ip_allocator N p) out → All (IsHost p) out
    hosts_of_free p [] h = tt
    hosts_of_free p (ip ∷ out) (h, hs) = ((free-new p ip).0 h, hosts_of_free p out hs)

    -- From a new allocator for a prefix, whatever the sequence of reservations and allocations, no
    -- address is handed out twice, and each lies in the prefix and is neither the network's nor the
    -- broadcast address.
    pub hand_out-new :
        (p : IpPrefix) (rs : List Request)
        → Distinct (hand_out (new_ip_allocator N p) rs)
          × All (IsHost p) (hand_out (new_ip_allocator N p) rs)
    hand_out-new p rs =
        let (d, f) = hand_out-Distinct (new_ip_allocator N p) rs in (d, hosts_of_free p _ f)
