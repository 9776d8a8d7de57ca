-- ===== src/Topology/IpAllocator.antt =====
-- `ipAllocator` of topology/helper.go.
pub mod Laws
use runtopo.Prelude.{Bool, true, false, Option, none, some, List, [], ◌∷◌, if◌then◌else◌}
use runtopo.Topology.Netaddr.{Netaddr}

module _ (N : Netaddr) where
  open N use {
    Ip, IpPrefix, Builder, empty, add_prefix, remove, masked_ip, range_to, contains, ranges_from,
  }

  pub record IpAllocator : Type 0 where
    pub builder : Builder

  unfoldable pub new_ip_allocator : IpPrefix → IpAllocator
  new_ip_allocator p = record {
    builder = remove (remove (add_prefix empty p) (masked_ip p)) (range_to p);
  }

  unfoldable pub reserve : IpAllocator → Ip → IpAllocator × Bool
  reserve a ip =
      if contains a.builder ip then (record { builder = remove a.builder ip }, true) else (a, false)

  -- The loop over the ranges returns in its first round.
  first_of_ranges : IpAllocator → List Ip → IpAllocator × Option Ip
  first_of_ranges a [] = (a, none)
  first_of_ranges a (ip ∷ _) = (record { builder = remove a.builder ip }, some ip)

  unfoldable pub allocate : IpAllocator → IpAllocator × Option Ip
  unfolding first_of_ranges
  allocate a = first_of_ranges a (ranges_from a.builder)
