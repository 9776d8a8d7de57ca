-- ===== src/Topology/Netaddr.antt =====
-- What topology/ uses of the package inet.af/netaddr, which is not part of the repository: addresses,
-- prefixes, and `IPSetBuilder` with the `IPSet` that it builds. The operations are parameters of the
-- model, and `IsNetaddr` is what that package documents of them.
use runtopo.Prelude.{◌≡◌, ◌↔◌, Bool, true, false, Option, some, List, [], ◌∷◌, Bytes, if◌then◌else◌}

pub record Netaddr : Type 1 where
  pub Ip : Type 0
  pub IpPrefix : Type 0
  pub Builder : Type 0
  -- `IP{}` and `IsZero`
  pub zero_ip : Ip
  pub is_zero : Ip → Bool
  -- `==` on addresses
  pub ip_eq : Ip → Ip → Bool
  pub parse_ip : Bytes → Option Ip
  pub parse_ip_prefix : Bytes → Option IpPrefix
  -- `p.IP`, `p.Masked().IP`, `p.Range().To`, `p.Contains(ip)`
  pub prefix_ip : IpPrefix → Ip
  pub masked_ip : IpPrefix → Ip
  pub range_to : IpPrefix → Ip
  pub prefix_contains : IpPrefix → Ip → Bool
  -- `IPSetBuilder`: its zero value, `AddPrefix`, `Remove`
  pub empty : Builder
  pub add_prefix : Builder → IpPrefix → Builder
  pub remove : Builder → Ip → Builder
  -- `b.IPSet().Contains(ip)`, and the field `From` of each range of `b.IPSet().Ranges()`
  pub contains : Builder → Ip → Bool
  pub ranges_from : Builder → List Ip

module _ (N : Netaddr) where
  open N use {
    Ip, IpPrefix, Builder, zero_ip, is_zero, ip_eq, parse_ip, prefix_contains, empty, add_prefix,
    remove, contains, ranges_from,
  }

  pub record IsNetaddr : Type 0 where
    pub ip_eq_iff : (a b : Ip) → (ip_eq a b ≡ true) ↔ (a ≡ b)
    pub is_zero-zero_ip : is_zero zero_ip ≡ true
    -- No address that was read, and no address of a prefix, is the zero value.
    pub is_zero-parse_ip : (s : Bytes) (a : Ip) → parse_ip s ≡ some a → is_zero a ≡ false
    pub is_zero-prefix : (p : IpPrefix) (a : Ip) → prefix_contains p a ≡ true → is_zero a ≡ false
    pub contains-empty : (a : Ip) → contains empty a ≡ false
    pub contains-add_prefix :
        (b : Builder) (p : IpPrefix) (a : Ip)
        → contains (add_prefix b p) a ≡ (if prefix_contains p a then true else contains b a)
    pub contains-remove :
        (b : Builder) (a c : Ip)
        → contains (remove b a) c ≡ (if ip_eq a c then false else contains b c)
    -- A range begins with an address of the set, and a set with no range is empty.
    pub contains-ranges_from :
        (b : Builder) (a : Ip) (rest : List Ip) → ranges_from b ≡ a ∷ rest → contains b a ≡ true
    pub contains-no_ranges : (b : Builder) (a : Ip) → ranges_from b ≡ [] → contains b a ≡ false
