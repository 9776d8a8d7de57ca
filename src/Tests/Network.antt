-- ===== src/Tests/Network.antt =====
-- Addresses as numbers, where 0 is the zero address; sets of addresses as lists.
use runtopo.Prelude.{
  ℕ, zero, suc, ◌+◌, ◌≡◌, refl, Bool, true, false, ◌&&◌, Bytes, codes, str_eq, Option, none, some,
  List, [], ◌∷◌, ◌++◌, arith, ltb, leb, ◌==◌, if◌then◌else◌,
}
use runtopo.Topology.Netaddr.{Netaddr, IsNetaddr}

-- The address itself, the number below the first address, and how many there are.
pub record Range : Type 0 where
  pub ip : ℕ
  pub below : ℕ
  pub count : ℕ

unfoldable pub span : ℕ → ℕ → List ℕ
span n zero = []
span n (suc k) = suc n ∷ span (suc n) k

unfoldable pub member : List ℕ → ℕ → Bool
member [] a = false
member (b ∷ bs) a = if b == a then true else member bs a

unfoldable pub without : List ℕ → ℕ → List ℕ
without [] a = []
without (b ∷ bs) a = if b == a then without bs a else b ∷ without bs a

unfoldable pub in_range : Range → ℕ → Bool
in_range r a = ltb r.below a && leb a (r.below + r.count)

-- The prefix of the management server, cut to eight addresses, and one address in it.
unfoldable pub read_range : Bytes → Option Range
read_range s =
    if str_eq s (codes "192.168.200.254/24")
    then some (record { ip = 1006; below = 999; count = 8 })
    else none

unfoldable pub read_ip : Bytes → Option ℕ
read_ip s = if str_eq s (codes "192.168.200.3") then some 1003 else none

abbrev pub net : Netaddr
net = record {
  Ip = ℕ;
  IpPrefix = Range;
  Builder = List ℕ;
  zero_ip = 0;
  is_zero = λ a. a == 0;
  ip_eq = λ a b. a == b;
  parse_ip = read_ip;
  parse_ip_prefix = read_range;
  prefix_ip = λ r. r.ip;
  masked_ip = λ r. suc r.below;
  range_to = λ r. r.below + r.count;
  prefix_contains = in_range;
  empty = [];
  add_prefix = λ b r. span r.below r.count ++ b;
  remove = without;
  contains = member;
  ranges_from = λ b. b;
}

member-span :
    (n k : ℕ) (bs : List ℕ) (a : ℕ)
    → member (span n k ++ bs) a ≡ (if ltb n a && leb a (n + k) then true else member bs a)
unfolding member span
member-span n zero bs a = ground arith
member-span n (suc k) bs a = ground (arith, member-span (suc n) k bs a)

member-without :
    (bs : List ℕ) (a c : ℕ) → member (without bs a) c ≡ (if a == c then false else member bs c)
unfolding member without
member-without [] a c = ground arith
member-without (b ∷ bs) a c = ground (arith, member-without bs a c)

read_ip_positive : (s : Bytes) (a : ℕ) → read_ip s ≡ some a → (a == 0) ≡ false
unfolding read_ip
read_ip_positive s a h = ground arith

pub net-IsNetaddr : IsNetaddr net
unfolding in_range member
net-IsNetaddr = record {
  ip_eq_iff = λ a b. ground arith;
  is_zero-zero_ip = refl;
  is_zero-parse_ip = read_ip_positive;
  is_zero-prefix = λ p a h. ground arith;
  contains-empty = λ a. refl;
  contains-add_prefix = λ b p a. member-span p.below p.count b a;
  contains-remove = member-without;
  contains-ranges_from = λ b a rest h. ground arith;
  contains-no_ranges = λ b a h. ground arith;
}
