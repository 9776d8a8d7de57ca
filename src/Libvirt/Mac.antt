-- ===== src/Libvirt/Mac.antt =====
-- `macAddrFromUint64` of runner/libvirt/helper.go, and the number that `buildInventory` makes of the
-- base address.
use runtopo.Prelude.{
  ℕ, ◌+◌, ◌*◌, ◌/◌, ◌%◌, ◌^◌, ◌<◌, ◌≡◌, [], ◌∷◌, arith, Bytes, ◌==◌, Outcome, ok, panic,
  if◌then◌else◌, Option, none, some,
}
use runtopo.Errors.{Error}

-- The last six of the eight bytes, the most significant one first. `x & ((1<<48)-1)` is the
-- remainder by 2 ^ 48.
unfoldable pub mac_addr_from_uint64 : ℕ → Outcome Error Bytes
mac_addr_from_uint64 x =
    if x % 2 ^ 48 == x
    then ok (
        x / 2 ^ 40 % 256
        ∷ x / 2 ^ 32 % 256
        ∷ x / 2 ^ 24 % 256
        ∷ x / 2 ^ 16 % 256
        ∷ x / 2 ^ 8 % 256
        ∷ x % 256
        ∷ [])
    else panic

-- `macInt = macInt<<8 | uint64(b)` for each byte of the base; the shift leaves the low byte free.
unfoldable pub mac_int_from : ℕ → Bytes → ℕ
mac_int_from n [] = n
mac_int_from n (b ∷ bs) = mac_int_from (n * 256 % 2 ^ 64 + b) bs

-- The bytes of a number below 2 ^ 48 put together again.
bytes_of :
    (x : ℕ)
    → x < 2 ^ 48
    → ((((x / 2 ^ 40 % 256 * 256 + x / 2 ^ 32 % 256) * 256 + x / 2 ^ 24 % 256) * 256
                + x / 2 ^ 16 % 256)
              * 256
            + x / 2 ^ 8 % 256)
          * 256
        + x % 256
      ≡ x
bytes_of x h = omega arith

-- Where `macAddrFromUint64` returns an address for a number, the loop that reads the base address
-- reads that number back from it.
pub mac_int_from-mac_addr :
    (x : ℕ) (mac : Bytes) → mac_addr_from_uint64 x ≡ ok mac → mac_int_from 0 mac ≡ x
unfolding mac_addr_from_uint64 mac_int_from
mac_int_from-mac_addr x mac h = ground (arith, bytes_of x)

-- It returns one for small numbers only.
pub mac_addr_small : (x : ℕ) (mac : Bytes) → mac_addr_from_uint64 x ≡ ok mac → x < 2 ^ 48
unfolding mac_addr_from_uint64
mac_addr_small x mac h = ground arith

-- `mustParseMAC`, on what `net.ParseMAC` returns.
unfoldable pub must_parse_mac : Option Bytes → Outcome Error Bytes
must_parse_mac none = panic
must_parse_mac (some hw) = ok hw
