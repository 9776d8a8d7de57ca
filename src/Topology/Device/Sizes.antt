-- ===== src/Topology/Device/Sizes.antt =====
-- `Memory` and `DiskSize` of topology/device.go on attributes that are decimal numbers.
use runtopo.Prelude.{
  ℕ, ◌+◌, ◌-◌, ◌*◌, ◌^◌, ◌<◌, ◌≤◌, ◌≡◌, refl, ap, ◌∙◌, true, false, some, [], ◌∷◌, arith, Bytes,
  All, codes, ◌==◌,
}
use runtopo.Prelude.Int.{pos, negsuc, shl64, wrap64}
use runtopo.Strconv.{is_digit, scan_digits, scan_prefix, has_underscore, parse_int}
use runtopo.Strconv.Decimal.{decimal}
use runtopo.Topology.Device.{Device, attr, memory, disk_size}

-- The text is the number in decimal, with no zero in front.
pub record Spells (n : ℕ) (s : Bytes) : Type 0 where
  pub first : ℕ
  pub rest : Bytes
  pub text : s ≡ first ∷ rest
  pub digits : All (λ c. is_digit c ≡ true) (first ∷ rest)
  pub no_zero : (first == b'0') ≡ false
  pub value : decimal 0 (first ∷ rest) ≡ n

scan_digits-decimal :
    (n : ℕ) (s : Bytes)
    → All (λ c. is_digit c ≡ true) s
    → scan_digits true 10 n s ≡ some (decimal n s)
unfolding scan_digits is_digit
scan_digits-decimal n [] h = refl
scan_digits-decimal n (c ∷ s) (hc, hs) =
    ground (arith, scan_digits-decimal (n * 10 + (c - b'0')) s hs)

has_underscore-digits : (s : Bytes) → All (λ c. is_digit c ≡ true) s → has_underscore s ≡ false
unfolding has_underscore is_digit
has_underscore-digits [] h = refl
has_underscore-digits (c ∷ s) (hc, hs) = ground (arith, has_underscore-digits s hs)

scan_prefix-decimal :
    (c : ℕ) (s : Bytes) → (c == b'0') ≡ false → scan_prefix (c ∷ s) ≡ scan_digits true 10 0 (c ∷ s)
unfolding scan_prefix
scan_prefix-decimal c [] h = rw h
scan_prefix-decimal c (a ∷ []) h = rw h
scan_prefix-decimal c (a ∷ b ∷ s) h = rw h

parse_int-decimal :
    (c : ℕ) (s : Bytes)
    → All (λ d. is_digit d ≡ true) (c ∷ s)
    → (c == b'0') ≡ false
    → decimal 0 (c ∷ s) < 2 ^ 63
    → parse_int (c ∷ s) ≡ some (pos (decimal 0 (c ∷ s)))
unfolding parse_int is_digit
parse_int-decimal c s h z fits = ground (
  arith,
  has_underscore-digits (c ∷ s) h,
  scan_prefix-decimal c s z,
  scan_digits-decimal 0 (c ∷ s) h,
)

parse_int-Spells : (n : ℕ) (s : Bytes) → Spells n s → n < 2 ^ 63 → parse_int s ≡ some (pos n)
parse_int-Spells n s h fits =
    ap parse_int h.text
    ∙ parse_int-decimal h.first h.rest h.digits h.no_zero (omega (arith, h.value))
    ∙ ap (λ k. some (pos k)) h.value

small_shift : (n k : ℕ) → n * 2 ^ k < 2 ^ 63 → shl64 (pos n) k ≡ pos (n * 2 ^ k)
unfolding shl64 wrap64
small_shift n k h = fits (n * 2 ^ k) h
  where
    fits : (m : ℕ) → m < 2 ^ 63 → wrap64 (pos m) ≡ pos m
    fits m h = ground arith

large_shift :
    (n k : ℕ) → 2 ^ 63 ≤ n * 2 ^ k → n * 2 ^ k < 2 ^ 64 → (m : ℕ) × (shl64 (pos n) k ≡ negsuc m)
unfolding shl64 wrap64
large_shift n k low high = wraps (n * 2 ^ k) low high
  where
    wraps : (m : ℕ) → 2 ^ 63 ≤ m → m < 2 ^ 64 → (j : ℕ) × (wrap64 (pos m) ≡ negsuc j)
    wraps m low high = (2 ^ 64 - 1 - m, ground arith)

module _ {Ip : Type 0} where
  -- An attribute memory that is a decimal number below 2 ^ 43 is the memory's size in MiB.
  pub memory-mib :
      (d : Device Ip) (n : ℕ)
      → Spells n (attr d (codes "memory"))
      → n < 2 ^ 43
      → memory d ≡ pos (n * 2 ^ 20)
  unfolding memory
  memory-mib d n h small =
      rw (parse_int-Spells n _ h (omega arith)) (small_shift n 20 (omega arith))

  -- For an attribute memory that is a decimal number from 2 ^ 43 on and below 2 ^ 44, the shift wraps
  -- around and the size is negative.
  pub memory-negative :
      (d : Device Ip) (n : ℕ)
      → Spells n (attr d (codes "memory"))
      → 2 ^ 43 ≤ n
      → n < 2 ^ 44
      → (m : ℕ) × (memory d ≡ negsuc m)
  unfolding memory
  memory-negative d n h big small =
      let (m, e) = large_shift n 20 (omega arith) (omega arith) in
      (m, rw (parse_int-Spells n _ h (omega arith)) e)

  -- An attribute disk that is a decimal number below 2 ^ 33 is the disk's size in GiB.
  pub disk_size-gib :
      (d : Device Ip) (n : ℕ)
      → Spells n (attr d (codes "disk"))
      → n < 2 ^ 33
      → disk_size d ≡ pos (n * 2 ^ 30)
  unfolding disk_size
  disk_size-gib d n h small =
      rw (parse_int-Spells n _ h (omega arith)) (small_shift n 30 (omega arith))
