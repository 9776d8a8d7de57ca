-- ===== src/Libvirt/Inventory/Devices/Addresses.antt =====
-- The addresses of virtual BMCs whose ports count up are different.
use runtopo.Prelude.{
  ℕ, ◌+◌, ◌<◌, ◌≡◌, ◌≢◌, sym, subst, ◌∙◌, Bytes, codes, List, [], ◌∷◌, ◌++◌, arith, All, Bool-cases,
  inl, inr,
}
use mathlib.Core.List.{append_cancel_left}
use runtopo.Strconv.Format.{format_decimal, format_decimal-injective}
use runtopo.Libvirt.Device.{HostBmc}
use runtopo.Libvirt.Vbmc.{has_colon, join_host_port}

-- The addresses count up from a port.
abbrev pub Numbered : Bytes → ℕ → List HostBmc → Type 0
Numbered addr n [] = Unit
Numbered addr n (b ∷ bs) =
    (b.bmc.addr ≡ join_host_port addr (format_decimal n)) × Numbered addr (n + 1) bs

-- No two of them listen on one address.
abbrev pub DistinctAddrs : List HostBmc → Type 0
DistinctAddrs [] = Unit
DistinctAddrs (b ∷ bs) = All (λ c. c.bmc.addr ≢ b.bmc.addr) bs × DistinctAddrs bs

join_host_port-injective :
    (host p q : Bytes) → join_host_port host p ≡ join_host_port host q → p ≡ q
unfolding join_host_port
join_host_port-injective host p q h = elim (Bool-cases (has_colon host)) [
  | inl e ↦ append_cancel_left (codes "[" ++ host ++ codes "]:") p q (rw (e, join_host_port) at h)
  | inr e ↦ append_cancel_left (host ++ codes ":") p q (rw (e, join_host_port) at h)
]

Numbered-later :
    (addr : Bytes) (m n : ℕ) (bs : List HostBmc)
    → m < n
    → Numbered addr n bs
    → All (λ c. c.bmc.addr ≢ join_host_port addr (format_decimal m)) bs
Numbered-later addr m n [] lt h = tt
Numbered-later addr m n (b ∷ bs) lt (h, hs) = (
  λ e.
      absurd (
        omega
          (arith, format_decimal-injective n m (join_host_port-injective addr _ _ (sym h ∙ e)))),
  Numbered-later addr m (n + 1) bs (omega arith) hs,
)

pub Numbered-Distinct :
    (addr : Bytes) (n : ℕ) (bs : List HostBmc) → Numbered addr n bs → DistinctAddrs bs
Numbered-Distinct addr n [] h = tt
Numbered-Distinct addr n (b ∷ bs) (h, hs) = (
  subst (λ a. All (λ c. c.bmc.addr ≢ a) bs) (sym h)
      (Numbered-later addr n (n + 1) bs (omega arith) hs),
  Numbered-Distinct addr (n + 1) bs hs,
)
