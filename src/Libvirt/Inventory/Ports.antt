-- ===== src/Libvirt/Inventory/Ports.antt =====
-- The UDP ports on which the interfaces of tunnels listen.
pub mod Rounds
use runtopo.Prelude.{
  ℕ, zero, suc, ◌+◌, ◌%◌, ◌^◌, ◌<◌, ◌≤◌, ◌≡◌, refl, sym, ap, ◌∙◌, Bool, true, false, ◌&&◌, Bytes,
  str_eq, str_eq_iff, Option, none, some, List, [], ◌∷◌, ◌++◌, arith, Outcome, ok, >>=-eq-ok,
  ok-injective, ok-pair, codes, ◌==◌, ltb, leb, length, ◌>>=◌, if◌then◌else◌, Bool-cases,
  Option-cases, inl, inr, ◌⊎◌, subst,
}
use runtopo.Prelude.Dict.{Dict, lookup, insert}
use runtopo.Errors.{Error}
use runtopo.Topology.Link.{Link, from_mac, to_mac}
use runtopo.Libvirt.Device.{Iface, HostDevice}
use runtopo.Libvirt.Runner.{Runner}
use runtopo.Libvirt.Inventory.{
  Wiring, mac_or_new, add_interface, bump_port, tunnel_ip_or, left_iface, right_iface,
  network_iface, gap, wire_right, is_uplink, is_network_link, wire_left, wire_link, wire_links,
}
use runtopo.Libvirt.Inventory.Sums.{total}
use runtopo.Libvirt.Inventory.Wires.{
  mac_or_new-keeps, wire_right-some, with_iface, wire_left-tunnel,
}

module _ {NetIp : Type 0} where
  -- 1 for the end of a tunnel that listens on the port.
  unfoldable pub listens : ℕ → Iface NetIp → ℕ
  listens q i = elim i.remote_tunnel_ip [ none ↦ 0 | some _ ↦ if i.local_port == q then 1 else 0 ]

-- An interface listens on its local port at most.
pub listens_le :
    {NetIp : Type 0} (q : ℕ) (i : Iface NetIp) → listens q i ≤ (if i.local_port == q then 1 else 0)
unfolding listens
listens_le q i = elim (Option-cases i.remote_tunnel_ip) [
  | inl e ↦ rw (e, listens) (omega arith)
  | inr (ip, e) ↦ rw (e, listens) (omega arith)
]

-- How many interfaces of all devices listen on the port.
abbrev pub listeners : {Ip NetIp : Type 0} → ℕ → Dict (HostDevice Ip NetIp) → ℕ
listeners q = total (listens q)

-- 1 if the numbers are equal.
abbrev pub at_port : ℕ → ℕ → ℕ
at_port q p = if p == q then 1 else 0

-- 1 if the number is one of the `n` numbers from `p` on.
abbrev pub among_next : ℕ → ℕ → ℕ → ℕ
among_next q p n = if leb p q && ltb q (p + n) then 1 else 0

pub among_next-apart : (q p g n : ℕ) → n ≤ g → among_next q p n + among_next q (p + g) n ≤ 1
among_next-apart q p g n h = grind arith

among_next-suc : (q p n : ℕ) → among_next q p (suc n) ≡ at_port q p + among_next q (p + 1) n
among_next-suc q p n = grind arith

-- A round that takes no port.
pub same_bound :
    (a b c q p p' g n : ℕ)
    → p' ≡ p
    → c ≤ b
    → a ≤ c + among_next q p' n + among_next q (p' + g) n
    → a ≤ b + among_next q p (suc n) + among_next q (p + g) (suc n)
same_bound a b c q p p' g n e h k = omega (
  arith,
  among_next_le q p n,
  among_next_le q (p + g) n,
  subst (λ x. a ≤ c + among_next q x n + among_next q (x + g) n) e k,
)
  where
    among_next_le : (q p n : ℕ) → among_next q p n ≤ among_next q p (suc n)
    among_next_le q p n = grind arith

-- A round that takes one.
pub next_bound :
    (a b c q p p' g n : ℕ)
    → p + g + suc n < 2 ^ 64
    → p' ≡ (p + 1) % 2 ^ 64
    → c ≤ b + at_port q p + at_port q ((p + g) % 2 ^ 64)
    → a ≤ c + among_next q p' n + among_next q (p' + g) n
    → a ≤ b + among_next q p (suc n) + among_next q (p + g) (suc n)
next_bound a b c q p p' g n small e h k =
    let next : p' ≡ p + 1 = omega arith in
    let far : (p + g) % 2 ^ 64 ≡ p + g = omega arith in
    let above : p + 1 + g ≡ p + g + 1 = omega arith in
    omega (
      arith,
      among_next-suc q p n,
      among_next-suc q (p + g) n,
      subst (λ x. c ≤ b + at_port q p + at_port q x) far h,
      subst (λ x. a ≤ c + among_next q (p + 1) n + among_next q x n) above
          (subst (λ x. a ≤ c + among_next q x n + among_next q (x + g) n) next k),
    )
