-- ===== src/Libvirt/Output/Lease.antt =====
-- The end of the loop of `waitForLease` of runner/libvirt/helper.go.
use runtopo.Prelude.{
  ℕ, zero, suc, ◌+◌, ◌≤◌, ◌<◌, ◌≡◌, refl, ap, Bool, true, false, Bytes, Option, none, some, List,
  [], ◌∷◌, Outcome, ok, err, arith, Option-cases, Bool-cases, ◌⊎◌, inl, inr, ◌==◌, leb, subst,
}
use runtopo.Errors.{Error, no_lease, cancelled}
use runtopo.Libvirt.Output.{
  Poll, failed, polled, settled, wait_loop, first_address, wait_for_lease, Wait, lease_of,
}

-- What is returned behind an answer to a poll, as the context is done or not. There is none for a poll
-- that finds nothing before the context is done.
pub data Returns {A : Type 0} (parse_ip : Bytes → Option A)
    : Poll → Bool → Outcome Error A → Type 0 where
  poll_error : (done : Bool) → Returns parse_ip failed done (err no_lease)
  too_late : Returns parse_ip (polled []) true (err cancelled)
  no_address :
      (xs : List (List Bytes)) (done : Bool)
      → Returns parse_ip (polled ([] ∷ xs)) done (err no_lease)
  bad_address :
      (a : Bytes) (addrs : List Bytes) (xs : List (List Bytes)) (done : Bool)
      → parse_ip a ≡ none
      → Returns parse_ip (polled ((a ∷ addrs) ∷ xs)) done (err no_lease)
  found :
      (a : Bytes) (ip : A) (addrs : List Bytes) (xs : List (List Bytes)) (done : Bool)
      → parse_ip a ≡ some ip
      → Returns parse_ip (polled ((a ∷ addrs) ∷ xs)) done (ok ip)

-- Each answer is returned, or the wait goes on.
go_on_or_return :
    {A : Type 0} (parse_ip : Bytes → Option A) (p : Poll) (b : Bool)
    → ((p ≡ polled []) × (b ≡ false)) ⊎ ((r : Outcome Error A) × Returns parse_ip p b r)
go_on_or_return parse_ip failed b = inr (err no_lease, poll_error b)
go_on_or_return parse_ip (polled []) false = inl (refl, refl)
go_on_or_return parse_ip (polled []) true = inr (err cancelled, too_late)
go_on_or_return parse_ip (polled ([] ∷ xs)) b = inr (err no_lease, no_address xs b)
go_on_or_return parse_ip (polled ((a ∷ addrs) ∷ xs)) b = elim (Option-cases (parse_ip a)) [
  | inl e ↦ inr (err no_lease, bad_address a addrs xs b e)
  | inr (ip, e) ↦ inr (ok ip, found a ip addrs xs b e)
]

module _ {A : Type 0} (parse_ip : Bytes → Option A) (poll : ℕ → Poll) (done : ℕ → Bool) where
  -- The poll finds no interface, and the context is not done after it.
  abbrev pub IsWaiting : ℕ → Type 0
  IsWaiting n = (poll n ≡ polled []) × (done n ≡ false)

  -- The first poll from n on behind which there is no more waiting, and what is returned there.
  pub record Returned (n limit : ℕ) : Type 0 where
    pub at : ℕ
    pub from_n : n ≤ at
    pub in_time : at ≤ limit
    pub waiting : (i : ℕ) → n ≤ i → i < at → IsWaiting i
    pub result : Outcome Error A
    pub returns : Returns parse_ip (poll at) (done at) result

  settled-Returns :
      (n : ℕ) (p : Poll) (b : Bool) (r : Outcome Error A)
      → poll n ≡ p
      → done n ≡ b
      → Returns parse_ip p b r
      → (q : Outcome Error (List Bytes)) × (settled poll done n ≡ some q)
        × (first_address parse_ip q ≡ r)
  unfolding settled first_address
  settled-Returns n p b r e f (poll_error done') = (err no_lease, rw (e, settled) refl, refl)
  settled-Returns n p b r e f too_late = (err cancelled, rw (e, f, settled) refl, refl)
  settled-Returns n p b r e f (no_address xs done') = (ok [], rw (e, settled) refl, refl)
  settled-Returns n p b r e f (bad_address a addrs xs done' g) =
      (ok (a ∷ addrs), rw (e, settled) refl, rw (g, first_address) refl)
  settled-Returns n p b r e f (found a ip addrs xs done' g) =
      (ok (a ∷ addrs), rw (e, settled) refl, rw (g, first_address) refl)

  settled-IsWaiting : (n : ℕ) → IsWaiting n → settled poll done n ≡ none
  unfolding settled
  settled-IsWaiting n (e, f) = rw (e, f, settled) refl

  wait_loop-Returned :
      (fuel n limit : ℕ)
      → n ≤ limit
      → limit < n + fuel
      → ¬ IsWaiting limit
      → (f : Returned n limit) × (q : Outcome Error (List Bytes)) × (wait_loop poll done fuel n
          ≡ some q)
        × (first_address parse_ip q ≡ f.result)
  unfolding wait_loop
  wait_loop-Returned zero n limit a b stops = absurd (omega arith)
  wait_loop-Returned (suc fuel) n limit a b stops =
      elim (go_on_or_return parse_ip (poll n) (done n)) [
        | inr (r, back) ↦
            let (q, e, g) = settled-Returns n (poll n) (done n) r refl refl back in
            (
              record {
                at = n;
                from_n = omega arith;
                in_time = a;
                waiting = λ i x y. absurd (omega arith);
                result = r;
                returns = back;
              },
              q,
              rw (e, wait_loop) refl,
              g,
            )
        | inl w ↦
            let (f, q, e, g) =
              wait_loop-Returned fuel (suc n) limit (after w) (omega arith) stops in
            (
              record {
                at = f.at;
                from_n = omega (arith, f.from_n);
                in_time = f.in_time;
                waiting = λ i x y. earlier w f.waiting i x y;
                result = f.result;
                returns = f.returns;
              },
              q,
              rw (settled-IsWaiting n w, wait_loop) e,
              g,
            )
      ]
    where
      after : IsWaiting n → suc n ≤ limit
      after w = elim (Bool-cases (n == limit)) [
        | inl e ↦ absurd (stops (subst IsWaiting (ground arith) w))
        | inr e ↦ ground arith
      ]

      earlier :
          {m : ℕ}
          → IsWaiting n
          → ((i : ℕ) → suc n ≤ i → i < m → IsWaiting i)
          → (i : ℕ) → n ≤ i
          → i < m
          → IsWaiting i
      earlier w rest i x y = elim (Bool-cases (n == i)) [
        | inl e ↦ subst IsWaiting (ground arith) w
        | inr e ↦ rest i (ground arith) y
      ]

  -- With the context done after some poll, or an answer to it that is an error or has an interface,
  -- waitForLease returns, with any fuel above that poll's number. It waits behind each poll that finds no
  -- interface, until the context is done; from the first other poll it returns the first address of the first
  -- interface, or the error of the poll, of the context, of a missing address or of one that cannot be read.
  pub wait_for_lease-returns :
      (fuel limit : ℕ)
      → limit < fuel
      → ¬ IsWaiting limit
      → (f : Returned 0 limit) × (wait_for_lease parse_ip poll done fuel ≡ some f.result)
  unfolding wait_for_lease
  wait_for_lease-returns fuel limit a stops =
      let (f, q, e, g) = wait_loop-Returned fuel 0 limit (omega arith) (omega arith) stops in
      (f, rw (e, wait_for_lease) (ap some g))

-- The wait of `writeSSHConfig` has enough fuel.
pub wait_for_lease-lease_of :
    {A : Type 0} (parse_ip : Bytes → Option A) (w : Wait)
    → wait_for_lease parse_ip w.polls (λ n. leb w.limit n) (suc w.limit)
      ≡ some (lease_of parse_ip w)
unfolding lease_of
wait_for_lease-lease_of parse_ip w =
    let (f, e) =
      wait_for_lease-returns parse_ip w.polls (λ n. leb w.limit n) (suc w.limit) w.limit
        (omega arith) (λ q. ground (arith, q.1)) in
    rw (e, lease_of) refl
