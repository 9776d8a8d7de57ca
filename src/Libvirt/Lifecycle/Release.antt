-- ===== src/Libvirt/Lifecycle/Release.antt =====
-- What `Run` of runner/libvirt/runner.go leaves in the runner when it returns an error.
use runtopo.Prelude.{
  ℕ, ◌≡◌, refl, sym, ap, ◌∙◌, subst, Option, none, inl, inr, [], ◌∷◌, ◌++◌, Outcome, ok, err, panic,
  arith, ◌⊎◌,
}
use runtopo.Prelude.Dict.{Dict}
use runtopo.Errors.{Error}
use runtopo.Topology.Netaddr.{Netaddr}
use runtopo.Topology.Topo.{Topo}
use runtopo.Libvirt.Exec.{Exec, continue, after_all, after_error, on_error, ◌>>◌}
use runtopo.Libvirt.Hypervisor.{close, Log, Hypervisor, Session, tell}
use runtopo.Libvirt.Hypervisor.Rollback.{tell_all-log}
use runtopo.Libvirt.Volumes.Images.{free_images, download_base_images}
use runtopo.Libvirt.Volumes.Disks.{create_volumes, delete_volumes}
use runtopo.Libvirt.Domains.{define_domains, undefine_domains}
use runtopo.Libvirt.Domains.Define.{Ends, found, define_domains-Ends}
use runtopo.Libvirt.Lifecycle.Cleanups.{delete_volumes-Quiet, undefine_domains-ok}
use runtopo.Libvirt.Lifecycle.{
  Outside, Orders, drop_domains, drop_images, run_defined, run_created, run_downloaded,
  run_connected, set_conn, domain_frees,
}

module _ {S A : Type 0} where
  after_error-err :
      (cleanup : Exec S (Unit {0})) (r : Outcome Error A × S) (e : Error) (s' : S)
      → after_error cleanup r ≡ (err e, s')
      → (s₁ : S) × (r ≡ (err e, s₁)) × (s' ≡ (cleanup s₁).1)
  after_error-err cleanup (panic, s) e s' h = cc
  after_error-err cleanup (ok a, s) e s' h = cc
  after_error-err cleanup (err x, s) e s' h = by_cleanup (cleanup s) refl h
    where
      by_cleanup :
          (q : Outcome Error (Unit {0}) × S)
          → cleanup s ≡ q
          → ◌≡◌ {A = Outcome Error A × S} (after_all (err x) q) (err e, s')
          → (s₁ : S) × (◌≡◌ {A = Outcome Error A × S} (err x, s) (err e, s₁))
            × (s' ≡ (cleanup s₁).1)
      by_cleanup (panic, u) f g = cc
      by_cleanup (err y, u) f g = (s, ground arith, sym (ap (λ q. q.1) g) ∙ sym (ap (λ q. q.1) f))
      by_cleanup (ok v, u) f g = (s, ground arith, sym (ap (λ q. q.1) g) ∙ sym (ap (λ q. q.1) f))

module _ {S A B : Type 0} where
  >>-err :
      (m : Exec S A) (k : Exec S B) (s : S) (e : Error) (s' : S)
      → (m >> k) s ≡ (err e, s')
      → (m s ≡ (err e, s')) ⊎ ((a : A) × (u : S) × (m s ≡ (ok a, u)) × (k u ≡ (err e, s')))
  >>-err m k s e s' h = by_first (m s) h
    where
      by_first :
          (q : Outcome Error A × S)
          → ◌≡◌ {A = Outcome Error B × S} (continue (λ _. k) q) (err e, s')
          → (q ≡ (err e, s')) ⊎ ((a : A) × (u : S) × (q ≡ (ok a, u)) × (k u ≡ (err e, s')))
      by_first (panic, u) g = cc
      by_first (err y, u) g = inl (ground arith)
      by_first (ok a, u) g = inr (a, u, refl, g)

  -- The first part did return.
  >>-err-ok :
      (m : Exec S A) (k : Exec S B) (s u : S) (a : A) (e : Error) (s' : S)
      → m s ≡ (ok a, u)
      → (m >> k) s ≡ (err e, s')
      → k u ≡ (err e, s')
  >>-err-ok m k s u a e s' f h = sym (ap (continue (λ _. k)) f) ∙ h

module _ (N : Netaddr) {NetIp : Type 0} (o : Outside N.Ip NetIp) (orders : Orders) where
  abbrev hv : Hypervisor
  hv = o.hypervisor

  abbrev St : Type 0
  St = Session N.Ip NetIp

  pub drop_images-empty : (s : St) → (drop_images N o orders s).1.base_images ≡ []
  unfolding drop_images
  drop_images-empty s =
      let (es, e, f) = tell_all-log hv (free_images orders.kept_images s.base_images) s in
      rw (e) refl

  pub drop_images-domains : (s : St) → (drop_images N o orders s).1.domains ≡ s.domains
  unfolding drop_images
  drop_images-domains s =
      let (es, e, f) = tell_all-log hv (free_images orders.kept_images s.base_images) s in
      rw (e) refl

  pub drop_domains-nil : (s : St) → (drop_domains N o orders s).1.domains ≡ none
  unfolding drop_domains
  drop_domains-nil s =
      let (es, e, f) = tell_all-log hv (domain_frees orders.names s.domains) s in rw (e) refl

  -- The clean-up behind the definition of the domains.
  undefine-nil :
      (s : St)
      → ((undefine_domains hv orders.undefine_range >> drop_domains N o orders) s).1.domains ≡ none
  undefine-nil s =
      let (u, e) = undefine_domains-ok hv orders.undefine_range s in
      ap {A = Outcome Error (Unit {0}) × St} {B = Option (Dict ℕ)}
        (λ r. (continue (λ _. drop_domains N o orders) r).1.domains) e
      ∙ drop_domains-nil u

  -- An error from the definition of the domains on.
  run_created-nil :
      (t : Topo N) (s : St) (e : Error) (s' : St)
      → run_created N o orders t s ≡ (err e, s')
      → s'.domains ≡ none
  unfolding run_created
  run_created-nil t s e s' h =
      elim (>>-err (define_domains hv o.ip_text o.render orders.define_range) _ s e s' h) [
        | inl f ↦ abandoned (define_domains-Ends hv o.ip_text o.render orders.define_range s) f
        | inr (a, u, f, g) ↦
            let (s₁, i, j) =
              after_error-err (undefine_domains hv orders.undefine_range >> drop_domains N o orders)
                (run_defined N o orders t u) e s' g in
            ap (λ q. q.domains) j ∙ undefine-nil s₁
      ]
    where
      abandoned :
          Ends
            (found orders.define_range s.runner.devices)
            []
            s
            (define_domains hv o.ip_text o.render orders.define_range s)
          → define_domains hv o.ip_text o.render orders.define_range s ≡ (err e, s')
          → s'.domains ≡ none
      abandoned x f = ap (λ q. q.domains) (subst (Ends _ [] s) f x).ending

  abbrev download : Exec St (Unit {0})
  download =
      download_base_images hv o.image_name o.marshal orders.download_range orders.arrivals
        orders.images

  abbrev create : Exec St (Unit {0})
  create = create_volumes hv o.marshal orders.create_range

  -- What is left after an error behind the connection.
  pub record Released (t : Topo N) (c : ℕ) (s s' : St) : Type 0 where
    pub before : Log
    pub closed :
        s'.log ≡ before ++ record { call = close c; answer = hv.number before (close c) } ∷ []
    pub disconnected : s'.conn ≡ none
    -- The images, if they were there, and the domains, if the volumes were too.
    pub images : (u : St) → download s ≡ (ok tt, u) → s'.base_images ≡ []
    pub domains : (u v : St) → download s ≡ (ok tt, u) → create u ≡ (ok tt, v) → s'.domains ≡ none

  -- When the part of `Run` behind the connection returns an error, its last call closes the connection,
  -- and the runner has none. If the images had been downloaded, it has no images any more; if the volumes
  -- had been created too, its map of domains is nil.
  pub run_connected-Released :
      (t : Topo N) (c : ℕ) (s : St) (e : Error) (s' : St)
      → run_connected N o orders t c s ≡ (err e, s')
      → Released t c s s'
  unfolding run_connected tell run_downloaded
  run_connected-Released t c s e s' h =
      let (s₁, i, j) =
        after_error-err (tell hv (close c) >> set_conn N o orders none)
          ((download >> with_images) s) e s' h in
      record {
        before = s₁.log;
        closed = ap (λ q. q.log) j;
        disconnected = ap (λ q. q.conn) j;
        images = λ u f.
            let g = >>-err-ok download with_images s u tt e s₁ f i in
            let (s₂, k, l) =
              after_error-err (drop_images N o orders) (run_downloaded N o orders t u) e s₁ g in
            ap (λ q. q.base_images) j ∙ ap (λ q. q.base_images) l ∙ drop_images-empty s₂;
        domains = λ u v f x.
            let g = >>-err-ok download with_images s u tt e s₁ f i in
            let (s₂, k, l) =
              after_error-err (drop_images N o orders) (run_downloaded N o orders t u) e s₁ g in
            let m = >>-err-ok create with_volumes u v tt e s₂ x k in
            let (s₃, n, p) =
              after_error-err (delete_volumes hv orders.delete_range) (run_created N o orders t v) e
                s₂ m in
            ap (λ q. q.domains) j
            ∙ ap (λ q. q.domains) l
            ∙ drop_images-domains s₂
            ∙ ap (λ q. q.domains) p
            ∙ ap (λ q. q.domains) (delete_volumes-Quiet hv orders.delete_range s₃).ending
            ∙ run_created-nil t v e s₃ n;
      }
    where
      with_images : Exec St (Unit {0})
      with_images = on_error (drop_images N o orders) (run_downloaded N o orders t)

      with_volumes : Exec St (Unit {0})
      with_volumes = on_error (delete_volumes hv orders.delete_range) (run_created N o orders t)
