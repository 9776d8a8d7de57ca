-- ===== src/Libvirt/Lifecycle/Cleared.antt =====
-- What `Destroy` of runner/libvirt/runner.go leaves in the runner.
use runtopo.Prelude.{◌≡◌, refl, sym, ap, ◌∙◌, none, [], Outcome, ok, err, panic}
use runtopo.Errors.{Error}
use runtopo.Topology.Netaddr.{Netaddr}
use runtopo.Topology.Topo.{Topo}
use runtopo.Libvirt.Exec.{Exec, continue, ◌>>◌}
use runtopo.Libvirt.Hypervisor.{Hypervisor, Session}
use runtopo.Libvirt.Volumes.Disks.{delete_volumes}
use runtopo.Libvirt.Domains.{undefine_domains, stop_bmcs}
use runtopo.Libvirt.Lifecycle.{
  Outside, Orders, load_inventory, ensure_connected, drop_domains, drop_images, destroy,
}
use runtopo.Libvirt.Lifecycle.Cleanups.{delete_volumes-Quiet}
use runtopo.Libvirt.Lifecycle.Release.{drop_images-empty, drop_images-domains, drop_domains-nil}

module _ {S A B : Type 0} where
  >>-ok :
      (m : Exec S A) (k : Exec S B) (s : S) (b : B) (s' : S)
      → (m >> k) s ≡ (ok b, s')
      → (a : A) × (u : S) × (m s ≡ (ok a, u)) × (k u ≡ (ok b, s'))
  >>-ok m k s b s' h = by_first (m s) h
    where
      by_first :
          (q : Outcome Error A × S)
          → ◌≡◌ {A = Outcome Error B × S} (continue (λ _. k) q) (ok b, s')
          → (a : A) × (u : S) × (q ≡ (ok a, u)) × (k u ≡ (ok b, s'))
      by_first (panic, u) g = cc
      by_first (err y, u) g = cc
      by_first (ok a, u) g = (a, u, refl, g)

module _ (N : Netaddr) {NetIp : Type 0} (o : Outside N.Ip NetIp) (orders : Orders) where
  abbrev hv : Hypervisor
  hv = o.hypervisor

  -- After a `Destroy` that returns no error, the runner has no images, and its map of domains is nil.
  pub destroy-cleared :
      (t : Topo N) (s s' : Session N.Ip NetIp)
      → destroy N o orders t s ≡ (ok tt, s')
      → (s'.base_images ≡ []) × (s'.domains ≡ none)
  unfolding destroy
  destroy-cleared t s s' h =
      let until_domains =
        load_inventory N o orders t
        >> (λ s. ensure_connected N o orders s.conn s)
        >> stop_bmcs hv o.split orders.bmcs
        >> undefine_domains hv orders.undefine_range in
      let (a, u, e, f) =
        >>-ok (until_domains >> drop_domains N o orders >> delete_volumes hv orders.delete_range)
          (drop_images N o orders) s tt s' h in
      let (b, v, g, i) =
        >>-ok (until_domains >> drop_domains N o orders) (delete_volumes hv orders.delete_range) s a
          u e in
      let (c, w, j, k) = >>-ok until_domains (drop_domains N o orders) s b v g in
      (
        ap (λ q. q.1.base_images) (sym f) ∙ drop_images-empty N o orders u,
        ap (λ q. q.1.domains) (sym f)
            ∙ drop_images-domains N o orders u
            ∙ ap (λ q. q.1.domains) (sym i)
            ∙ ap (λ q. q.domains) (delete_volumes-Quiet hv orders.delete_range v).ending
            ∙ ap (λ q. q.1.domains) (sym k)
            ∙ drop_domains-nil N o orders w,
      )
