-- ===== src/Libvirt/Lifecycle/Frame.antt =====
-- The part of `Run` behind `buildInventory` in runner/libvirt/runner.go: it leaves the BMCs and the names'
-- prefix alone, whatever it returns.
pub mod Volumes
pub mod Images
pub mod Domains
pub mod Outputs
use runtopo.Prelude.{ℕ, Bool, true, false, Bytes, none, some, List, Outcome, ok, err, panic}
use runtopo.Errors.{no_connection}
use runtopo.Topology.Netaddr.{Netaddr}
use runtopo.Topology.Topo.{Topo, devices}
use runtopo.Libvirt.Vbmc.{BmcMan}
use runtopo.Libvirt.Exec.{Exec, on_error, pure, ◌>>=◌, ◌>>◌}
use runtopo.Libvirt.Hypervisor.{close, connect, Hypervisor, Session, ask_or, tell, tell_all}
use runtopo.Libvirt.Hypervisor.Holds.{
  Held, Holds, Holds->>=, Holds->>, Holds-on_error, Holds-attempt, tell-Holds, tell_all-Holds,
}
use runtopo.Libvirt.Volumes.Images.{download_base_images, free_images}
use runtopo.Libvirt.Volumes.Disks.{create_volumes, delete_volumes}
use runtopo.Libvirt.Domains.{define_domains, undefine_domains, start_domains}
use runtopo.Libvirt.Customize.Domains.{customize_domains}
use runtopo.Libvirt.Output.{write_ssh_config, write_bmc_config}
use runtopo.Libvirt.Lifecycle.{
  Outside, Orders, domain_frees, set_conn, drop_domains, drop_images, when, run_defined,
  run_created, run_downloaded, run_connected, open_connection,
}
use Volumes.{create_volumes-Holds, delete_volumes-Holds}
use Images.{download_base_images-Holds}
use Domains.{define_domains-Holds, undefine_domains-Holds, start_domains-Holds}
use Outputs.{customize_domains-Holds, write_ssh_config-Holds, write_bmc_config-Holds}

module _ (Q : BmcMan → Bytes → Type 0) (N : Netaddr) {NetIp : Type 0} (o : Outside N.Ip NetIp)
    (orders : Orders) where
  abbrev hv : Hypervisor
  hv = o.hypervisor

  abbrev St : Type 0
  St = Session N.Ip NetIp

  drop_domains-Holds : Holds Q (drop_domains N o orders)
  unfolding drop_domains
  drop_domains-Holds s h =
      Holds->>= Q (tell_all hv (domain_frees orders.names s.domains)) _ (tell_all-Holds Q hv _)
        (λ _ t g. g) s h

  drop_images-Holds : Holds Q (drop_images N o orders)
  unfolding drop_images
  drop_images-Holds s h =
      Holds->>= Q (tell_all hv (free_images orders.kept_images s.base_images)) _
        (tell_all-Holds Q hv _) (λ _ t g. g) s h

  when-Holds : (b : Bool) (m : Exec St (Unit {0})) → Holds Q m → Holds Q (when N o orders b m)
  unfolding when
  when-Holds true m rest s h = rest s h
  when-Holds false m rest s h = h

  run_defined-Holds : (t : Topo N) → Holds Q (run_defined N o orders t)
  unfolding run_defined
  run_defined-Holds t s =
      let customize =
        customize_domains hv o.parse_prefix o.crypt_pw N.is_zero o.print t.dot orders.hosts
          orders.customize_range orders.customized in
      let start = start_domains hv o.split orders.bmcs (devices N t orders.start_devices) in
      let ssh = write_ssh_config hv N.parse_ip o.print o.waits (devices N t orders.ssh_devices) in
      let bmc = write_bmc_config hv o.json in
      let ssh_out = when N o orders s.runner.ssh_config_out ssh in
      let bmc_out = when N o orders s.runner.bmc_config_out bmc in
      Holds->> Q (customize >> start >> ssh_out) bmc_out
        (Holds->> Q (customize >> start) ssh_out
          (Holds->> Q customize start
            (customize_domains-Holds Q hv o.parse_prefix o.crypt_pw N.is_zero o.print t.dot
              orders.hosts orders.customize_range orders.customized)
            (start_domains-Holds Q hv o.split orders.bmcs (devices N t orders.start_devices)))
          (when-Holds s.runner.ssh_config_out ssh (
            write_ssh_config-Holds Q hv N.parse_ip o.print o.waits
              (devices N t orders.ssh_devices))))
        (when-Holds s.runner.bmc_config_out bmc (write_bmc_config-Holds Q hv o.json)) s

  run_created-Holds : (t : Topo N) → Holds Q (run_created N o orders t)
  unfolding run_created
  run_created-Holds t =
      Holds->>= Q (define_domains hv o.ip_text o.render orders.define_range) _
        (define_domains-Holds Q hv o.ip_text o.render orders.define_range)
        (λ _.
          Holds-on_error Q (undefine_domains hv orders.undefine_range >> drop_domains N o orders) _
            (Holds->>= Q (undefine_domains hv orders.undefine_range) _
              (undefine_domains-Holds Q hv orders.undefine_range) (λ _. drop_domains-Holds))
            (run_defined-Holds t))

  run_downloaded-Holds : (t : Topo N) → Holds Q (run_downloaded N o orders t)
  unfolding run_downloaded
  run_downloaded-Holds t =
      Holds->>= Q (create_volumes hv o.marshal orders.create_range) _
        (create_volumes-Holds Q hv o.marshal orders.create_range)
        (λ _.
          Holds-on_error Q (delete_volumes hv orders.delete_range) _
            (delete_volumes-Holds Q hv orders.delete_range) (run_created-Holds t))

  pub run_connected-Holds : (t : Topo N) (c : ℕ) → Holds Q (run_connected N o orders t c)
  unfolding run_connected
  run_connected-Holds t c =
      Holds-on_error Q (tell hv (close c) >> set_conn N o orders none) _
        (Holds->>= Q (tell hv (close c)) _ (tell-Holds Q hv (close c)) (λ _ u g. g))
        (Holds->>= Q
          (download_base_images hv o.image_name o.marshal orders.download_range orders.arrivals
            orders.images)
          _
          (download_base_images-Holds Q hv o.image_name o.marshal orders.download_range
            orders.arrivals orders.images)
          (λ _.
            Holds-on_error Q (drop_images N o orders) _ drop_images-Holds (run_downloaded-Holds t)))

  pub open_connection-Holds : Holds Q (open_connection N o orders)
  unfolding open_connection
  open_connection-Holds s =
      Holds->>= Q {A = ℕ} {B = ℕ} (ask_or hv (no_connection s.runner.uri) (connect s.runner.uri))
        (λ c. set_conn N o orders (some c) >> pure c)
        (Holds-attempt Q hv (connect s.runner.uri) _ _ (λ t h. h) (λ n t h. h)) (λ c t h. h) s
