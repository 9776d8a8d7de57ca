-- ===== src/Libvirt/Template/Arguments.antt =====
-- What a domain's template is filled with, for a device of the inventory: `templateArgs` of
-- runner/libvirt/runner.go and `marshalInterface` of runner/libvirt/template.go.
use runtopo.Prelude.{
  ℕ, ◌*◌, ◌^◌, ◌<◌, ◌≡◌, refl, sym, ap, ap₂, ◌∙◌, Bool, true, false, ◌||◌, Bytes, codes, str_eq,
  List, [], ◌∷◌, ◌++◌, append_assoc, append-nil, map, arith, if◌then◌else◌, some,
}
use runtopo.Prelude.Int.{pos, shr64}
use runtopo.Topology.AutoMgmt.{is_empty}
use runtopo.Topology.Device.{attr}
use runtopo.Topology.Device.Sizes.{Spells, memory-mib}
use runtopo.Libvirt.Device.{Iface, HostDevice}
use runtopo.Libvirt.Inventory.Wires.{IsTunnel}
use runtopo.Libvirt.Template.{
  DomainTemplateArgs, udp, ip_string, interface_args, add_interfaces, template_args, source_of,
}

abbrev pub any_pxe : {NetIp : Type 0} → List (Iface NetIp) → Bool
any_pxe [] = false
any_pxe (i ∷ is) = i.pxe || any_pxe is

module _ {NetIp : Type 0} (ip_text : NetIp → Bytes) where
  add_interfaces-all :
      (ip : NetIp) (is : List (Iface NetIp)) (args : DomainTemplateArgs)
      → add_interfaces ip_text ip is args ≡ record args {
        interfaces = args.interfaces ++ map (interface_args ip_text ip) is;
        pxe_boot = args.pxe_boot || any_pxe is;
      }
  unfolding add_interfaces
  add_interfaces-all ip [] args =
      ap₂ (λ js b. record args { interfaces = js; pxe_boot = b }) (sym (append-nil args.interfaces))
        (sym (or_false args.pxe_boot))
    where
      or_false : (b : Bool) → (b || false) ≡ b
      or_false true = refl
      or_false false = refl
  add_interfaces-all ip (i ∷ is) args =
      add_interfaces-all ip is _
      ∙ ap₂ (λ js b. record args { interfaces = js; pxe_boot = b })
          (append_assoc args.interfaces (interface_args ip_text ip i ∷ [])
            (map (interface_args ip_text ip) is))
          (or_step i.pxe args.pxe_boot)
    where
      or_step : (p b : Bool) → ((if p then true else b) || any_pxe is) ≡ (b || (p || any_pxe is))
      or_step true true = refl
      or_step true false = refl
      or_step false true = refl
      or_step false false = refl

  -- An interface with no network of libvirt.
  source_of-udp :
      (own remote : NetIp) (i : Iface NetIp)
      → i.network ≡ []
      → i.remote_tunnel_ip ≡ some remote
      → source_of (interface_args ip_text own i)
        ≡ udp (ip_text remote) i.port (ip_text own) i.local_port
  unfolding source_of interface_args ip_string is_empty str_eq
  source_of-udp own remote i e f =
      ap₂
        (λ n r.
          source_of (interface_args ip_text own (record i { network = n; remote_tunnel_ip = r })))
        e f

module _ {Ip NetIp : Type 0} (ip_text : NetIp → Bytes) where
  -- The template gets one interface for each interface of the device, in their order, and boots from the
  -- network exactly if one of them does.
  pub template_args-all :
      (d : HostDevice Ip NetIp)
      → ((template_args ip_text d).interfaces
          ≡ map (interface_args ip_text d.tunnel_ip) d.interfaces)
        × ((template_args ip_text d).pxe_boot ≡ any_pxe d.interfaces)
  unfolding template_args
  template_args-all d =
      let e = add_interfaces-all ip_text d.tunnel_ip d.interfaces _ in
      (ap (λ a. a.interfaces) e, ap (λ a. a.pxe_boot) e)

  -- A memory attribute that is a decimal number of MiB below 2 ^ 43 comes out in KiB in the template.
  pub template_args-memory :
      (d : HostDevice Ip NetIp) (n : ℕ)
      → Spells n (attr d.device (codes "memory"))
      → n < 2 ^ 43
      → (template_args ip_text d).memory ≡ pos (n * 2 ^ 10)
  unfolding template_args shr64
  template_args-memory d n h small =
      ap (λ a. a.memory) (add_interfaces-all ip_text d.tunnel_ip d.interfaces _)
      ∙ ap (λ m. shr64 m 10) (memory-mib d.device n h small)
      ∙ ap pos (omega arith)

  -- The two ends of a tunnel: the UDP source in one domain's XML has the other device's address and the
  -- port at which the other one listens as its remote end, and the other way round.
  pub source_of-mirrored :
      (from to : HostDevice Ip NetIp) (i j : Iface NetIp)
      → IsTunnel from to i j
      → (source_of (interface_args ip_text from.tunnel_ip i)
          ≡ udp (ip_text to.tunnel_ip) j.local_port (ip_text from.tunnel_ip) i.local_port)
        × (source_of (interface_args ip_text to.tunnel_ip j)
            ≡ udp (ip_text from.tunnel_ip) i.local_port (ip_text to.tunnel_ip) j.local_port)
  source_of-mirrored from to i j t = (
    source_of-udp ip_text from.tunnel_ip to.tunnel_ip i t.no_network.0 t.to_right
        ∙ ap (λ p. udp (ip_text to.tunnel_ip) p (ip_text from.tunnel_ip) i.local_port) t.sends,
    source_of-udp ip_text to.tunnel_ip from.tunnel_ip j t.no_network.1 t.to_left
        ∙ ap (λ p. udp (ip_text from.tunnel_ip) p (ip_text to.tunnel_ip) j.local_port)
            (sym t.returns),
  )
