-- ===== src/Tests/Customized.antt =====
-- The theorem on customizeDomains, for one device with an image, and a virt-customize that succeeds.
use runtopo.Prelude.{
  ◌≡◌, refl, true, Bytes, codes, str_eq, Option, none, some, inl, ℕ, List, [], ◌∷◌, ◌==◌, ok,
}
use runtopo.Prelude.Dict.{lookup}
use runtopo.Topology.Device.{attr, os_image}
use runtopo.Topology.AutoMgmt.{is_empty}
use runtopo.Libvirt.Hypervisor.{Call, virt_customize, Log, Hypervisor, Session}
use runtopo.Libvirt.Customize.{PrefixText}
use runtopo.Libvirt.Customize.Domains.{customize_domains}
use runtopo.Libvirt.Customize.Complete.{IsCustomized}
use runtopo.Libvirt.Customize.Complete.Jobs.{customize_domains-IsCustomized}
use runtopo.Tests.Hosts.{host_device}
use runtopo.Tests.Images.{before, pictured}

abbrev succeeding : Log → Call → Option ℕ
succeeding log (virt_customize arguments commands) = some 0
succeeding log c = none

abbrev hv : Hypervisor
hv = record { number = succeeding; text = λ log c. []; vbmc = λ log commands c. true }

abbrev no_prefix : Bytes → Option PrefixText
no_prefix p = none

abbrev visit : List Bytes
visit = codes "web-1" ∷ []

after : Session ℕ ℕ
after =
    (customize_domains hv no_prefix (λ name. []) (λ ip. ip == 0) (λ ip. []) [] (λ name. []) visit
      visit before).1

customize_run :
    customize_domains hv no_prefix
      (λ name. [])
      (λ ip. ip == 0)
      (λ ip. [])
      []
      (λ name. [])
      visit
      visit
      before
    ≡ (ok tt, after)
unfolding after customize_domains lookup str_eq is_empty os_image attr
    runtopo.Topology.Function.same_function runtopo.Topology.Device.function
    runtopo.Topology.Function.device_function_from_string
    runtopo.Libvirt.Customize.Domain.customize_domain runtopo.Libvirt.Customize.Domain.run_customize
    runtopo.Libvirt.Customize.commands_for_function runtopo.Libvirt.Customize.has_cumulus_function
    runtopo.Topology.Device.has_function
customize_run = refl

customize_domains-IsCustomized_example :
    IsCustomized before.runner.uri (host_device pictured 1) after
unfolding lookup str_eq is_empty os_image attr
customize_domains-IsCustomized_example =
    customize_domains-IsCustomized hv no_prefix (λ name. []) (λ ip. ip == 0) (λ ip. []) []
      (λ name. []) visit visit before after customize_run (codes "web-1") (host_device pictured 1)
      (inl refl) (inl refl) refl refl
