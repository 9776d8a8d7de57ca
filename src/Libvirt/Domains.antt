-- ===== src/Libvirt/Domains.antt =====
-- `defineDomains`, `undefineDomains` and `startDomains` of runner/libvirt/runner.go. The text that the
-- domain template makes of its arguments is the argument `render`; what `net.IP.String` and
-- `net.SplitHostPort` return are arguments too, and so is the sequence of keys that a range over a map
-- visits. A text of a call stands for its arguments. A deferred clean-up is written at each place where
-- an error is returned.
pub mod Define
pub mod Nil
pub mod Start
pub mod Order
use runtopo.Prelude.{
  ℕ, Bool, true, false, Bytes, codes, Option, none, some, List, [], ◌∷◌, ◌++◌, ◌||◌, ltb,
}
use runtopo.Prelude.Dict.{Dict, lookup, insert}
use runtopo.Errors.{
  Error, bad_template, define_failed, start_failed, bmc_start_failed, bmc_stop_failed,
}
use runtopo.Topology.Device.{Device, function, os_image}
use runtopo.Topology.Function.{DeviceFunction, fake, same_function, to_int}
use runtopo.Topology.AutoMgmt.{is_empty}
use runtopo.Libvirt.Device.{HostDevice}
use runtopo.Libvirt.Exec.{Exec, pure, raise, crash, modify, ◌>>=◌, ◌>>◌}
use runtopo.Libvirt.Hypervisor.{
  Call, define_domain, undefine_domain, free_domain, lookup_domain, destroy_domain, create_domain,
  Hypervisor, Session, attempt, tell_all,
}
use runtopo.Libvirt.Template.{DomainTemplateArgs, template_args}
use runtopo.Libvirt.Vbmc.Commands.{Command, start_all, stop_all}

-- The deferred clean-ups of the domains that have been defined and of those that have been started.
abbrev pub undo_defined : List ℕ → List Call
undo_defined [] = []
undo_defined (dom ∷ doms) = undefine_domain dom ∷ free_domain dom ∷ undo_defined doms

abbrev pub undo_started : List ℕ → List Call
undo_started [] = []
undo_started (dom ∷ doms) = destroy_domain dom ∷ undo_started doms

module _ (hv : Hypervisor) {Ip NetIp : Type 0} where
  abbrev pub set_domains : Option (Dict ℕ) → Exec (Session Ip NetIp) (Unit {0})
  set_domains m = modify (λ s. record s { domains = m })

  unfoldable pub put_in : Bytes → ℕ → Option (Dict ℕ) → Exec (Session Ip NetIp) (Unit {0})
  put_in name dom none = crash
  put_in name dom (some m) = set_domains (some (insert name dom m))

  -- `r.domains[name] = dom`, which panics on the nil map.
  unfoldable pub put_domain : Bytes → ℕ → Exec (Session Ip NetIp) (Unit {0})
  unfolding put_in
  put_domain name dom s = put_in name dom s.domains s

  unfoldable pub abandon_definitions : Error → List ℕ → Exec (Session Ip NetIp) (Unit {0})
  abandon_definitions e defined = tell_all hv (undo_defined defined) >> set_domains none >> raise e

  module _ (ip_text : NetIp → Bytes) (render : DomainTemplateArgs → Option Bytes) where
    -- The rounds of the loop; `defined` are the domains so far.
    unfoldable pub define_each : List Bytes → List ℕ → Exec (Session Ip NetIp) (Unit {0})
    define_each [] defined s = pure tt s
    define_each (k ∷ order) defined s = elim (lookup k s.runner.devices) [
      | none ↦ define_each order defined s
      | some d ↦ elim (render (template_args ip_text d)) [
        | none ↦ abandon_definitions (bad_template d.name) defined s
        | some xml ↦
            attempt hv (define_domain xml) (abandon_definitions (define_failed d.name) defined)
              (λ dom. put_domain d.name dom >> define_each order (defined ++ dom ∷ [])) s
      ]
    ]

    unfoldable pub define_domains : List Bytes → Exec (Session Ip NetIp) (Unit {0})
    define_domains order = define_each order []

  -- A domain that is not found is passed over; the errors of the other calls are ignored.
  unfoldable pub undefine_domains : List Bytes → Exec (Session Ip NetIp) (Unit {0})
  undefine_domains [] s = pure tt s
  undefine_domains (k ∷ order) s = elim (lookup k s.runner.devices) [
    | none ↦ undefine_domains order s
    | some d ↦
        attempt hv (lookup_domain d.name) (undefine_domains order)
          (λ dom.
            tell_all hv (destroy_domain dom ∷ undefine_domain dom ∷ free_domain dom ∷ [])
            >> undefine_domains order)
          s
  ]

-- `r.domains[name]`, with none for the nil pointer.
unfoldable pub domain_named : Bytes → Option (Dict ℕ) → Option ℕ
domain_named name none = none
domain_named name (some m) = lookup name m

-- The sort of the devices by their functions. `sort.Slice` promises no order of devices with one
-- function; it is modelled as the insertion sort that it runs on a short slice.
module _ {Ip : Type 0} where
  unfoldable pub function_less : Device Ip → Device Ip → Bool
  function_less d e = ltb (to_int (function d)) (to_int (function e))

  unfoldable pub insert_device : Device Ip → List (Device Ip) → List (Device Ip)
  insert_device d [] = d ∷ []
  insert_device d (e ∷ es) = elim (function_less e d) [
    | true ↦ e ∷ insert_device d es
    | false ↦ d ∷ e ∷ es
  ]

  unfoldable pub by_function : List (Device Ip) → List (Device Ip)
  by_function [] = []
  by_function (d ∷ ds) = insert_device d (by_function ds)

  -- The devices that the loop passes over.
  unfoldable pub is_skipped : Device Ip → Bool
  is_skipped d = same_function (function d) fake || is_empty (os_image d)

module _ (hv : Hypervisor) (split : Bytes → Option (Bytes × Bytes)) {Ip NetIp : Type 0} where
  unfoldable pub abandon_starts : Error → List ℕ → Exec (Session Ip NetIp) (Unit {0})
  abandon_starts e started = tell_all hv (undo_started started) >> raise e

  -- `bmcMan.startAll` and `bmcMan.stopAll`, with the commands that have been run.
  unfoldable pub start_bmcs : List Bytes → Exec (Session Ip NetIp) Bool
  start_bmcs bmc_order s =
      let r = start_all (hv.vbmc s.log) split s.runner.bmc_man bmc_order s.commands in
      pure r.0 (record s { commands = r.1 })

  by_stopped : Bool → Exec (Session Ip NetIp) (Unit {0})
  by_stopped true = pure tt
  by_stopped false = raise bmc_stop_failed

  unfoldable pub stop_bmcs : List Bytes → Exec (Session Ip NetIp) (Unit {0})
  unfolding by_stopped
  stop_bmcs bmc_order s =
      let r = stop_all (hv.vbmc s.log) s.runner.bmc_man bmc_order s.commands in
      by_stopped r.0 (record s { commands = r.1 })

  unfoldable pub finish_start : List ℕ → Bool → Exec (Session Ip NetIp) (Unit {0})
  finish_start started true = pure tt
  finish_start started false = abandon_starts bmc_start_failed started

  -- The rounds of the loop, and what follows it. A domain that the map does not have is a nil pointer,
  -- on which `Create` panics.
  unfoldable pub start_each :
      List Bytes → List (Device Ip) → List ℕ → Exec (Session Ip NetIp) (Unit {0})
  start_each bmc_order [] started s = (start_bmcs bmc_order >>= finish_start started) s
  start_each bmc_order (d ∷ ds) started s = elim (is_skipped d) [
    | true ↦ start_each bmc_order ds started s
    | false ↦ elim (domain_named (s.runner.name_prefix ++ d.name) s.domains) [
      | none ↦ crash s
      | some dom ↦
          attempt hv (create_domain dom) (abandon_starts (start_failed d.name) started)
            (λ _. start_each bmc_order ds (started ++ dom ∷ [])) s
    ]
  ]

  -- `ds` is `t.Devices()`.
  unfoldable pub start_domains : List Bytes → List (Device Ip) → Exec (Session Ip NetIp) (Unit {0})
  start_domains bmc_order ds = start_each bmc_order (by_function ds) []
