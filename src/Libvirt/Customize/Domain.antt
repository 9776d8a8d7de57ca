-- ===== src/Libvirt/Customize/Domain.antt =====
-- `customizeDomain` of runner/libvirt/customize.go. `crypt_pw` is what bcrypt makes of the random password
-- for a device.
use runtopo.Prelude.{Bytes, codes, Option, List, [], ◌∷◌, ◌++◌}
use runtopo.Errors.{temp_file_failed, customize_failed}
use runtopo.Libvirt.Device.{HostDevice}
use runtopo.Libvirt.Exec.{Exec, pure, raise, lift, ◌>>=◌, finally}
use runtopo.Libvirt.Hypervisor.{
  virt_customize, write_temp, remove, Hypervisor, Session, attempt, tell,
}
use runtopo.Libvirt.Template.{render_udev_rules}
use runtopo.Libvirt.Customize.{text, PrefixText, commands_for_function}

module _ {Ip NetIp : Type 0} where
  unfoldable pub customize_arguments : Bytes → HostDevice Ip NetIp → List Bytes
  customize_arguments uri d =
      codes "-q"
      ∷ codes "-d"
      ∷ d.name
      ∷ codes "-c"
      ∷ uri
      ∷ codes "--hostname"
      ∷ d.device.name
      ∷ codes "--timezone"
      ∷ codes "Etc/UTC"
      ∷ codes "--delete"
      ∷ codes "/etc/hw_init.d/S10rename_eth_swp.sh"
      ∷ codes "--write"
      ∷ (codes "/etc/udev/rules.d/70-persistent-net.rules:" ++ render_udev_rules d.interfaces)
      ∷ codes "--commands-from-file"
      ∷ codes "/dev/stdin"
      ∷ []

module _ (hv : Hypervisor) (parse_prefix : Bytes → Option PrefixText) (crypt_pw : Bytes → Bytes)
    {Ip NetIp : Type 0} where
  -- virt-customize with these commands, and the device's own behind them.
  unfoldable pub run_customize :
      Bytes → HostDevice Ip NetIp → Bytes → Exec (Session Ip NetIp) (Unit {0})
  unfolding customize_arguments
  run_customize uri d commands =
      lift (commands_for_function parse_prefix (crypt_pw d.device.name) d) >>= λ own.
      attempt hv (virt_customize (customize_arguments uri d) (commands ++ own))
        (raise (customize_failed d.name)) (λ _. pure tt)

  unfoldable pub with_config :
      Bytes → HostDevice Ip NetIp → Bytes → Bytes → Exec (Session Ip NetIp) (Unit {0})
  with_config uri d extra [] = run_customize uri d extra
  with_config uri d extra (c ∷ cs) = λ s.
      let file = hv.text s.log (write_temp (d.name ++ codes "-config") (c ∷ cs)) in
      attempt hv (write_temp (d.name ++ codes "-config") (c ∷ cs)) (raise (temp_file_failed d.name))
        (λ _.
          finally (tell hv (remove file))
            (run_customize uri d (text (extra ∷ codes "run " ∷ file ∷ codes "\n" ∷ []))))
        s

  unfoldable pub customize_domain :
      Bytes → HostDevice Ip NetIp → Bytes → Exec (Session Ip NetIp) (Unit {0})
  unfolding with_config
  customize_domain uri d extra = with_config uri d extra d.config
