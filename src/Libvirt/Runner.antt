-- ===== src/Libvirt/Runner.antt =====
-- `Runner` of runner/libvirt/runner.go, its options and `NewRunner`. The fields that hold libvirt's
-- connection, domains and volumes are not part of this record.
use runtopo.Prelude.{
  ℕ, ◌-◌, ◌%◌, ◌^◌, Bool, true, false, Bytes, codes, Option, none, some, List, [], ◌∷◌,
}
use runtopo.Prelude.Int.{ℤ, pos, negsuc}
use runtopo.Prelude.Dict.{Dict}
use runtopo.Libvirt.Device.{HostDevice, HostBmc}
use runtopo.Libvirt.Vbmc.{BmcMan, BmcConfig, new_bmc_man}

-- `config_fs` is what `fs.ReadFile` returns for a file of it. Of the two writers only whether the
-- caller gave them is kept.
pub record Runner (Ip NetIp : Type 0) : Type 0 where
  pub devices : Dict (HostDevice Ip NetIp)
  pub ssh_config_out : Bool
  pub bmc_config_out : Bool
  pub config_fs : Option (Bytes → Option Bytes)
  pub bmc_man : BmcMan
  pub bmcs : List HostBmc
  pub uri : Bytes
  pub name_prefix : Bytes
  pub tunnel_ip : NetIp
  pub mac_base : Bytes
  pub port_base : ℤ
  pub port_gap : ℤ
  pub storage_pool : Bytes
  pub authorized_keys : List Bytes
  pub bmc_addr : Bytes

abbrev pub RunnerOption : Type 0 → Type 0 → Type 0
RunnerOption Ip NetIp = Runner Ip NetIp → Runner Ip NetIp

-- The configuration with no field set.
unconfigured : BmcConfig
unconfigured = record { connect = []; addr = []; port0 = 0; user = []; password = [] }

module _ {Ip NetIp : Type 0} where
  unfoldable pub with_connection_uri : Bytes → RunnerOption Ip NetIp
  with_connection_uri uri r = record r { uri = uri }

  unfoldable pub with_name_prefix : Bytes → RunnerOption Ip NetIp
  with_name_prefix prefix r = record r { name_prefix = prefix }

  unfoldable pub with_tunnel_ip : NetIp → RunnerOption Ip NetIp
  with_tunnel_ip ip r = record r { tunnel_ip = ip }

  unfoldable pub with_mac_address_base : Bytes → RunnerOption Ip NetIp
  with_mac_address_base mac r = record r { mac_base = mac }

  unfoldable pub with_port_base : ℤ → RunnerOption Ip NetIp
  with_port_base port r = record r { port_base = port }

  unfoldable pub with_port_gap : ℤ → RunnerOption Ip NetIp
  with_port_gap delta r = record r { port_gap = delta }

  unfoldable pub with_storage_pool : Bytes → RunnerOption Ip NetIp
  with_storage_pool pool r = record r { storage_pool = pool }

  unfoldable pub with_authorized_keys : List Bytes → RunnerOption Ip NetIp
  with_authorized_keys keys r = record r { authorized_keys = keys }

  unfoldable pub write_ssh_config : RunnerOption Ip NetIp
  write_ssh_config r = record r { ssh_config_out = true }

  unfoldable pub write_bmc_config : RunnerOption Ip NetIp
  write_bmc_config r = record r { bmc_config_out = true }

  unfoldable pub with_bmc_addr : Bytes → RunnerOption Ip NetIp
  with_bmc_addr a r = record r { bmc_addr = a }

  unfoldable pub with_config_fs : (Bytes → Option Bytes) → RunnerOption Ip NetIp
  with_config_fs fsys r = record r { config_fs = some fsys }

  apply_all : List (RunnerOption Ip NetIp) → RunnerOption Ip NetIp
  apply_all [] r = r
  apply_all (opt ∷ opts) r = apply_all opts (opt r)

  -- `random` is the password that `randomString` makes, `local` the address 127.0.0.1.
  unfoldable pub new_runner : Bytes → NetIp → List (RunnerOption Ip NetIp) → Runner Ip NetIp
  unfolding apply_all unconfigured
  new_runner random local opts =
      let r = apply_all opts (record {
        devices = [];
        ssh_config_out = false;
        bmc_config_out = false;
        config_fs = none;
        bmc_man = new_bmc_man random unconfigured;
        bmcs = [];
        uri = codes "qemu:///system";
        name_prefix = codes "runtopo-";
        tunnel_ip = local;
        mac_base = 0x44 ∷ 0x38 ∷ 0x39 ∷ 0 ∷ 0 ∷ 0 ∷ [];
        port_base = pos 10000;
        port_gap = pos 1000;
        storage_pool = codes "default";
        authorized_keys = [];
        bmc_addr = [];
      }) in
      record r {
        bmc_man = new_bmc_man random (record unconfigured { connect = r.uri; addr = r.bmc_addr });
      }

-- `uint(n)` of an `int`.
unfoldable pub to_uint : ℤ → ℕ
to_uint (pos n) = n % 2 ^ 64
to_uint (negsuc n) = 2 ^ 64 - 1 - n % 2 ^ 64
