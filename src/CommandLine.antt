-- ===== src/CommandLine.antt =====
-- runtopo.go: the flags with their defaults from the environment, and `main`. The environment, the flags on
-- the command line, the user's home directory, files, and what `net.ParseIP` and `net.ParseMAC` return are
-- arguments. Signals, and the log's text, are not modelled.
pub mod Main
use runtopo.Prelude.{
  ℕ, Bool, true, false, not, Bytes, codes, Option, none, some, List, [], ◌∷◌, ◌++◌, if◌then◌else◌,
}
use runtopo.Prelude.Int.{ℤ, pos}
use runtopo.Strconv.{atoi}
use runtopo.Topology.AutoMgmt.{is_empty}
use runtopo.Libvirt.Runner.{
  Runner, RunnerOption, with_connection_uri, with_name_prefix, with_tunnel_ip,
  with_mac_address_base, with_port_base, with_port_gap, with_storage_pool, with_authorized_keys,
  write_ssh_config, write_bmc_config, with_bmc_addr, with_config_fs, new_runner,
}

-- `os.Getenv`: the empty text for a variable that is not set.
abbrev pub Environment : Type 0
Environment = Bytes → Bytes

unfoldable pub get_env_or_default : Environment → Bytes → Bytes → Bytes
get_env_or_default env key default = if is_empty (env key) then default else env key

-- `atoi`: 0 for a text that is no number.
unfoldable pub atoi_or_zero : Bytes → ℤ
atoi_or_zero a = elim (atoi a) [ none ↦ pos 0 | some i ↦ i ]

pub record Flags : Type 0 where
  pub libvirt_uri : Bytes
  pub mac_addr_base : Bytes
  pub name_prefix : Bytes
  pub tunnel_ip : Bytes
  pub port_base : ℤ
  pub port_gap : ℤ
  pub auto_mgmt : Bool
  pub storage_pool : Bytes
  pub write_ssh_config : Bytes
  pub write_bmc_config : Bytes
  pub bmc_addr : Bytes
  pub destroy : Bool

-- The flags as they are declared.
unfoldable pub default_flags : Environment → Flags
unfolding get_env_or_default atoi_or_zero
default_flags env = record {
  libvirt_uri = env (codes "LIBVIRT_DEFAULT_URI");
  mac_addr_base = env (codes "RUNTOPO_MAC_BASE");
  name_prefix = get_env_or_default env (codes "RUNTOPO_NAME_PREFIX") (codes "runtopo-");
  tunnel_ip = get_env_or_default env (codes "RUNTOPO_TUNNEL_IP") (codes "127.0.0.1");
  port_base = atoi_or_zero (get_env_or_default env (codes "RUNTOPO_PORT_BASE") (codes "10000"));
  port_gap = atoi_or_zero (get_env_or_default env (codes "RUNTOPO_PORT_GAP") (codes "1000"));
  auto_mgmt = not (is_empty (env (codes "RUNTOPO_AUTO_MGMT")));
  storage_pool = get_env_or_default env (codes "RUNTOPO_LIBVIRT_POOL") (codes "default");
  write_ssh_config = env (codes "RUNTOPO_WRITE_SSH_CONFIG");
  write_bmc_config = env (codes "RUNTOPO_WRITE_BMC_CONFIG");
  bmc_addr = env (codes "RUNTOPO_BMC_ADDR");
  destroy = not (is_empty (env (codes "RUNTOPO_DESTROY")));
}

-- The files of a directory that match `id_*.pub`, none for an error, and the text of a file.
pub record Files : Type 0 where
  pub public_keys : Bytes → Option (List Bytes)
  pub read_file : Bytes → Option Bytes
  pub create : Bytes → Bool
  -- the home directory in the user's record
  pub home_dir : Option Bytes

module _ (files : Files) where
  read_keys : List Bytes → Option (List Bytes)
  read_keys [] = some []
  read_keys (file ∷ rest) = elim (files.read_file file) [
    | none ↦ none
    | some p ↦ elim (read_keys rest) [ none ↦ none | some keys ↦ some (p ∷ keys) ]
  ]

  keys_below : Option Bytes → Option (List Bytes)
  keys_below none = none
  keys_below (some home) = elim (files.public_keys home) [
    | none ↦ none
    | some names ↦ read_keys names
  ]

  unfoldable pub load_ssh_public_keys : Environment → Option (List Bytes)
  unfolding read_keys keys_below
  load_ssh_public_keys env =
      keys_below
        (if is_empty (env (codes "HOME")) then files.home_dir else some (env (codes "HOME")))

  module _ {Ip NetIp : Type 0} (parse_mac : Bytes → Option Bytes) where
    -- The options that are there only for a flag that is set; none for an error.
    uri_option : Bytes → List (RunnerOption Ip NetIp)
    uri_option [] = []
    uri_option (c ∷ s) = with_connection_uri (c ∷ s) ∷ []

    mac_option : Bytes → Option (List (RunnerOption Ip NetIp))
    mac_option [] = some []
    mac_option (c ∷ s) = elim (parse_mac (c ∷ s)) [
      | none ↦ none
      | some base ↦ some (with_mac_address_base base ∷ [])
    ]

    file_option : RunnerOption Ip NetIp → Bytes → Option (List (RunnerOption Ip NetIp))
    file_option opt [] = some []
    file_option opt (c ∷ s) = if files.create (c ∷ s) then some (opt ∷ []) else none

    bmc_option : Bytes → List (RunnerOption Ip NetIp)
    bmc_option [] = []
    bmc_option (c ∷ s) = with_bmc_addr (c ∷ s) ∷ []

    unfoldable pub runner_options :
        Flags → List Bytes → NetIp → (Bytes → Option Bytes) → Option (List (RunnerOption Ip NetIp))
    unfolding uri_option mac_option file_option bmc_option
    runner_options f keys ip config_fs = elim (mac_option f.mac_addr_base) [
      | none ↦ none
      | some mac ↦ elim (file_option write_ssh_config f.write_ssh_config) [
        | none ↦ none
        | some ssh ↦ elim (file_option write_bmc_config f.write_bmc_config) [
          | none ↦ none
          | some bmc ↦ some (
              with_name_prefix f.name_prefix
                ∷ with_port_base f.port_base
                ∷ with_port_gap f.port_gap
                ∷ with_storage_pool f.storage_pool
                ∷ with_tunnel_ip ip
                ∷ with_authorized_keys keys
                ∷ with_config_fs config_fs
                ∷ uri_option f.libvirt_uri
              ++ (mac ++ (ssh ++ (bmc ++ bmc_option f.bmc_addr))))
        ]
      ]
    ]
