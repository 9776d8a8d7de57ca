-- ===== src/CommandLine/Main.antt =====
-- `main` of runtopo.go. A process that `log.Fatal` ends runs no deferred function; the log's text, the
-- signals, and the close of the two files are not modelled.
use runtopo.Prelude.{
  Bool, true, false, Bytes, Option, none, some, List, [], ◌∷◌, Outcome, ok, err, panic,
  if◌then◌else◌,
}
use runtopo.Errors.{Error}
use runtopo.Topology.Netaddr.{Netaddr}
use runtopo.Topology.Graph.{DotNode, DotLine}
use runtopo.Topology.Topo.{Topo}
use runtopo.Topology.Parse.{with_auto_mgmt_network, parse_file}
use runtopo.Libvirt.Runner.{Runner, RunnerOption, new_runner}
use runtopo.Libvirt.Hypervisor.{Log, Session}
use runtopo.Libvirt.Lifecycle.{Outside, Orders, run, destroy}
use runtopo.CommandLine.{Environment, Flags, Files, load_ssh_public_keys, runner_options}

-- How the process ends.
pub data Exit : Type 0 where
  done usage no_keys bad_tunnel_ip bad_options crashed : Exit
  bad_topology failed : Error → Exit

-- What Parse, Run, Destroy and NewRunner take as arguments here, and the files.
pub record World (N : Netaddr) (NetIp : Type 0) : Type 0 where
  pub outside : Outside N.Ip NetIp
  pub orders : Orders
  pub files : Files
  pub read_dot : Bytes → Option (List DotNode × List DotLine)
  pub order : List Bytes
  pub wire_order : List Bytes
  -- the files of the directory of a path
  pub config_fs : Bytes → Bytes → Option Bytes
  pub random : Bytes
  pub local : NetIp

module _ (N : Netaddr) {NetIp : Type 0} (w : World N NetIp) where
  abbrev pub St : Type 0
  St = Session N.Ip NetIp

  abbrev pub started_with : Runner N.Ip NetIp → St
  started_with r = record {
    runner = r;
    conn = none;
    domains = some [];
    base_images = [];
    log = [];
    commands = [];
  }

  pub exit_of : Outcome Error (Unit {0}) × St → Exit × Log
  exit_of (ok u, s) = (done, s.log)
  exit_of (err e, s) = (failed e, s.log)
  exit_of (panic, s) = (crashed, s.log)

  -- `if *destroy`
  pub launch : Bool → Topo N → Runner N.Ip NetIp → Exit × Log
  unfolding exit_of
  launch true t r = exit_of (destroy N w.outside w.orders t (started_with r))
  launch false t r = exit_of (run N w.outside w.orders t (started_with r))

  pub with_options : Flags → Topo N → Option (List (RunnerOption N.Ip NetIp)) → Exit × Log
  unfolding launch
  with_options f t none = (bad_options, [])
  with_options f t (some opts) = launch f.destroy t (new_runner w.random w.local opts)

  pub with_topology : Flags → Bytes → List Bytes → NetIp → Outcome Error (Topo N) → Exit × Log
  unfolding with_options
  with_topology f path keys ip panic = (crashed, [])
  with_topology f path keys ip (err e) = (bad_topology e, [])
  with_topology f path keys ip (ok t) =
      with_options f t (runner_options w.files w.outside.parse_mac f keys ip (w.config_fs path))

  pub with_tunnel_ip : Flags → Bytes → List Bytes → Option NetIp → Exit × Log
  unfolding with_topology
  with_tunnel_ip f path keys none = (bad_tunnel_ip, [])
  with_tunnel_ip f path keys (some ip) = with_topology f path keys ip (
      parse_file N w.files.read_file w.read_dot w.order w.wire_order path
        (if f.auto_mgmt then with_auto_mgmt_network N ∷ [] else []))

  pub with_keys : Flags → Bytes → Option (List Bytes) → Exit × Log
  unfolding with_tunnel_ip
  with_keys f path none = (no_keys, [])
  with_keys f path (some keys) = with_tunnel_ip f path keys (w.outside.parse_net_ip f.tunnel_ip)

  -- `arguments` is what `flag.Parse` leaves.
  unfoldable pub main : Environment → Flags → List Bytes → Exit × Log
  unfolding with_keys
  main env f [] = (usage, [])
  main env f (path ∷ []) = with_keys f path (load_ssh_public_keys w.files env)
  main env f (path ∷ more ∷ arguments) = (usage, [])
