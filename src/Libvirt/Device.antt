-- ===== src/Libvirt/Device.antt =====
-- The runner's own view of a device and of an interface: `device`, `iface` and `hostBMC` of
-- runner/libvirt/runner.go. `NetIp` stands for `net.IP`.
use runtopo.Prelude.{ℕ, Bool, Bytes, Option, List}
use runtopo.Topology.Device.{Device}
use runtopo.Libvirt.Vbmc.{Bmc}

-- `remote_tunnel_ip` is `none` where the source leaves the field nil.
pub record Iface (NetIp : Type 0) : Type 0 where
  pub name : Bytes
  pub mac : Bytes
  pub network : Bytes
  pub port : ℕ
  pub local_port : ℕ
  pub remote_tunnel_ip : Option NetIp
  pub pxe : Bool

pub record HostDevice (Ip NetIp : Type 0) : Type 0 where
  pub device : Device Ip
  pub name : Bytes
  pub tunnel_ip : NetIp
  pub interfaces : List (Iface NetIp)
  pub pool : Bytes
  pub config : Bytes

pub record HostBmc : Type 0 where
  pub name : Bytes
  pub bmc : Bmc
