-- ===== src/Topology/Device.antt =====
-- `Device` of topology/device.go, its attributes and what they default to.
pub mod Sizes
use runtopo.Prelude.{
  ℕ, Bool, Bytes, codes, str_eq, Option, none, some, List, [], ◌∷◌, if◌then◌else◌,
}
use runtopo.Prelude.Int.{ℤ, pos, shl64}
use runtopo.Prelude.Dict
use runtopo.Prelude.Dict.{Dict}
use runtopo.Strconv.{atoi, parse_int}
use runtopo.Topology.Function.{DeviceFunction, device_function_from_string, builtin_defaults, among}
use runtopo.Topology.Link.{Link}

-- `Ip` stands for `netaddr.IP`.
pub record Device (Ip : Type 0) : Type 0 where
  pub name : Bytes
  pub attrs : Dict Bytes
  pub links : List Link
  pub mgmt_ip : Ip

or_default : Option ℤ → ℤ → ℤ
or_default none v = v
or_default (some n) v = n

shifted : Option ℤ → ℕ → Option ℤ
shifted none k = none
shifted (some n) k = some (shl64 n k)

os_or_default : Bytes → Bytes → Bytes
os_or_default [] default = default
os_or_default (c ∷ s) default = if str_eq (c ∷ s) (codes "none") then [] else c ∷ s

module _ {Ip : Type 0} where
  unfoldable pub attr : Device Ip → Bytes → Bytes
  unfolding Dict.attr
  attr d key = Dict.attr d.attrs key

  unfoldable pub function : Device Ip → DeviceFunction
  unfolding attr
  function d = device_function_from_string (attr d (codes "function"))

  unfoldable pub has_function : Device Ip → List DeviceFunction → Bool
  unfolding among function
  has_function d fs = among (function d) fs

  -- An attribute that is a number counts; else the default does. The empty text, which stands for a
  -- missing attribute, is no number.
  unfoldable pub vcpus : Device Ip → ℤ
  unfolding or_default atoi builtin_defaults
  vcpus d = or_default (atoi (attr d (codes "cpu"))) (pos (builtin_defaults (function d)).vcpus)

  -- In bytes; the attribute is in MiB.
  unfoldable pub memory : Device Ip → ℤ
  unfolding or_default shifted
  memory d =
      or_default (shifted (parse_int (attr d (codes "memory"))) 20)
        (pos (builtin_defaults (function d)).memory)

  -- In bytes; the attribute is in GiB.
  unfoldable pub disk_size : Device Ip → ℤ
  unfolding or_default shifted
  disk_size d = or_default (shifted (parse_int (attr d (codes "disk"))) 30) (pos 0)

  unfoldable pub os_image : Device Ip → Bytes
  unfolding os_or_default
  os_image d = os_or_default (attr d (codes "os")) (builtin_defaults (function d)).os

  -- `Links`: a copy.
  unfoldable pub device_links : Device Ip → List Link
  device_links d = d.links
