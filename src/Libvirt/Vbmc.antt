-- ===== src/Libvirt/Vbmc.antt =====
-- runner/libvirt/vbmc.go: the configuration of the virtual BMCs. The password that `randomString`
-- makes is an argument. The next port, an int in the source, has no bound here: it starts at 6230 and
-- grows by one for each BMC that the map has, so that it never comes near 2 ^ 63.
pub mod Commands
use runtopo.Prelude.{
  ℕ, ◌+◌, Bool, false, ◌||◌, Bytes, codes, none, some, [], ◌∷◌, ◌++◌, ◌==◌, Outcome, ok, err,
  if◌then◌else◌,
}
use runtopo.Prelude.Dict.{Dict, lookup, insert}
use runtopo.Errors.{Error, bmc_exists}
use runtopo.Strconv.Format.{format_decimal}

pub record Bmc : Type 0 where
  pub addr : Bytes
  pub user : Bytes
  pub password : Bytes

pub record BmcConfig : Type 0 where
  pub connect : Bytes
  pub addr : Bytes
  pub port0 : ℕ
  pub user : Bytes
  pub password : Bytes

pub record BmcMan : Type 0 where
  pub all : Dict Bmc
  pub next_port : ℕ
  pub connect : Bytes
  pub addr : Bytes
  pub user : Bytes
  pub password : Bytes

-- `if v := ...; v != "" { field = v }`
unfoldable pub or_else : Bytes → Bytes → Bytes
or_else [] default = default
or_else (c ∷ s) default = c ∷ s

unfoldable pub new_bmc_man : Bytes → BmcConfig → BmcMan
unfolding or_else
new_bmc_man random c = record {
  all = [];
  next_port = if c.port0 == 0 then 6230 else c.port0;
  connect = or_else c.connect (codes "qemu:///system");
  addr = or_else c.addr (codes "::");
  user = or_else c.user (codes "runtopo");
  password = or_else c.password random;
}

unfoldable pub has_colon : Bytes → Bool
has_colon [] = false
has_colon (c ∷ s) = c == b':' || has_colon s

-- `net.JoinHostPort`
unfoldable pub join_host_port : Bytes → Bytes → Bytes
unfolding has_colon
join_host_port host port =
    if has_colon host then codes "[" ++ host ++ codes "]:" ++ port else host ++ codes ":" ++ port

-- A second BMC for a domain is an error.
unfoldable pub add : BmcMan → Bytes → Outcome Error (BmcMan × Bmc)
unfolding join_host_port format_decimal
add m dom_name = elim (lookup dom_name m.all) [
  | some _ ↦ err (bmc_exists dom_name)
  | none ↦
      let x : Bmc = record {
        addr = join_host_port m.addr (format_decimal m.next_port);
        user = m.user;
        password = m.password;
      } in
      ok (record m { all = insert dom_name x m.all; next_port = m.next_port + 1 }, x)
]
