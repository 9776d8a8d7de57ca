-- ===== src/Tests/Commands.antt =====
-- The theorem on the commands of the virtual BMCs, where the program refuses the second addition.
use runtopo.Prelude.{
  ◌≡◌, refl, Bool, true, false, Bytes, codes, str_eq, Option, some, List, [], ◌∷◌,
}
use runtopo.Prelude.Dict.{lookup}
use runtopo.Libvirt.Vbmc.{Bmc, BmcMan}
use runtopo.Libvirt.Vbmc.Commands.{
  Command, Log, visited, start_all, start_from, start_added, vbmc_add, add_command, run,
  delete_added,
}
use runtopo.Libvirt.Vbmc.Commands.Undo.{Ends, start_all-Ends}

-- Only the first command succeeds.
abbrev first_only : Log → Command → Bool
first_only [] c = true
first_only (d ∷ log) c = false

abbrev local : Bytes → Option (Bytes × Bytes)
local addr = some (codes "::", addr)

abbrev bmc : Bmc
bmc = record { addr = codes "6230"; user = codes "runtopo"; password = codes "secret" }

abbrev man : BmcMan
man = record {
  all = (codes "leaf", bmc) ∷ (codes "spine", bmc) ∷ [];
  next_port = 6232;
  connect = codes "qemu:///system";
  addr = codes "::";
  user = codes "runtopo";
  password = codes "secret";
}

abbrev order : List Bytes
order = codes "leaf" ∷ codes "spine" ∷ []

-- Two additions, and the deletion of the first.
start_all_run : start_all first_only local man order [] ≡ (
  false,
  add_command man (codes "leaf") bmc (codes "::") (codes "6230")
      ∷ add_command man (codes "spine") bmc (codes "::") (codes "6230")
      ∷ (codes "delete" ∷ codes "leaf" ∷ [])
      ∷ [],
)
unfolding start_all start_from start_added vbmc_add run delete_added lookup str_eq
start_all_run = refl

start_all-Ends_example :
    Ends first_only local man (visited man order) [] (start_all first_only local man order [])
start_all-Ends_example = start_all-Ends first_only local man order []
