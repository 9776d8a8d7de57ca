-- ===== src/Libvirt/Vbmc/Commands.antt =====
-- `startAll` and `stopAll` of runner/libvirt/vbmc.go, which run the program vbmc. A command is the list
-- of its arguments; what the program answers to it, after the commands before, is the argument
-- `succeeds`. What `net.SplitHostPort` returns is the argument `split`. The sequence of keys that the
-- loops over the BMCs visit is an argument too. A result is whether there is no error, and the commands
-- that have been run.
pub mod Undo
use runtopo.Prelude.{
  Bool, true, false, Bytes, codes, Option, none, some, List, [], ◌∷◌, ◌++◌, if◌then◌else◌,
}
use runtopo.Prelude.Dict.{lookup}
use runtopo.Libvirt.Vbmc.{Bmc, BmcMan}

abbrev pub Command : Type 0
Command = List Bytes

abbrev pub Log : Type 0
Log = List Command

-- The arguments of `vbmc add`.
unfoldable pub add_command : BmcMan → Bytes → Bmc → Bytes → Bytes → Command
add_command m dom_name b host port =
    codes "add"
    ∷ codes "--libvirt-uri"
    ∷ m.connect
    ∷ codes "--address"
    ∷ host
    ∷ codes "--port"
    ∷ port
    ∷ codes "--username"
    ∷ b.user
    ∷ codes "--password"
    ∷ b.password
    ∷ dom_name
    ∷ []

-- The keys of the visit that the map has.
unfoldable pub visited : BmcMan → List Bytes → List Bytes
visited m [] = []
visited m (k ∷ order) = elim (lookup k m.all) [
  | none ↦ visited m order
  | some _ ↦ k ∷ visited m order
]

module _ (succeeds : Log → Command → Bool) where
  unfoldable pub run : Command → Log → Bool × Log
  run c log = (succeeds log c, log ++ c ∷ [])

  -- `vbmcStart`, `vbmcStop` and `vbmcDelete`.
  abbrev vbmc_start : List Bytes → Log → Bool × Log
  vbmc_start names = run (codes "start" ∷ names)

  abbrev vbmc_stop : List Bytes → Log → Bool × Log
  vbmc_stop names = run (codes "stop" ∷ names)

  abbrev vbmc_delete : List Bytes → Log → Bool × Log
  vbmc_delete names = run (codes "delete" ∷ names)

  -- `vbmcDelete`, whose error nobody reads; it runs only where something was added.
  unfoldable pub delete_added : List Bytes → Log → Log
  delete_added [] log = log
  delete_added (k ∷ added) log = (vbmc_delete (k ∷ added) log).1

  -- `vbmcStart`, behind the loop.
  unfoldable pub start_added : List Bytes → Log → Bool × Log
  start_added [] log = (true, log)
  start_added (k ∷ added) log =
      let (fine, log') = vbmc_start (k ∷ added) log in
      if fine then (true, log') else (false, delete_added (k ∷ added) log')

  -- `vbmcStop` and `vbmcDelete` for the names.
  unfoldable pub stop_names : List Bytes → Log → Bool × Log
  stop_names [] log = (true, log)
  stop_names (k ∷ names) log =
      let (fine, log') = vbmc_stop (k ∷ names) log in
      if fine then vbmc_delete (k ∷ names) log' else (false, log')

  unfoldable pub stop_all : BmcMan → List Bytes → Log → Bool × Log
  stop_all m order log = stop_names (visited m order) log

module _ (succeeds : Log → Command → Bool) (split : Bytes → Option (Bytes × Bytes)) where
  unfoldable pub vbmc_add : BmcMan → Bytes → Bmc → Log → Bool × Log
  vbmc_add m dom_name b log = elim (split b.addr) [
    | none ↦ (false, log)
    | some (host, port) ↦ run succeeds (add_command m dom_name b host port) log
  ]

  -- The loop, and what follows it.
  unfoldable pub start_from : BmcMan → List Bytes → List Bytes → Log → Bool × Log
  start_from m [] added log = start_added succeeds added log
  start_from m (k ∷ order) added log = elim (lookup k m.all) [
    | none ↦ start_from m order added log
    | some b ↦
        let (fine, log') = vbmc_add m k b log in
        elim fine [
          | true ↦ start_from m order (added ++ k ∷ []) log'
          | false ↦ (false, delete_added succeeds added log')
        ]
  ]

  unfoldable pub start_all : BmcMan → List Bytes → Log → Bool × Log
  start_all m order log = start_from m order [] log
