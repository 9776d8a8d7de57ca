-- ===== src/Libvirt/Hypervisor.antt =====
-- The calls of libvirt (package libvirt-go, which is not part of the repository) and of the programs
-- and servers that the runner uses, and the state of a run: the runner with its connection, domains and
-- images, and the calls made so far. Handles are numbers. What is answered to a call, after the calls
-- before, is an argument.
pub mod Rollback
pub mod Quiet
pub mod Holds
use runtopo.Prelude.{ℕ, Bool, Bytes, Option, none, some, List, [], ◌∷◌, ◌++◌, Outcome, ok, err}
use runtopo.Prelude.Dict.{Dict}
use runtopo.Errors.{Error}
use runtopo.Libvirt.Exec.{Exec, pure, raise, ◌>>=◌, ◌>>◌}
use runtopo.Libvirt.Runner.{Runner}
use runtopo.Libvirt.Vbmc.Commands.{Command}

pub data Call : Type 0 where
  -- the connection; storage pools and volumes
  connect : Bytes → Call
  close : ℕ → Call
  lookup_pool : Bytes → Call
  free_pool : ℕ → Call
  lookup_volume : ℕ → Bytes → Call
  create_volume : ℕ → Bytes → Call
  delete_volume free_volume volume_info volume_path : ℕ → Call
  -- streams: a new one; the upload to a volume through it; its end
  new_stream : Call
  upload : ℕ → ℕ → ℕ → Call
  abort_stream finish_stream free_stream : ℕ → Call
  -- domains
  define_domain lookup_domain : Bytes → Call
  create_domain destroy_domain undefine_domain free_domain : ℕ → Call
  -- the requests HEAD and GET, and the copy of a body into a stream
  http_head http_get : Bytes → Call
  copy_body : Bytes → ℕ → Call
  -- a temporary file with that prefix and text, whose name is the text of the answer; its removal
  write_temp : Bytes → Bytes → Call
  remove : Bytes → Call
  -- virt-customize with its arguments and its input; the runner's writers
  virt_customize : List Bytes → Bytes → Call
  write_ssh write_bmc : Bytes → Call

-- A call, and its answer: none is an error, a number the handle or the value that it returned.
pub record Event : Type 0 where
  pub call : Call
  pub answer : Option ℕ

abbrev pub Log : Type 0
Log = List Event

pub record Hypervisor : Type 0 where
  -- the answer to a call, as a number and, where the code reads one, as a text
  pub number : Log → Call → Option ℕ
  pub text : Log → Call → Bytes
  -- whether the program vbmc succeeds
  pub vbmc : Log → List Command → Command → Bool

pub record Session (Ip NetIp : Type 0) : Type 0 where
  pub runner : Runner Ip NetIp
  pub conn : Option ℕ
  -- none is the nil map
  pub domains : Option (Dict ℕ)
  pub base_images : Dict ℕ
  pub log : Log
  pub commands : List Command

-- The one or the other, as there is an answer.
abbrev pub branch : {B : Type 0} → B → (ℕ → B) → Option ℕ → B
branch failure success none = failure
branch failure success (some n) = success n

abbrev pub calls_of : Log → List Call
calls_of [] = []
calls_of (e ∷ es) = e.call ∷ calls_of es

module _ (hv : Hypervisor) {Ip NetIp : Type 0} where
  abbrev pub logged : Call → Session Ip NetIp → Session Ip NetIp
  logged c s = record s { log = s.log ++ record { call = c; answer = hv.number s.log c } ∷ [] }

  -- A call, and what follows where it fails and where it returns a value.
  abbrev pub attempt :
      {A : Type 0}
      → Call
      → Exec (Session Ip NetIp) A
      → (ℕ → Exec (Session Ip NetIp) A)
      → Exec (Session Ip NetIp) A
  attempt c failure success s = branch failure success (hv.number s.log c) (logged c s)

  -- A call whose error is ignored.
  unfoldable pub tell : Call → Exec (Session Ip NetIp) (Unit {0})
  tell c s = (ok tt, logged c s)

  unfoldable pub tell_all : List Call → Exec (Session Ip NetIp) (Unit {0})
  tell_all [] = pure tt
  tell_all (c ∷ cs) = tell c >> tell_all cs

  -- A call whose error is returned.
  abbrev pub ask_or : Error → Call → Exec (Session Ip NetIp) ℕ
  ask_or e c = attempt c (raise e) pure
