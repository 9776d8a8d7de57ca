-- ===== src/Topology/Function.antt =====
-- `DeviceFunction` of topology/device.go, its string form of devicefunction_string.go, and the
-- defaults of defaults.go.
use runtopo.Prelude.{
  ℕ, ◌-◌, ◌*◌, ◌^◌, ◌≡◌, refl, Bool, true, false, List, [], ◌∷◌, Bytes, codes, str_eq, take, drop,
  ◌==◌, if◌then◌else◌,
}

pub data DeviceFunction : Type 0 where
  fake oob_server oob_switch exit super_spine spine leaf tor host no_function : DeviceFunction

-- The constants count from 0 in this order (`iota`).
unfoldable pub to_int : DeviceFunction → ℕ
to_int fake = 0
to_int oob_server = 1
to_int oob_switch = 2
to_int exit = 3
to_int super_spine = 4
to_int spine = 5
to_int leaf = 6
to_int tor = 7
to_int host = 8
to_int no_function = 9

unfoldable pub device_function_from_string : Bytes → DeviceFunction
device_function_from_string s =
    if str_eq s (codes "fake")
    then fake
    else if str_eq s (codes "oob-server")
    then oob_server
    else if str_eq s (codes "oob-switch")
    then oob_switch
    else if str_eq s (codes "exit")
    then exit
    else if str_eq s (codes "superspine")
    then super_spine
    else if str_eq s (codes "spine")
    then spine
    else if str_eq s (codes "leaf")
    then leaf
    else if str_eq s (codes "tor")
    then tor
    else if str_eq s (codes "host")
    then host
    else no_function

abbrev function_name : Bytes
function_name = codes "fakeoob-serveroob-switchexitsuperspinespineleaftorhostNoFunction"

abbrev function_index : List ℕ
function_index = 0 ∷ 4 ∷ 14 ∷ 24 ∷ 28 ∷ 38 ∷ 43 ∷ 47 ∷ 50 ∷ 54 ∷ 64 ∷ []

-- `_DeviceFunction_name[_DeviceFunction_index[i]:_DeviceFunction_index[i+1]]`, where the rest of
-- the table from `i` on is given. Its guard for numbers outside the constants has no case here.
slice_at : List ℕ → Bytes
slice_at (a ∷ b ∷ rest) = take (b - a) (drop a function_name)
slice_at _ = []

unfoldable pub function_string : DeviceFunction → Bytes
unfolding slice_at to_int
function_string f = slice_at (drop (to_int f) function_index)

-- The string of every function, `fake` and `NoFunction` among them, is read back as that function.
pub function_round_trip : (f : DeviceFunction) → device_function_from_string (function_string f) ≡ f
unfolding device_function_from_string function_string str_eq
function_round_trip fake = refl
function_round_trip oob_server = refl
function_round_trip oob_switch = refl
function_round_trip exit = refl
function_round_trip super_spine = refl
function_round_trip spine = refl
function_round_trip leaf = refl
function_round_trip tor = refl
function_round_trip host = refl
function_round_trip no_function = refl

pub record DeviceDefaults : Type 0 where
  pub os : Bytes
  pub vcpus : ℕ
  pub memory : ℕ

abbrev pub cumulus_qcow2 : Bytes
cumulus_qcow2 =
    codes
      "https://d2cd9e7ca6hntp.cloudfront.net/public/CumulusLinux-4.4.0/cumulus-linux-4.4.0-vx-amd64-qemu.qcow2"

abbrev pub fedora_qcow2 : Bytes
fedora_qcow2 =
    codes
      "https://download.fedoraproject.org/pub/fedora/linux/releases/34/Cloud/x86_64/images/Fedora-Cloud-Base-34-1.2.x86_64.qcow2"

with_os : Bytes → DeviceDefaults
with_os os = record { os = os; vcpus = 1; memory = 768 * 2 ^ 20 }

-- The table has no entry for `Fake`, which leaves the zero value at its index.
unfoldable pub builtin_defaults : DeviceFunction → DeviceDefaults
unfolding with_os
builtin_defaults fake = record { os = []; vcpus = 0; memory = 0 }
builtin_defaults oob_server = with_os fedora_qcow2
builtin_defaults oob_switch = with_os cumulus_qcow2
builtin_defaults exit = with_os cumulus_qcow2
builtin_defaults super_spine = with_os cumulus_qcow2
builtin_defaults spine = with_os cumulus_qcow2
builtin_defaults leaf = with_os cumulus_qcow2
builtin_defaults tor = with_os cumulus_qcow2
builtin_defaults host = with_os fedora_qcow2
builtin_defaults no_function = with_os fedora_qcow2

-- `f == want` on functions
unfoldable pub same_function : DeviceFunction → DeviceFunction → Bool
unfolding to_int
same_function f g = to_int f == to_int g

-- The loop of `HasFunction`.
unfoldable pub among : DeviceFunction → List DeviceFunction → Bool
unfolding same_function
among want [] = false
among want (f ∷ fs) = if same_function f want then true else among want fs
