-- ===== src/Libvirt/Customize/Lines.antt =====
-- The files that runner/libvirt/customize.go hands to virt-customize in one command each: a backslash at
-- the end of a line goes on with the command on the next one.
use runtopo.Prelude.{
  ℕ, ◌≡◌, ◌≢◌, refl, sym, ap, ◌∙◌, subst, append_assoc, codes, Bool, true, false, Bool-cases, inl,
  inr, Bytes, [], ◌∷◌, ◌++◌, ◌==◌, ==_iff, if◌then◌else◌, arith,
}
use runtopo.Libvirt.Device.{HostDevice}
use runtopo.Libvirt.Customize.{
  continued, join_words, bridge_ports, bridge_conf, write_extra_mgmt_switch_commands,
}

-- The last byte of a text, and a newline for the empty one.
unfoldable pub last_byte_of : Bytes → ℕ
last_byte_of [] = b'\n'
last_byte_of (c ∷ []) = c
last_byte_of (c ∷ d ∷ s) = last_byte_of (d ∷ s)

-- How virt-customize's manual page says that a command is read: up to the first newline that has no
-- backslash before it; a backslash before a newline goes away. The first argument tells of a backslash
-- that has been read and not been given out.
unfoldable pub read_command : Bool → Bytes → Bytes × Bytes
read_command false [] = ([], [])
read_command true [] = (b'\\' ∷ [], [])
read_command false (c ∷ s) =
    if c == b'\\'
    then read_command true s
    else if c == b'\n'
    then ([], s)
    else (c ∷ (read_command false s).0, (read_command false s).1)
read_command true (c ∷ s) =
    if c == b'\n'
    then (c ∷ (read_command false s).0, (read_command false s).1)
    else if c == b'\\'
    then (b'\\' ∷ (read_command true s).0, (read_command true s).1)
    else (b'\\' ∷ c ∷ (read_command false s).0, (read_command false s).1)

last_byte_of-tail : (c : ℕ) (s : Bytes) → last_byte_of (c ∷ s) ≢ b'\\' → last_byte_of s ≢ b'\\'
unfolding last_byte_of
last_byte_of-tail c [] h = λ e. omega (arith, e)
last_byte_of-tail c (d ∷ s) h = h

-- What is read so far, and what is still to come.
abbrev expected : Bool → Bytes → Bytes
expected false s = s
expected true s = b'\\' ∷ s

abbrev Reads : Bool → Bytes → Bytes → Type 0
Reads held s rest = read_command held (continued s ++ b'\n' ∷ rest) ≡ (expected held s, rest)

Reads-newline : (held : Bool) (s rest : Bytes) → Reads false s rest → Reads held (b'\n' ∷ s) rest
unfolding read_command continued
Reads-newline false s rest h = ap (λ r. (b'\n' ∷ r.0, r.1)) h
Reads-newline true s rest h = ap (λ r. (b'\\' ∷ b'\n' ∷ r.0, r.1)) h

Reads-backslash : (held : Bool) (s rest : Bytes) → Reads true s rest → Reads held (b'\\' ∷ s) rest
unfolding read_command continued
Reads-backslash false s rest h = h
Reads-backslash true s rest h = ap (λ r. (b'\\' ∷ r.0, r.1)) h

Reads-other :
    (held : Bool) (c : ℕ) (s rest : Bytes)
    → (c == b'\n') ≡ false
    → (c == b'\\') ≡ false
    → Reads false s rest
    → Reads held (c ∷ s) rest
unfolding read_command continued
Reads-other false c s rest e f h =
    rw (e, continued) (rw (f, e, read_command) (ap (λ r. (c ∷ r.0, r.1)) h))
Reads-other true c s rest e f h =
    rw (e, continued) (rw (e, f, read_command) (ap (λ r. (b'\\' ∷ c ∷ r.0, r.1)) h))

Reads-all :
    (held : Bool) (s rest : Bytes) → last_byte_of (expected held s) ≢ b'\\' → Reads held s rest
unfolding read_command continued last_byte_of
Reads-all false [] rest h = refl
Reads-all true [] rest h = absurd (h refl)
Reads-all held (c ∷ s) rest h = elim (Bool-cases (c == b'\n')) [
  | inl e ↦
      subst (λ b. Reads held (b ∷ s) rest) (sym ((==_iff c b'\n').0 e))
        (Reads-newline held s rest (Reads-all false s rest (last_byte_of-tail c s (last held h))))
  | inr e ↦ elim (Bool-cases (c == b'\\')) [
    | inl f ↦
        subst (λ b. Reads held (b ∷ s) rest) (sym ((==_iff c b'\\').0 f))
          (Reads-backslash held s rest (
            Reads-all true s rest
              (subst (λ b. last_byte_of (b ∷ s) ≢ b'\\') ((==_iff c b'\\').0 f) (last held h))))
    | inr f ↦
        Reads-other held c s rest e f (Reads-all false s rest (last_byte_of-tail c s (last held h)))
  ]
]
  where
    last :
        (held : Bool) → last_byte_of (expected held (c ∷ s)) ≢ b'\\' → last_byte_of (c ∷ s) ≢ b'\\'
    last false h = h
    last true h = h

-- A text in which each newline has got a backslash before it is read back as it was, as one command with
-- the newline that is put behind it, if it does not end in a backslash.
pub read_command-continued :
    (s rest : Bytes)
    → last_byte_of s ≢ b'\\'
    → read_command false (continued s ++ b'\n' ∷ rest) ≡ (s, rest)
read_command-continued s rest h = Reads-all false s rest h

last_byte_of-newline : (s : Bytes) → last_byte_of (s ++ b'\n' ∷ []) ≡ b'\n'
unfolding last_byte_of
last_byte_of-newline [] = refl
last_byte_of-newline (c ∷ []) = refl
last_byte_of-newline (c ∷ d ∷ s) = last_byte_of-newline (d ∷ s)

abbrev bridge_file : Bytes
bridge_file = codes "write /etc/network/interfaces.d/bridge.intf:"

abbrev bridge_head : Bytes
bridge_head = codes "auto bridge\niface bridge\n    bridge-ports "

module _ {Ip NetIp : Type 0} where
  bridge_conf-newline :
      (d : HostDevice Ip NetIp) → last_byte_of (bridge_file ++ bridge_conf d) ≢ b'\\'
  unfolding bridge_conf
  bridge_conf-newline d =
      let words = join_words (bridge_ports d.interfaces) in
      subst (λ b. b ≢ b'\\') (sym (last_byte_of-newline ((bridge_file ++ bridge_head) ++ words)))
        (λ e. omega (arith, e))

  -- What the management switch adds to the script, read as virt-customize reads it, is one command: it
  -- writes the bridge's configuration, with its newlines, into the file; what comes behind is left.
  pub write_extra_mgmt_switch_commands-one :
      (d : HostDevice Ip NetIp) (rest : Bytes)
      → read_command false (write_extra_mgmt_switch_commands d ++ rest)
        ≡ (codes "write /etc/network/interfaces.d/bridge.intf:" ++ bridge_conf d, rest)
  unfolding write_extra_mgmt_switch_commands continued
  write_extra_mgmt_switch_commands-one d rest =
      ap (read_command false)
        (ap (λ l. bridge_file ++ l) (append_assoc (continued (bridge_conf d)) (b'\n' ∷ []) rest))
      ∙ read_command-continued (bridge_file ++ bridge_conf d) rest (bridge_conf-newline d)
