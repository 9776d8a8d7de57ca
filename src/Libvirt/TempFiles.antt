-- ===== src/Libvirt/TempFiles.antt =====
-- `writeTempFile` and `validateDomainXML` of runner/libvirt/helper.go, by the calls of package os and of
-- virt-xml-validate that they make. What is answered to a call, after the calls before, is an argument.
use runtopo.Prelude.{
  ◌≡◌, Bool, true, false, Bytes, codes, List, [], ◌∷◌, ◌++◌, Outcome, Bool-cases, inl, inr,
}
use runtopo.Errors.{Error, temp_file_failed, invalid_xml}
use runtopo.Libvirt.Exec.{Exec, pure, raise, finally, ◌>>=◌}

pub data FileCall : Type 0 where
  temp_file : Bytes → FileCall
  write : Bytes → FileCall
  close : FileCall
  remove : FileCall
  validate : Bytes → FileCall

abbrev pub FileLog : Type 0
FileLog = List FileCall

module _ (succeeds : FileLog → FileCall → Bool) (name : FileLog → Bytes) where
  by_success :
      {A : Type 0} → Bool → Exec FileLog A → Exec FileLog A → FileLog → Outcome Error A × FileLog
  by_success true failure success log = success log
  by_success false failure success log = failure log

  -- A call, and what follows where it fails and where it does not.
  try_call : {A : Type 0} → FileCall → Exec FileLog A → Exec FileLog A → Exec FileLog A
  unfolding by_success
  try_call c failure success log = by_success (succeeds log c) failure success (log ++ c ∷ [])

  -- The deferred close, whose error counts where there was none before; `file` is the file's name.
  close_after : Bytes → Bytes → Exec FileLog Bytes
  unfolding try_call
  close_after prefix file = try_call close (raise (temp_file_failed prefix)) (pure file)

  -- The source returns the file's name also with an error of the close; the caller does not read it.
  unfoldable pub write_temp_file : Bytes → Bytes → Exec FileLog Bytes
  unfolding try_call close_after
  write_temp_file prefix p log =
      try_call (temp_file prefix) (raise (temp_file_failed prefix))
        (try_call (write p) (close_after prefix (name log) >>= λ _. raise (temp_file_failed prefix))
          (close_after prefix (name log)))
        log

  -- The file is removed at the end; it is not closed where the write fails.
  unfoldable pub validate_domain_xml : Bytes → Exec FileLog (Unit {0})
  unfolding try_call
  validate_domain_xml p =
      let prefix = codes "runtopo-domxml." in
      try_call (temp_file prefix) (raise (temp_file_failed prefix)) (
        finally (try_call remove (pure tt) (pure tt)) (
          try_call (write p) (raise (temp_file_failed prefix)) (
            try_call close (raise (temp_file_failed prefix))
              (try_call (validate p) (raise invalid_xml) (pure tt)))))

  -- Where the file can be made, it is written once and then closed, and it is never removed; without an
  -- error its name is returned.
  write_temp_file-closes :
      (prefix p : Bytes) (log : FileLog)
      → succeeds log (temp_file prefix) ≡ true
      → (write_temp_file prefix p log).1
        ≡ ((log ++ temp_file prefix ∷ []) ++ write p ∷ []) ++ close ∷ []
  unfolding write_temp_file try_call close_after by_success
  write_temp_file-closes prefix p log made =
      elim (Bool-cases (succeeds (log ++ temp_file prefix ∷ []) (write p))) [
        | inl e ↦
            elim (Bool-cases (succeeds ((log ++ temp_file prefix ∷ []) ++ write p ∷ []) close)) [
              | inl f ↦ rw (made, e, f)
              | inr f ↦ rw (made, e, f)
            ]
        | inr e ↦
            elim (Bool-cases (succeeds ((log ++ temp_file prefix ∷ []) ++ write p ∷ []) close)) [
              | inl f ↦ rw (made, e, f)
              | inr f ↦ rw (made, e, f)
            ]
      ]
