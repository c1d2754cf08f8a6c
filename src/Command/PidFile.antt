-- ===== src/Command/PidFile.antt =====
-- cmd/devagent/main.go: the PID file that keeps a second daemon from starting. The file's content is
-- text; `strconv.Atoi` and the process table are parameters.
use devagent.Base.{
  IsNumeric, decimal-IsNumeric, decimal-cons, All-map, Option-cases, ℕ, ℤ, pos, ◌≡◌, refl, sym, ap,
  ◌∙◌, Bool, true, false, Option, none, some, List, [], ◌∷◌, arith, if◌then◌else◌, decimal,
  trim_space, trim_left, trim_right, is_space, Result, ok, err, All, Bool-cases, ◌⊎◌, inl, inr,
}

-- How `os.WriteFile` ends: all is written; the file could not be opened, and is as it was; or the file
-- was emptied and the writing broke off behind a part of the text.
pub data WriteOutcome : Type 0 where
  all_written not_opened : WriteOutcome
  broken_off : List ℕ → WriteOutcome

-- What the operating system says of processes and of the file, and how a number is read back.
pub record Processes : Type 0 where
  pub atoi : List ℕ → Option ℤ
  pub is_running : ℤ → Bool  -- `FindProcess` and signal 0 succeed
  pub removes : Bool  -- `os.Remove` succeeds
  pub write : WriteOutcome
  pub atoi-decimal : (n : ℕ) → atoi (decimal (pos n)) ≡ some (pos n)

pub data PidError : Type 0 where
  already_running : ℤ → PidError
  write_failed : PidError

unfoldable pub write_pid :
    WriteOutcome → ℤ → Option (List ℕ) → Option (List ℕ) × Result PidError (Unit {0})
write_pid all_written pid file = (some (decimal pid), ok tt)
write_pid not_opened pid file = (file, err write_failed)
write_pid (broken_off text) pid file = (some text, err write_failed)

-- The file after `os.Remove`, whose error is ignored.
unfoldable pub remove_file : Bool → Option (List ℕ) → Option (List ℕ)
remove_file true file = none
remove_file false file = file

-- The PID in the file that names a running process.
unfoldable pub running_pid : Processes → List ℕ → Option ℤ
running_pid ps [] = none
running_pid ps (c ∷ cs) = elim (ps.atoi (trim_space (c ∷ cs))) [
  | none ↦ none
  | some pid ↦ if ps.is_running pid then some pid else none
]

-- `file` is the content, if there is a file, which can then be read; the results are the new content
-- and the error. An old file is removed before it is written, if that succeeds.
unfoldable pub acquire_pid_file :
    Processes → ℤ → Option (List ℕ) → Option (List ℕ) × Result PidError (Unit {0})
unfolding write_pid remove_file running_pid
acquire_pid_file ps pid none = write_pid ps.write pid none
acquire_pid_file ps pid (some []) = write_pid ps.write pid (some [])
acquire_pid_file ps pid (some (c ∷ cs)) = elim (running_pid ps (c ∷ cs)) [
  | some other ↦ (some (c ∷ cs), err (already_running other))
  | none ↦ write_pid ps.write pid (remove_file ps.removes (some (c ∷ cs)))
]

abbrev NotSpace : ℕ → Type 0
NotSpace c = is_space c ≡ false

IsNumeric-NotSpace : (c : ℕ) → IsNumeric c → NotSpace c
unfolding is_space
IsNumeric-NotSpace c numeric = ground arith

trim_right-NotSpace : (s : List ℕ) → All NotSpace s → trim_right s ≡ s
unfolding trim_right
trim_right-NotSpace [] h = refl
trim_right-NotSpace (c ∷ []) (own, h) = rw own refl
trim_right-NotSpace (c ∷ d ∷ s) (own, h) = rw (trim_right, trim_right-NotSpace (d ∷ s) h) refl

trim_space-NotSpace : (s : List ℕ) → All NotSpace s → trim_space s ≡ s
unfolding trim_space trim_left trim_right
trim_space-NotSpace [] h = refl
trim_space-NotSpace (c ∷ s) h = rw (trim_space, trim_left, h.0) (trim_right-NotSpace (c ∷ s) h)

trim_space-decimal : (n : ℕ) → trim_space (decimal (pos n)) ≡ decimal (pos n)
trim_space-decimal n =
    trim_space-NotSpace (decimal (pos n))
      (All-map (decimal (pos n)) IsNumeric-NotSpace (decimal-IsNumeric (pos n)))

running_pid-decimal :
    (ps : Processes) (n : ℕ)
    → running_pid ps (decimal (pos n)) ≡ (if ps.is_running (pos n) then some (pos n) else none)
unfolding running_pid
running_pid-decimal ps n =
    let (c, (cs, same)) = decimal-cons (pos n) in
    let read : ps.atoi (trim_space (c ∷ cs)) ≡ some (pos n) =
      ap (λ s. ps.atoi (trim_space s)) (sym same)
      ∙ ap ps.atoi (trim_space-decimal n)
      ∙ ps.atoi-decimal n in
    rw (same, running_pid, read) refl

acquire_pid_file-decimal :
    (ps : Processes) (n : ℕ) (pid : ℤ)
    → acquire_pid_file ps pid (some (decimal (pos n))) ≡ (
        if ps.is_running (pos n)
        then (some (decimal (pos n)), err (already_running (pos n)))
        else write_pid ps.write pid (remove_file ps.removes (some (decimal (pos n)))))
unfolding acquire_pid_file
acquire_pid_file-decimal ps n pid =
    let (c, (cs, same)) = decimal-cons (pos n) in
    let known = running_pid-decimal ps n in
    elim (Bool-cases (ps.is_running (pos n))) [
      | inl up ↦
          let found : running_pid ps (c ∷ cs) ≡ some (pos n) =
            ap (running_pid ps) (sym same) ∙ known ∙ rw up refl in
          rw (same, acquire_pid_file, found, up) refl
      | inr down ↦
          let found : running_pid ps (c ∷ cs) ≡ none =
            ap (running_pid ps) (sym same) ∙ known ∙ rw down refl in
          rw (same, acquire_pid_file, found, down) refl
    ]

write_pid-written :
    (outcome : WriteOutcome) (pid : ℤ) (file : Option (List ℕ))
    → (write_pid outcome pid file).1 ≡ ok tt
    → (write_pid outcome pid file).0 ≡ some (decimal pid)
unfolding write_pid
write_pid-written all_written pid file done = refl
write_pid-written not_opened pid file done = absurd cc
write_pid-written (broken_off text) pid file done = absurd cc

written :
    (ps : Processes) (pid : ℤ) (file : Option (List ℕ))
    → (acquire_pid_file ps pid file).1 ≡ ok tt
    → (acquire_pid_file ps pid file).0 ≡ some (decimal pid)
unfolding acquire_pid_file
written ps pid none done = write_pid-written ps.write pid none done
written ps pid (some []) done = write_pid-written ps.write pid (some []) done
written ps pid (some (c ∷ cs)) done = elim (Option-cases (running_pid ps (c ∷ cs))) [
  | inr (other, found) ↦
      let refused : acquire_pid_file ps pid (some (c ∷ cs))
          ≡ (some (c ∷ cs), err (already_running other)) =
        rw (acquire_pid_file, found) refl in
      let failed = sym (ap (λ r. r.1) refused) ∙ done in absurd cc
  | inl nobody ↦
      let file = remove_file ps.removes (some (c ∷ cs)) in
      let writes : acquire_pid_file ps pid (some (c ∷ cs)) ≡ write_pid ps.write pid file =
        rw (acquire_pid_file, nobody) refl in
      ap (λ r. r.0) writes ∙ write_pid-written ps.write pid file (sym (ap (λ r. r.1) writes) ∙ done)
]

-- What the next daemon does where the first one is gone, by how its write ends.
pub data Takes (ps : Processes) (m : ℕ) (held : Option (List ℕ))
    (after : Option (List ℕ) × Result PidError (Unit {0})) : Type 0 where
  takes_over :
      ps.write ≡ all_written → after ≡ (some (decimal (pos m)), ok tt) → Takes ps m held after
  leaves :
      ps.write ≡ not_opened
      → ((ps.removes ≡ true) × (after ≡ (none, err write_failed)))
        ⊎ ((ps.removes ≡ false) × (after ≡ (held, err write_failed)))
      → Takes ps m held after
  breaks_off :
      (text : List ℕ)
      → ps.write ≡ broken_off text
      → after ≡ (some text, err write_failed)
      → Takes ps m held after

takes :
    (ps : Processes) (outcome : WriteOutcome) (m : ℕ) (held : Option (List ℕ))
    (after : Option (List ℕ) × Result PidError (Unit {0}))
    → ps.write ≡ outcome
    → after ≡ write_pid outcome (pos m) (remove_file ps.removes held)
    → Takes ps m held after
unfolding write_pid remove_file
takes ps all_written m held after ends e = takes_over ends e
takes ps (broken_off text) m held after ends e = breaks_off text ends e
takes ps not_opened m held after ends e = elim (Bool-cases ps.removes) [
  | inl removed ↦ leaves ends (inl (removed, e ∙ rw (remove_file, removed) refl))
  | inr stays ↦ leaves ends (inr (stays, e ∙ rw (remove_file, stays) refl))
]

-- Once a daemon has acquired the PID file, whatever was there before, the file holds its PID. As long as
-- a process of that PID can be signalled, any other daemon that tries fails with that PID and leaves
-- the file alone. Where it cannot be signalled any more, the next daemon takes the file over if it can
-- write it; if the file cannot be opened, it fails, and the file is gone, or still as it was if it could
-- not be removed either; and if its writing breaks off, it fails and leaves what was written. The two
-- do not run `acquirePIDFile` at the same time, and the file can be read.
pub acquire_pid_file-acquire :
    (ps ps' : Processes) (n m : ℕ) (file : Option (List ℕ))
    → (acquire_pid_file ps (pos n) file).1 ≡ ok tt
    → let held = (acquire_pid_file ps (pos n) file).0 in
      (held ≡ some (decimal (pos n)))
      × (((ps'.is_running (pos n) ≡ true)
            × (acquire_pid_file ps' (pos m) held ≡ (held, err (already_running (pos n)))))
          ⊎ ((ps'.is_running (pos n) ≡ false)
              × Takes ps' m held (acquire_pid_file ps' (pos m) held)))
acquire_pid_file-acquire ps ps' n m file done =
    let mine = written ps (pos n) file done in
    let next : acquire_pid_file ps' (pos m) (acquire_pid_file ps (pos n) file).0 ≡ (
        if ps'.is_running (pos n)
        then (some (decimal (pos n)), err (already_running (pos n)))
        else write_pid ps'.write (pos m) (remove_file ps'.removes (some (decimal (pos n))))) =
      ap (acquire_pid_file ps' (pos m)) mine ∙ acquire_pid_file-decimal ps' n (pos m) in
    (
      mine,
      elim (Bool-cases (ps'.is_running (pos n))) [
        | inl up ↦ inl (up, next ∙ rw (up, mine) refl)
        | inr down ↦ inr (
          down,
          takes ps' ps'.write m _ _ refl (
              next
              ∙ rw (down)
                  (ap (λ f. write_pid ps'.write (pos m) (remove_file ps'.removes f)) (sym mine))),
        )
      ],
    )
