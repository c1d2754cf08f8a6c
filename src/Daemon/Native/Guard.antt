-- ===== src/Daemon/Native/Guard.antt =====
-- What reaches the shell.
use devagent.Base.{
  ℤ, ℕ, ◌≤◌, String, ◌≡◌, ◌≢◌, ◌⊎◌, inl, inr, refl, true, false, none, some, List, [], ◌∷◌, arith,
  ==_iff, All, codes, text_eq→eq, contains_text, Option-cases, length,
}
use devagent.Model.Capability.{Capability}
use devagent.Daemon.Payload.{Params}
use devagent.Daemon.Native.{
  Decision, reply, execute, RunOutcome, shell_dangerous_chars, extract_base_command, find_dangerous,
  validate_command_safety, is_allowed, command_text, decide_on, decide_shell, execute_shell,
}

-- The command holds none of these characters.
abbrev pub IsPlain : List ℕ → Type 0
IsPlain = All (λ c. (c ≢ b';') × (c ≢ b'|') × (c ≢ b'&') × (c ≢ b'`') × (c ≢ b'>') × (c ≢ b'<'))

-- The word is one of the list.
abbrev pub IsListed : List String → List ℕ → Type 0
IsListed [] base = ⊥
IsListed (a ∷ rest) base = (base ≡ codes a) ⊎ IsListed rest base

contains_text→ne :
    (c d : ℕ) (cs : List ℕ)
    → contains_text (c ∷ cs) (d ∷ []) ≡ false
    → (c ≢ d) × (contains_text cs (d ∷ []) ≡ false)
unfolding contains_text
contains_text→ne c d cs h = (ground (arith, ==_iff c d), ground arith)

-- The six characters of one code point each.
record Clean (cmd : List ℕ) : Type 0 where
  semicolon : contains_text cmd (b';' ∷ []) ≡ false
  pipe : contains_text cmd (b'|' ∷ []) ≡ false
  ampersand : contains_text cmd (b'&' ∷ []) ≡ false
  backquote : contains_text cmd (b'`' ∷ []) ≡ false
  greater : contains_text cmd (b'>' ∷ []) ≡ false
  less : contains_text cmd (b'<' ∷ []) ≡ false

IsPlain_of_Clean : (cmd : List ℕ) → Clean cmd → IsPlain cmd
IsPlain_of_Clean [] h = tt
IsPlain_of_Clean (c ∷ cs) h =
    let s = contains_text→ne c b';' cs h.semicolon in
    let p = contains_text→ne c b'|' cs h.pipe in
    let a = contains_text→ne c b'&' cs h.ampersand in
    let q = contains_text→ne c b'`' cs h.backquote in
    let g = contains_text→ne c b'>' cs h.greater in
    let l = contains_text→ne c b'<' cs h.less in
    (
      (s.0, p.0, a.0, q.0, g.0, l.0),
      IsPlain_of_Clean cs (record {
        semicolon = s.1;
        pipe = p.1;
        ampersand = a.1;
        backquote = q.1;
        greater = g.1;
        less = l.1;
      }),
    )

-- A safe command contains none of the sequences.
find_dangerous-none :
    (ds : List (List ℕ)) (cmd : List ℕ)
    → find_dangerous ds cmd ≡ none
    → All (λ d. contains_text cmd d ≡ false) ds
unfolding find_dangerous
find_dangerous-none [] cmd h = tt
find_dangerous-none (d ∷ ds) cmd h = (ground arith, find_dangerous-none ds cmd (ground arith))

validated :
    (cmd : List ℕ)
    → validate_command_safety cmd ≡ none
    → Clean cmd × (contains_text cmd (codes "$(") ≡ false)
unfolding validate_command_safety
validated cmd h =
    let (semicolon, (pipe, (ampersand, (substitution, (backquote, (greater, (less, rest))))))) =
      find_dangerous-none shell_dangerous_chars cmd h in
    (
      record {
        semicolon = semicolon;
        pipe = pipe;
        ampersand = ampersand;
        backquote = backquote;
        greater = greater;
        less = less;
      },
      substitution,
    )

is_allowed→IsListed : (l : List String) (base : List ℕ) → is_allowed l base ≡ true → IsListed l base
unfolding is_allowed
is_allowed→IsListed [] base h = cc
is_allowed→IsListed (a ∷ rest) base h =
    ground (arith, text_eq→eq base (codes a), is_allowed→IsListed rest base)

-- What is known of a command that is run: which checks it has passed.
pub record Passed (allowed : List String) (cmd : List ℕ) : Type 0 where
  pub plain : IsPlain cmd
  pub no_substitution : contains_text cmd (codes "$(") ≡ false
  pub listed : (allowed ≡ []) ⊎ IsListed allowed (extract_base_command cmd)

decide_on-Passed :
    (allowed : List String) (cmd run : List ℕ)
    → decide_on allowed cmd ≡ execute run
    → (run ≡ cmd) × Passed allowed cmd
unfolding decide_on
decide_on-Passed [] cmd run h = elim (Option-cases (validate_command_safety cmd)) [
  | inl safe ↦
      let (clean, no_substitution) = validated cmd safe in
      (
        ground arith,
        record {
          plain = IsPlain_of_Clean cmd clean;
          no_substitution = no_substitution;
          listed = inl refl;
        },
      )
  | inr (d, found) ↦ ground arith
]
decide_on-Passed (a ∷ rest) cmd run h = elim (Option-cases (validate_command_safety cmd)) [
  | inl safe ↦
      let (clean, no_substitution) = validated cmd safe in
      let ok_base : is_allowed (a ∷ rest) (extract_base_command cmd) ≡ true = ground arith in
      (
        ground arith,
        record {
          plain = IsPlain_of_Clean cmd clean;
          no_substitution = no_substitution;
          listed = inr (is_allowed→IsListed (a ∷ rest) (extract_base_command cmd) ok_base);
        },
      )
  | inr (d, found) ↦ ground arith
]

module _ (shell : List ℕ → ℤ → RunOutcome) (cap : Capability) (params : Params) where
  RunsSafely : Type 0
  RunsSafely =
      (length (execute_shell shell cap params).1 ≤ 1)
      × All (Passed cap.implementation.allowed_commands) (execute_shell shell cap params).1

  command_text-Passed :
      (cmd run : List ℕ)
      → command_text cap params ≡ some cmd
      → decide_shell cap params ≡ execute run
      → Passed cap.implementation.allowed_commands run
  unfolding decide_shell
  command_text-Passed cmd run given h =
      let decided : decide_on cap.implementation.allowed_commands cmd ≡ execute run =
        ground arith in
      let (same, passed) = decide_on-Passed cap.implementation.allowed_commands cmd run decided in
      rw (same) passed

  decide_shell-missing :
      (run : List ℕ) → command_text cap params ≡ none → decide_shell cap params ≢ execute run
  unfolding decide_shell
  decide_shell-missing run missing h = ground arith

  runs_safely : (d : Decision) → decide_shell cap params ≡ d → RunsSafely
  unfolding RunsSafely execute_shell
  runs_safely (reply result) h = rw (execute_shell, h) (ground arith, tt)
  runs_safely (execute run) h =
      let passed : Passed cap.implementation.allowed_commands run =
        elim (Option-cases (command_text cap params)) [
          | inl missing ↦ absurd (decide_shell-missing run missing h)
          | inr (cmd, given) ↦ command_text-Passed cmd run given h
        ] in
      rw (execute_shell, h) (ground arith, (passed, tt))

-- Whatever the shell, the capability and the parameters: at most one command is handed to the shell,
-- and it holds none of the characters `; | & `` ` `` > <` and no `$(`, and its base command is one of
-- the capability's allowed commands, if there are any.
pub execute_shell-Passed :
    (shell : List ℕ → ℤ → RunOutcome) (cap : Capability) (params : Params)
    → (length (execute_shell shell cap params).1 ≤ 1)
      × All (Passed cap.implementation.allowed_commands) (execute_shell shell cap params).1
unfolding RunsSafely
execute_shell-Passed shell cap params = runs_safely shell cap params (decide_shell cap params) refl
