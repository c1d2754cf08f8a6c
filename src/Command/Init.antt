-- ===== src/Command/Init.antt =====
-- What `init` makes.
use devagent.Base.{
  inl, inr, ◌≡◌, ◌≢◌, refl, ◌∙◌, sym, ap, String, Bool, Option, none, some, List, [], ◌∷◌, arith,
  str_eq, eq_iff, if◌then◌else◌, Assoc, lookup, insert, lookup-insert, Bool-cases, Option-cases,
}
use devagent.Protocol.Dcp.{Mac}
use devagent.Command.{Disk, Os, write_files, cmd_init, succeeded, run_init, run_named, run_cli}
use devagent.Command.Templates.{global_config_template, device_config_template}
use devagent.Command.Kept.{run_init-disk}

module _ {Bytes : Type 0} (os : Os Bytes) where
  abbrev or_made : String → String → List String → Option (List String) → Option (List String)
  or_made path own content (some old) = some old
  or_made path own content none = if str_eq own path then some content else none

  -- What `init` makes of a path: what was there, or the new file of that path, if it is one.
  abbrev pub made_by_init : String → String → Option (List String) → Option (List String)
  made_by_init dir path before =
      or_made path (os.join dir "device.yaml") device_config_template
        (or_made path (os.join dir "devagent.yaml") global_config_template before)

  write_files-one :
      (dir name : String) (content : List String) (files : Assoc (List String)) (disk : Disk)
      → (write_files os dir ((name, content) ∷ files) disk).1 ≡ none
      → (after : Disk) × (write_files os dir ((name, content) ∷ files) disk
          ≡ write_files os dir files after)
        × ((path : String)
            → lookup path after ≡ or_made path (os.join dir name) content (lookup path disk))
  unfolding write_files
  write_files-one dir name content files disk done =
      let own = os.join dir name in
      elim (Option-cases (lookup own disk)) [
        | inr (old, found) ↦ (
          disk,
          rw (write_files, found) refl,
          λ path. elim (Option-cases (lookup path disk)) [
            | inl nothing ↦ rw nothing (ground (arith, eq_iff own path))
            | inr (held, there) ↦ rw there refl
          ],
        )
        | inl missing ↦ elim (Bool-cases (os.can_write own)) [
          | inr refused ↦ absurd (ground (arith, rw (write_files, missing, refused) at done))
          | inl allowed ↦ (
            insert own content disk,
            rw (write_files, missing, allowed) refl,
            λ path. lookup-insert own path content disk ∙ elim (Option-cases (lookup path disk)) [
              | inl nothing ↦ rw nothing refl
              | inr (held, there) ↦ rw there (ground (arith, eq_iff own path))
            ],
          )
        ]
      ]

  write_files-nil : (dir : String) (disk : Disk) → write_files os dir [] disk ≡ (disk, none)
  unfolding write_files
  write_files-nil dir disk = refl

  write_files-two :
      (dir name name' : String) (content content' : List String) (disk : Disk)
      → (write_files os dir ((name, content) ∷ (name', content') ∷ []) disk).1 ≡ none
      → (path : String)
      → lookup path (write_files os dir ((name, content) ∷ (name', content') ∷ []) disk).0
        ≡ or_made path
            (os.join dir name')
            content'
            (or_made path (os.join dir name) content (lookup path disk))
  write_files-two dir name name' content content' disk done path =
      let (after, same, one) =
        write_files-one dir name content ((name', content') ∷ []) disk done in
      let done' : (write_files os dir ((name', content') ∷ []) after).1 ≡ none =
        sym (ap (λ r. r.1) same) ∙ done in
      let (last, same', two) = write_files-one dir name' content' [] after done' in
      ap (λ r. lookup path r.0) same
      ∙ ap (λ r. lookup path r.0) same'
      ∙ ap (λ r. lookup path r.0) (write_files-nil dir last)
      ∙ two path
      ∙ ap (or_made path (os.join dir name') content') (one path)

  or_made-swap :
      (path own own' : String) (content content' : List String) (before : Option (List String))
      → own ≢ own'
      → or_made path own content (or_made path own' content' before)
        ≡ or_made path own' content' (or_made path own content before)
  or_made-swap path own own' content content' (some old) differ = refl
  or_made-swap path own own' content content' none differ = elim (Bool-cases (str_eq own path)) [
    | inl one ↦ elim (Bool-cases (str_eq own' path)) [
      | inl both ↦ absurd (ground (arith, eq_iff own path, eq_iff own' path))
      | inr not_other ↦ ground arith
    ]
    | inr not_one ↦ elim (Bool-cases (str_eq own' path)) [
      | inl other ↦ ground arith
      | inr neither ↦ ground arith
    ]
  ]

  cmd_init-made :
      (swapped : Bool) (dir : String) (disk : Disk) (path : String)
      → os.join dir "devagent.yaml" ≢ os.join dir "device.yaml"
      → (cmd_init os swapped dir disk).1 ≡ none
      → lookup path (cmd_init os swapped dir disk).0 ≡ made_by_init dir path (lookup path disk)
  unfolding cmd_init
  cmd_init-made swapped dir disk path differ done = elim (Bool-cases (os.can_make dir)) [
    | inr refused ↦ absurd (ground (arith, rw (cmd_init, refused) at done))
    | inl made ↦ elim (Bool-cases swapped) [
      | inr written ↦
          rw (cmd_init, made, written)
            (write_files-two dir "devagent.yaml" "device.yaml" global_config_template
              device_config_template disk (rw (cmd_init, made, written) at done) path)
      | inl other ↦
          rw (cmd_init, made, other)
            (write_files-two dir "device.yaml" "devagent.yaml" device_config_template
                global_config_template disk (rw (cmd_init, made, other) at done) path
              ∙ or_made-swap path (os.join dir "devagent.yaml") (os.join dir "device.yaml")
                  global_config_template device_config_template (lookup path disk) differ)
    ]
  ]

  run_init-succeeded :
      (mac : Mac) (swapped : Bool) (dir : String) (disk : Disk)
      → (run_init os mac swapped dir disk).1 ≡ succeeded
      → (cmd_init os swapped dir disk).1 ≡ none
  unfolding run_init
  run_init-succeeded mac swapped dir disk done =
      elim (Option-cases (cmd_init os swapped dir disk).1) [
        | inl fine ↦ fine
        | inr (e, failure) ↦ absurd (ground (arith, rw (run_init, failure) at done))
      ]

  -- Where `init` is done, in whichever order its map yields the two files, a path holds what it held
  -- before, or else the new file of that path, and every other path is as it was; for a directory in
  -- which the two files have different paths.
  pub run_cli-made :
      (mac : Mac) (swapped : Bool) (dir : String) (args : List String) (disk : Disk) (path : String)
      → os.join dir "devagent.yaml" ≢ os.join dir "device.yaml"
      → (run_cli os mac swapped ("init" ∷ dir ∷ args) disk).1 ≡ succeeded
      → lookup path (run_cli os mac swapped ("init" ∷ dir ∷ args) disk).0
        ≡ made_by_init dir path (lookup path disk)
  unfolding run_cli run_named
  run_cli-made mac swapped dir args disk path differ done =
      ap (lookup path) (run_init-disk os mac swapped dir disk)
      ∙ cmd_init-made swapped dir disk path differ (run_init-succeeded mac swapped dir disk done)
