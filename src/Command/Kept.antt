-- ===== src/Command/Kept.antt =====
-- No command changes a file that is there.
use devagent.Base.{
  inl, inr, ◌≡◌, refl, ◌∙◌, ap, String, Bool, some, List, [], ◌∷◌, arith, eq_iff, Assoc, lookup,
  insert, lookup-insert, Bool-cases, Option-cases,
}
use devagent.Protocol.Dcp.{Mac}
use devagent.Command.{Disk, Os, write_files, cmd_init, run_init, run_named, run_cli}
use devagent.Command.Templates.{global_config_template, device_config_template}

module _ {Bytes : Type 0} (os : Os Bytes) where
  write_files-keeps :
      (dir : String) (files : Assoc (List String)) (disk : Disk) (path : String)
      (content : List String)
      → lookup path disk ≡ some content
      → lookup path (write_files os dir files disk).0 ≡ some content
  unfolding write_files
  write_files-keeps dir [] disk path content there = there
  write_files-keeps dir ((name, new) ∷ files) disk path content there =
      let own = os.join dir name in
      elim (Option-cases (lookup own disk)) [
        | inr (old, found) ↦
            rw (write_files, found) (write_files-keeps dir files disk path content there)
        | inl missing ↦ elim (Bool-cases (os.can_write own)) [
          | inr refused ↦ rw (write_files, missing, refused) there
          | inl allowed ↦
              rw (write_files, missing, allowed)
                (write_files-keeps dir files (insert own new disk) path content
                  (lookup-insert own path new disk ∙ ground (arith, eq_iff own path)))
        ]
      ]

  cmd_init-keeps :
      (swapped : Bool) (dir : String) (disk : Disk) (path : String) (content : List String)
      → lookup path disk ≡ some content
      → lookup path (cmd_init os swapped dir disk).0 ≡ some content
  unfolding cmd_init
  cmd_init-keeps swapped dir disk path content there =
      let first : String × List String = ("devagent.yaml", global_config_template) in
      let second : String × List String = ("device.yaml", device_config_template) in
      elim (Bool-cases (os.can_make dir)) [
        | inr refused ↦ rw (cmd_init, refused) there
        | inl made ↦ elim (Bool-cases swapped) [
          | inl other ↦
              rw (cmd_init, made, other)
                (write_files-keeps dir (second ∷ first ∷ []) disk path content there)
          | inr written ↦
              rw (cmd_init, made, written)
                (write_files-keeps dir (first ∷ second ∷ []) disk path content there)
        ]
      ]

  pub run_init-disk :
      (mac : Mac) (swapped : Bool) (dir : String) (disk : Disk)
      → (run_init os mac swapped dir disk).0 ≡ (cmd_init os swapped dir disk).0
  unfolding run_init
  run_init-disk mac swapped dir disk = elim (Option-cases (cmd_init os swapped dir disk).1) [
    | inl fine ↦ rw (run_init, fine) refl
    | inr (e, failure) ↦ rw (run_init, failure) refl
  ]

  run_init-keeps :
      (mac : Mac) (swapped : Bool) (dir : String) (disk : Disk) (path : String)
      (content : List String)
      → lookup path disk ≡ some content
      → lookup path (run_init os mac swapped dir disk).0 ≡ some content
  run_init-keeps mac swapped dir disk path content there =
      ap (lookup path) (run_init-disk mac swapped dir disk)
      ∙ cmd_init-keeps swapped dir disk path content there

  run_named-keeps :
      (mac : Mac) (swapped : Bool) (command : String) (args : List String) (disk : Disk)
      (path : String) (content : List String)
      → lookup path disk ≡ some content
      → lookup path (run_named os mac swapped command args disk).0 ≡ some content
  unfolding run_named
  run_named-keeps mac swapped command [] disk path content there =
      ground (arith, run_init-keeps mac swapped "." disk path content)
  run_named-keeps mac swapped command (arg ∷ rest) disk path content there =
      ground (arith, run_init-keeps mac swapped arg disk path content)

  -- No command line changes or removes a file that is on the disk, whether the command is done, fails on
  -- the way or is none.
  pub run_cli-keeps :
      (mac : Mac) (swapped : Bool) (args : List String) (disk : Disk) (path : String)
      (content : List String)
      → lookup path disk ≡ some content
      → lookup path (run_cli os mac swapped args disk).0 ≡ some content
  unfolding run_cli
  run_cli-keeps mac swapped [] disk path content there = there
  run_cli-keeps mac swapped (command ∷ args) disk path content there =
      run_named-keeps mac swapped command args disk path content there
