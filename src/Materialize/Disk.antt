-- ===== src/Materialize/Disk.antt =====
-- The file system as src/vibe/materialize/writer.py uses it. Every call of the operating system may
-- fail: an oracle says which, by the number of the calls before it. A call that fails changes nothing,
-- but for the removal of a directory, after which an oracle says what is left.
use local_skill_orchestrator.Prelude.{
  ℕ, suc, String, Bool, List, [], ◌∷◌, filter, if◌then◌else◌, Dict, insert, remove,
}
use local_skill_orchestrator.Prelude.Results.{Result, ok, err}

-- A file with its content, or anything else that stands at a path, such as a directory.
pub data Entry : Type 0 where
  file : String → Entry
  other : String → Entry

-- The tree below the root, and the two temporary directories, each by the paths of the operations. The
-- lists of what was installed and backed up hold the newest first.
pub record World : Type 0 where
  pub has_root : Bool
  pub tree : Dict Entry
  pub stage : Dict Entry
  pub backup : Dict Entry
  pub installed : List String
  pub backed_up : List String
  pub calls : ℕ

pub data ApplyError : Type 0 where
  not_a_directory : ApplyError
  path_escapes : String → ApplyError
  cannot_verify : String → ApplyError
  concurrent_change : List String → ApplyError
  command_failed : ApplyError
  os_error : ApplyError
  -- `ApplyFailure` after a rollback, with the paths that it could not remove or restore
  rolled_back : List String → ApplyError

abbrev pub Exec : Type 0 → Type 0
Exec A = World → Result ApplyError A × World

module _ {A B : Type 0} where
  abbrev pub continue : Result ApplyError A → (A → Exec B) → Exec B
  continue (ok a) f w = f a w
  continue (err e) f w = (err e, w)

  infixl 10 ◌>>=◌ ◌>>◌
  abbrev pub ◌>>=◌ : Exec A → (A → Exec B) → Exec B
  ◌>>=◌ m f w = let (r, w') = m w in continue r f w'

  abbrev pub ◌>>◌ : Exec A → Exec B → Exec B
  m >> n = m >>= λ _. n

abbrev pub pure : {A : Type 0} → A → Exec A
pure a w = (ok a, w)

abbrev pub raise : {A : Type 0} → ApplyError → Exec A
raise e w = (err e, w)

abbrev pub ensure : Bool → ApplyError → Exec (Unit {0})
ensure test e = if test then pure tt else raise e

-- What the operating system does: which calls fail, which paths links lead out of the root at the time of
-- the loop, what a failed removal leaves, and what a command does to the tree, with whether it succeeds.
pub record System : Type 0 where
  pub fails : ℕ → Bool
  pub strays : ℕ → String → Bool
  pub leaves : ℕ → String → Bool
  pub command : List String → Dict Entry → Bool × Dict Entry

abbrev counted : World → World
counted w = record w { calls = suc w.calls }

-- A call with an effect.
abbrev pub call : System → (World → World) → Exec (Unit {0})
call s effect w = if s.fails w.calls then (err os_error, counted w) else (ok tt, effect (counted w))

-- os.replace(target, backup_target), with the note of it in `backed_up`
abbrev pub move_out : String → Entry → World → World
unfolding insert remove
move_out path e w = record w {
  tree = remove path w.tree;
  backup = insert path e w.backup;
  backed_up = path ∷ w.backed_up;
}

-- replace(staged, target), with the note of it in `installed`
abbrev pub move_in : String → Entry → World → World
unfolding insert remove
move_in path e w = record w {
  stage = remove path w.stage;
  tree = insert path e w.tree;
  installed = path ∷ w.installed;
}

abbrev left_of : System → ℕ → Dict Entry → Dict Entry
left_of s n d = filter (λ p. s.leaves n p.0) d

-- shutil.rmtree(backup)
abbrev pub remove_backup : System → Exec (Unit {0})
remove_backup s w =
    if s.fails w.calls
    then (err os_error, record (counted w) { backup = left_of s w.calls w.backup })
    else (ok tt, record (counted w) { backup = [] })

-- shutil.rmtree(stage)
abbrev pub remove_stage : System → Exec (Unit {0})
remove_stage s w =
    if s.fails w.calls
    then (err os_error, record (counted w) { stage = left_of s w.calls w.stage })
    else (ok tt, record (counted w) { stage = [] })
