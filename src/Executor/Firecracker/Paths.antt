-- ===== src/Executor/Firecracker/Paths.antt =====
-- Paths that are UTF-8, and the bodies that `json!` builds of them (forge-executor/src/firecracker.rs).
use apeiron.Base.Outcome.{Outcome, value}
use apeiron.Base.{◌≡◌, refl, some, Text}
use apeiron.Std.FilePath.{PathBuf}
use apeiron.Executor.Host.{Env, Json, text, with_path}

-- A path that `Path::to_str` accepts.
pub record IsUtf8 (env : Env) (path : PathBuf) : Type 0 where
  pub string : Text
  pub accepted : env.to_str path ≡ some string

-- A body that can be built.
pub record IsBuilt {A : Type 0} (o : Outcome A) : Type 0 where
  pub body : A
  pub made : o ≡ value body

pub value-IsBuilt : {A : Type 0} (a : A) → IsBuilt (value a)
value-IsBuilt a = record { body = a; made = refl }

pub with_path-IsBuilt :
    (env : Env) (path : PathBuf) (rest : Json → Outcome Json)
    → IsUtf8 env path
    → ((json : Json) → IsBuilt (rest json))
    → IsBuilt (with_path env path rest)
unfolding with_path
with_path-IsBuilt env path rest u h = rw (u.accepted, with_path) (h (text u.string))
