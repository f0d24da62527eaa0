-- ===== src/Executions/Line.antt =====
-- src/executions.ts, quoted and buildExecLine: the shell line that runs a command with its options.
pub mod Shell
pub mod Words
mod Tests
use yurt_playground.Base.{
  ℕ, ◌≡◌, Bool, true, false, ◌&&◌, ◌||◌, List, [], ◌∷◌, ◌++◌, Option, none, some, Text, chars,
  Outcome, ok, err, ◌>>=◌, leb, ◌==◌, if◌then◌else◌,
}

pub data Stdin : Type 0 where
  string bytes : List ℕ → Stdin

-- `env` holds the object's entries, `none` for a null value.
pub record ExecOptions : Type 0 where
  pub stdin : Option Stdin
  pub timeout_ms : Option ℕ
  pub max_output_bytes : Option ℕ
  pub cwd : Option Text
  pub env : List (Text × Option Text)

pub data LineError : Type 0 where
  not_a_variable_name : Text → LineError

-- `arg.replace(/'/g, "'\\''")`.
escaped : Text → Text
escaped [] = []
escaped (c ∷ s) = if c == 39 then 39 ∷ 92 ∷ 39 ∷ 39 ∷ escaped s else c ∷ escaped s

unfoldable pub quoted : Text → Text
unfolding escaped
quoted arg = 39 ∷ escaped arg ++ 39 ∷ []

-- `/^[A-Za-z_][A-Za-z0-9_]*$/`.
abbrev is_letter : ℕ → Bool
is_letter c = leb 65 c && leb c 90 || (leb 97 c && leb c 122 || c == 95)

abbrev is_digit : ℕ → Bool
is_digit c = leb 48 c && leb c 57

name_rest : Text → Bool
name_rest [] = true
name_rest (c ∷ s) = (is_letter c || is_digit c) && name_rest s

unfoldable pub is_variable_name : Text → Bool
unfolding name_rest
is_variable_name [] = false
is_variable_name (c ∷ s) = is_letter c && name_rest s

-- `parts.join(" ")`.
pub join : List Text → Text
join [] = []
join (p ∷ []) = p
join (p ∷ q ∷ ps) = p ++ 32 ∷ join (q ∷ ps)

env_part : Text → Option Text → Text
env_part key none = chars "-u " ++ key
env_part key (some value) = quoted (key ++ 61 ∷ value)

env_parts : List (Text × Option Text) → Outcome LineError (List Text)
env_parts [] = ok []
env_parts ((key, value) ∷ env) =
    let rest = env_parts env in
    if is_variable_name key
    then (do ok (env_part key value ∷ (← rest)))
    else err (not_a_variable_name key)

cwd_parts : Option Text → List Text
cwd_parts none = []
cwd_parts (some cwd) = (chars "cd " ++ (quoted cwd ++ chars " || exit 126;")) ∷ []

env_word : List (Text × Option Text) → List Text
env_word [] = []
env_word (_ ∷ _) = chars "env" ∷ []

pub build_exec_line : Text → ExecOptions → Outcome LineError Text
build_exec_line cmd opts = do
  vars ← env_parts opts.env
  ok (
      join (
        cwd_parts opts.cwd
        ++ (chars "exec" ∷ env_word opts.env
            ++ (vars ++ chars "sh" ∷ chars "-c" ∷ quoted cmd ∷ []))))
