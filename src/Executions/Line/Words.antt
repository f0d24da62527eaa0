-- ===== src/Executions/Line/Words.antt =====
-- What the shell makes of the line: the words that the options and the command stand for.
use yurt_playground.Base.{
  Outcome, ℕ, ◌≡◌, refl, sym, ap, subst, ◌∙◌, List, [], ◌∷◌, ◌++◌, append_assoc, append-nil, Option,
  none, some, Text, arith, true, ok, chars, >>=-eq-ok, inl, inr, Bool-cases,
}
use yurt_playground.Executions.Line.{
  quoted, escaped, is_variable_name, name_rest, join, env_part, env_parts, cwd_parts, env_word,
  build_exec_line, ExecOptions, LineError,
}
use yurt_playground.Executions.Line.Shell.{
  at_blank, in_word, in_quotes, lex, lex-append, shell_words, shell_words-blank,
}

lex-escaped :
    (s w : Text) (ws : List Text) → lex (in_quotes w ws) (escaped s) ≡ in_quotes (w ++ s) ws
unfolding lex escaped
lex-escaped [] w ws = rw (append-nil w)
lex-escaped (c ∷ s) w ws = ground (arith, lex-escaped s (w ++ c ∷ []) ws, append_assoc w (c ∷ []) s)

-- A part of the line, followed by a blank, adds these words to those before it.
abbrev pub Reads : Text → List Text → Type 0
Reads p ws = (done : List Text) → lex (at_blank done) (p ++ 32 ∷ []) ≡ at_blank (done ++ ws)

lex-bare : (w : Text) (ws : List Text) → lex (in_word w ws) (32 ∷ []) ≡ at_blank (ws ++ w ∷ [])
unfolding lex
lex-bare w ws = refl

lex-quoted :
    (s rest : Text) (ws : List Text)
    → lex (at_blank ws) (quoted s ++ rest) ≡ lex (in_word s ws) rest
unfolding quoted lex
lex-quoted s rest ws = rw (
  append_assoc (escaped s) (39 ∷ []) rest,
  lex-append (in_quotes [] ws) (escaped s),
  lex-escaped s [] ws,
)

quoted-Reads : (s : Text) → Reads (quoted s) (s ∷ [])
unfolding lex
quoted-Reads s done = lex-quoted s (32 ∷ []) done

lex-name :
    (s w : Text) (ws : List Text) → name_rest s ≡ true → lex (in_word w ws) s ≡ in_word (w ++ s) ws
unfolding lex name_rest
lex-name [] w ws h = rw (append-nil w)
lex-name (c ∷ s) w ws h = ground (arith, lex-name s (w ++ c ∷ []) ws, append_assoc w (c ∷ []) s)

lex-first :
    (c : ℕ) (s : Text) (ws : List Text)
    → is_variable_name (c ∷ s) ≡ true
    → (rest : Text) → lex (at_blank ws) (c ∷ rest) ≡ lex (in_word (c ∷ []) ws) rest
unfolding lex is_variable_name
lex-first c s ws h rest = ground arith

name-Reads : (key : Text) → is_variable_name key ≡ true → Reads key (key ∷ [])
unfolding is_variable_name
name-Reads [] h done = cc
name-Reads (c ∷ s) h done =
    lex-first c s done h (s ++ 32 ∷ [])
    ∙ lex-append (in_word (c ∷ []) done) s (32 ∷ [])
    ∙ ap (λ l. lex l (32 ∷ [])) (lex-name s (c ∷ []) done (ground arith))
    ∙ lex-bare (c ∷ s) done

-- The parts of a line, each followed by a blank.
trail : List Text → Text
trail [] = []
trail (p ∷ ps) = (p ++ 32 ∷ []) ++ trail ps

trail-append : (ps qs : List Text) → trail (ps ++ qs) ≡ trail ps ++ trail qs
unfolding trail
trail-append [] qs = refl
trail-append (p ∷ ps) qs =
    ap (◌++◌ (p ++ 32 ∷ [])) (trail-append ps qs) ∙ sym (append_assoc (p ++ 32 ∷ []) _ _)

join-trail : (p : Text) (ps : List Text) → join (p ∷ ps) ++ 32 ∷ [] ≡ trail (p ∷ ps)
unfolding join trail
join-trail p [] = sym (append-nil _)
join-trail p (q ∷ ps) =
    append_assoc p (32 ∷ join (q ∷ ps)) (32 ∷ [])
    ∙ ap (λ t. p ++ 32 ∷ t) (join-trail q ps)
    ∙ sym (append_assoc p (32 ∷ []) _)

-- Parts of the line that read as these words.
abbrev AllRead : List Text → List Text → Type 0
AllRead ps ws = (done : List Text) → lex (at_blank done) (trail ps) ≡ at_blank (done ++ ws)

append-AllRead :
    (ps qs ws vs : List Text) → AllRead ps ws → AllRead qs vs → AllRead (ps ++ qs) (ws ++ vs)
append-AllRead ps qs ws vs hp hq done =
    rw (trail-append ps qs, lex-append (at_blank done) (trail ps) (trail qs), hp done)
      (hq (done ++ ws) ∙ ap at_blank (append_assoc done ws vs))

nil-AllRead : AllRead [] []
unfolding trail lex
nil-AllRead done = ap at_blank (sym (append-nil done))

cons-AllRead :
    (p : Text) (ps ws vs : List Text) → Reads p ws → AllRead ps vs → AllRead (p ∷ ps) (ws ++ vs)
unfolding trail
cons-AllRead p ps ws vs hp hq done =
    lex-append (at_blank done) (p ++ 32 ∷ []) (trail ps)
    ∙ ap (λ l. lex l (trail ps)) (hp done)
    ∙ hq (done ++ ws)
    ∙ ap at_blank (append_assoc done ws vs)

-- The words that the options stand for.
abbrev pub cwd_words : Option Text → List Text
cwd_words none = []
cwd_words (some cwd) = chars "cd" ∷ cwd ∷ chars "||" ∷ chars "exit" ∷ chars "126;" ∷ []

abbrev pub var_words : List (Text × Option Text) → List Text
var_words [] = []
var_words ((key, none) ∷ env) = chars "-u" ∷ key ∷ var_words env
var_words ((key, some value) ∷ env) = (key ++ 61 ∷ value) ∷ var_words env

abbrev pub env_words : List (Text × Option Text) → List Text
env_words [] = []
env_words (e ∷ env) = chars "env" ∷ var_words (e ∷ env)

abbrev pub exec_words : Text → ExecOptions → List Text
exec_words cmd opts =
    cwd_words opts.cwd ++ (chars "exec" ∷ env_words opts.env ++ chars "sh" ∷ chars "-c" ∷ cmd ∷ [])

-- A prefix that reads as words and ends between words, before what is read after it.
cwd-Reads :
    (cwd : Text)
    → Reads (chars "cd " ++ (quoted cwd ++ chars " || exit 126;")) (cwd_words (some cwd))
unfolding lex
cwd-Reads cwd done = rw (append_assoc (quoted cwd) (chars " || exit 126;") (32 ∷ [])) (
    lex-quoted cwd (chars " || exit 126; ") (done ++ chars "cd" ∷ [])
    ∙ ap at_blank (five done (chars "cd") cwd (chars "||") (chars "exit") (chars "126;")))
  where
    five :
        (d : List Text) (a b c e f : Text)
        → ((((d ++ a ∷ []) ++ b ∷ []) ++ c ∷ []) ++ e ∷ []) ++ f ∷ [] ≡ d ++ a ∷ b ∷ c ∷ e ∷ f ∷ []
    five d a b c e f = simp append_assoc

var-Reads :
    (key : Text) (value : Option Text)
    → is_variable_name key ≡ true
    → Reads (env_part key value) (var_words ((key, value) ∷ []))
unfolding env_part lex
var-Reads key (some value) h done = quoted-Reads (key ++ 61 ∷ value) done
var-Reads key none h done =
    name-Reads key h (done ++ chars "-u" ∷ []) ∙ ap at_blank (append_assoc done _ _)

var_words-cons :
    (key : Text) (value : Option Text) (env : List (Text × Option Text))
    → var_words ((key, value) ∷ []) ++ var_words env ≡ var_words ((key, value) ∷ env)
var_words-cons key none env = refl
var_words-cons key (some value) env = refl

abbrev ok_line : List Text → Outcome LineError (List Text)
ok_line v = ok v

env_parts-AllRead :
    (env : List (Text × Option Text)) (vars : List Text)
    → env_parts env ≡ ok vars
    → AllRead vars (var_words env)
unfolding env_parts
env_parts-AllRead [] vars e = subst (λ v. AllRead v []) (nil-eq vars e) nil-AllRead
  where
    nil-eq : (v : List Text) → ok_line [] ≡ ok v → [] ≡ v
    nil-eq v e = cc
env_parts-AllRead ((key, value) ∷ env) vars e = elim (Bool-cases (is_variable_name key)) [
  | inr bad ↦ cc (rw (bad, env_parts) at e)
  | inl good ↦
      let (rest, e', same) = >>=-eq-ok (env_parts env) _ (rw (good, env_parts) at e) in
      let v : env_part key value ∷ rest ≡ vars = cc in
      rw (← v, ← var_words-cons key value env)
        (cons-AllRead (env_part key value) rest _ _ (var-Reads key value good)
          (env_parts-AllRead env rest e'))
]

env_word-AllRead :
    (env : List (Text × Option Text)) (vars : List Text)
    → env_parts env ≡ ok vars
    → AllRead (env_word env ++ vars) (env_words env)
unfolding env_word is_variable_name name_rest
env_word-AllRead [] vars e = env_parts-AllRead [] vars e
env_word-AllRead (x ∷ env) vars e =
    cons-AllRead (chars "env") vars (chars "env" ∷ []) _ (name-Reads (chars "env") env-name)
      (env_parts-AllRead (x ∷ env) vars e)
  where
    env-name : is_variable_name (chars "env") ≡ true
    env-name = refl

read_line :
    (p : Text) (ps ws : List Text) → AllRead (p ∷ ps) ws → shell_words (join (p ∷ ps)) ≡ some ws
read_line p ps ws h =
    shell_words-blank (join (p ∷ ps)) ws (ap (lex (at_blank [])) (join-trail p ps) ∙ h [])

read_line_cwd :
    (cwd : Option Text) (p : Text) (ps ws : List Text)
    → AllRead (p ∷ ps) ws
    → shell_words (join (cwd_parts cwd ++ (p ∷ ps))) ≡ some (cwd_words cwd ++ ws)
unfolding cwd_parts
read_line_cwd none p ps ws h = read_line p ps ws h
read_line_cwd (some cwd) p ps ws h =
    read_line _ (p ∷ ps) (cwd_words (some cwd) ++ ws)
      (cons-AllRead _ (p ∷ ps) _ ws (cwd-Reads cwd) h)

tail-AllRead :
    (cmd : Text)
    → AllRead (chars "sh" ∷ chars "-c" ∷ quoted cmd ∷ []) (chars "sh" ∷ chars "-c" ∷ cmd ∷ [])
unfolding is_variable_name name_rest lex
tail-AllRead cmd = cons-AllRead (chars "sh") _ (chars "sh" ∷ []) _ (name-Reads (chars "sh") refl) (
    cons-AllRead (chars "-c") _ (chars "-c" ∷ []) _ (λ done. refl)
      (cons-AllRead (quoted cmd) [] (cmd ∷ []) [] (quoted-Reads cmd) nil-AllRead))

-- Whatever the command, the directory and the values hold, a shell that reads the line that
-- buildExecLine returns finds in it exactly the words that the options stand for, each value and
-- the command as one word: `cd DIR || exit 126;` when there is a directory, `exec`, then `env` with
-- `-u NAME` or `NAME=VALUE` for each variable when there are any, then `sh -c COMMAND`.
pub shell_words-build_exec_line :
    (cmd : Text) (opts : ExecOptions) (line : Text)
    → build_exec_line cmd opts ≡ ok line
    → shell_words line ≡ some (exec_words cmd opts)
unfolding build_exec_line is_variable_name name_rest
shell_words-build_exec_line cmd opts line e =
    let (vars, e', same) = >>=-eq-ok (env_parts opts.env) _ e in
    let l : join (
          cwd_parts opts.cwd
          ++ (chars "exec" ∷ env_word opts.env
              ++ (vars ++ chars "sh" ∷ chars "-c" ∷ quoted cmd ∷ [])))
        ≡ line =
      cc in
    rw (← l, ← append_assoc (env_word opts.env) vars (chars "sh" ∷ chars "-c" ∷ quoted cmd ∷ []))
      (read_line_cwd opts.cwd (chars "exec") _ _ (
        cons-AllRead (chars "exec") _ (chars "exec" ∷ []) _ (name-Reads (chars "exec") refl) (
          append-AllRead (env_word opts.env ++ vars) _ _ _ (env_word-AllRead opts.env vars e')
            (tail-AllRead cmd))))
