-- ===== src/Executions/Line/Tests.antt =====
-- A line with quotes in every part, and the theorem on words there.
use yurt_playground.Base.{◌≡◌, refl, [], ◌∷◌, none, some, Text, chars, ok}
use yurt_playground.Executions.Line.{
  ExecOptions, build_exec_line, quoted, is_variable_name, env_parts, env_part, cwd_parts, env_word,
  join,
}
use yurt_playground.Executions.Line.Shell.{shell_words}
use yurt_playground.Executions.Line.Words.{exec_words, shell_words-build_exec_line}

abbrev with_options : ExecOptions
with_options = record {
  stdin = none;
  timeout_ms = some 100;
  max_output_bytes = some 4;
  cwd = some (chars "/home/it's");
  env = (chars "PATH", some (chars "a b")) ∷ (chars "HOME", none) ∷ [];
}

-- The line that `with_options` makes of `echo 'hi'`.
abbrev line : Text
line =
    chars "cd '/home/it'\\''s' || exit 126; exec env 'PATH=a b' -u HOME sh -c 'echo '\\''hi'\\'''"

line_test : build_exec_line (chars "echo 'hi'") with_options ≡ ok line
unfolding build_exec_line quoted is_variable_name env_parts env_part cwd_parts env_word join
line_test = refl

shell_words-build_exec_line_example :
    shell_words line ≡ some (exec_words (chars "echo 'hi'") with_options)
shell_words-build_exec_line_example =
    shell_words-build_exec_line (chars "echo 'hi'") with_options line line_test
