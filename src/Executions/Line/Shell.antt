-- ===== src/Executions/Line/Shell.antt =====
-- How a POSIX shell cuts a line into words: blanks separate words, single quotes keep everything
-- up to the next one, a backslash outside quotes keeps the next character. (Operators such as `||`
-- and `;` are read as characters here: the words are what quoting makes of the line.)
use yurt_playground.Base.{
  ℕ, ◌≡◌, refl, sym, ◌∙◌, List, [], ◌∷◌, ◌++◌, Option, none, some, Text, ◌==◌, if◌then◌else◌, arith,
}

pub data Mode : Type 0 where
  between bare single backslash : Mode

pub record Lexer : Type 0 where
  pub mode : Mode
  pub word : Text
  pub words : List Text

abbrev pub at_blank : List Text → Lexer
at_blank ws = record { mode = between; word = []; words = ws }

abbrev pub in_word : Text → List Text → Lexer
in_word w ws = record { mode = bare; word = w; words = ws }

abbrev pub in_quotes : Text → List Text → Lexer
in_quotes w ws = record { mode = single; word = w; words = ws }

in_mode : Mode → Lexer → ℕ → Lexer
in_mode between l c =
    if c == 32
    then l
    else if c == 39
    then in_quotes [] l.words
    else if c == 92
    then record l { mode = backslash; word = [] }
    else in_word (c ∷ []) l.words
in_mode bare l c =
    if c == 32
    then at_blank (l.words ++ l.word ∷ [])
    else if c == 39
    then record l { mode = single }
    else if c == 92
    then record l { mode = backslash }
    else record l { word = l.word ++ c ∷ [] }
in_mode single l c =
    if c == 39 then record l { mode = bare } else record l { word = l.word ++ c ∷ [] }
in_mode backslash l c = in_word (l.word ++ c ∷ []) l.words

unfoldable pub lex : Lexer → Text → Lexer
unfolding in_mode
lex l [] = l
lex l (c ∷ s) = lex (in_mode l.mode l c) s

close : Mode → Lexer → Option (List Text)
close between l = some l.words
close bare l = some (l.words ++ l.word ∷ [])
close single l = none
close backslash l = none

-- The words of a whole line; `none` when a quote or a backslash is left open.
unfoldable pub shell_words : Text → Option (List Text)
unfolding close
shell_words line = let l = lex (at_blank []) line in close l.mode l

pub lex-append : (l : Lexer) (s t : Text) → lex l (s ++ t) ≡ lex (lex l s) t
unfolding lex
lex-append l [] t = refl
lex-append l (c ∷ s) t = lex-append (in_mode l.mode l c) s t

close_of_blank :
    (m : Mode) (w : Text) (done ws : List Text)
    → in_mode m (record { mode = m; word = w; words = done }) 32 ≡ at_blank ws
    → close m (record { mode = m; word = w; words = done }) ≡ some ws
unfolding in_mode close
close_of_blank between w done ws e = ground arith
close_of_blank bare w done ws e = ground arith
close_of_blank single w done ws e = ground arith
close_of_blank backslash w done ws e = ground arith

-- A line that ends between words once a blank follows it has the words read so far.
pub shell_words-blank :
    (line : Text) (ws : List Text)
    → lex (at_blank []) (line ++ 32 ∷ []) ≡ at_blank ws
    → shell_words line ≡ some ws
unfolding shell_words lex
shell_words-blank line ws e =
    let l = lex (at_blank []) line in
    close_of_blank l.mode l.word l.words ws (sym (lex-append (at_blank []) line (32 ∷ [])) ∙ e)
