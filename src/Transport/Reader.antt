-- ===== src/Transport/Reader.antt =====
-- A shell as it reads the words of a simple command (POSIX, 2.2 and 2.3), for which a command line is
-- written: single quotes, backslashes, blanks and plain characters. It stops in front of the first
-- redirection or other operator, and gives up where the shell would expand something.
use Prim.Native.Char.{Char, code}
use Prim.Native.String.{◌++◌ as text_append}
use psychic_funicular.Base.{
  ℕ, Bool, ◌||◌, String, Option, none, some, List, [], ◌∷◌, if◌then◌else◌, ◌==◌, leb, ◌&&◌,
}

pub data Class : Type 0 where
  quote backslash blank operator plain special : Class

-- Letters, digits and the characters that mean nothing to the shell.
abbrev is_plain : ℕ → Bool
is_plain c =
    (leb b'a' c && leb c b'z')
    || (leb b'A' c && leb c b'Z')
    || (leb b'0' c && leb c b'9')
    || (c == b'-')
    || (c == b'_')
    || (c == b'/')
    || (c == b'.')
    || (c == b',')
    || (c == b':')
    || (c == b'+')
    || (c == b'@')
    || (c == b'%')
    || (c == b'=')

unfoldable pub class_of : ℕ → Class
class_of c =
    if c == 39
    then quote
    else if c == 92
    then backslash
    else if c == 32 || c == 9
    then blank
    else if c == b'<' || c == b'>' || c == b'&' || c == b';' || c == b'|' || c == 10
    then operator
    else if is_plain c
    then plain
    else special

-- Between two words, or in a word of which some is read.
pub data State : Type 0 where
  between : State
  bare quoted escaped : String → State

abbrev pub push : String → Char → String
push w c = text_append w (String.◌∷◌ c "")

abbrev pub so_far : State → String
so_far between = ""
so_far (bare w) = w
so_far (quoted w) = w
so_far (escaped w) = w

abbrev pub Words : Type 0
Words = Option (List String × String)

-- The word that has ended, in front of the others.
abbrev pub close : State → List String → List String
close between ws = ws
close st ws = so_far st ∷ ws

abbrev pub ended : State → Words → Words
ended st none = none
ended st (some (ws, t)) = some (close st ws, t)

-- What a character does: it moves the reader, ends a word, ends the command, or needs an expansion.
pub data Action : Type 0 where
  move : State → Action
  end_word stop give_up : Action

abbrev pub outside : State → Char → Class → Action
outside st c quote = move (quoted (so_far st))
outside st c backslash = move (escaped (so_far st))
outside st c blank = end_word
outside st c operator = stop
outside st c plain = move (bare (push (so_far st) c))
outside st c special = give_up

unfoldable pub step : State → Char → Action
unfolding class_of
step between c = outside between c (class_of (code c))
step (bare w) c = outside (bare w) c (class_of (code c))
step (quoted w) c = move (if code c == 39 then bare w else quoted (push w c))
step (escaped w) c = move (bare (push w c))

abbrev at_end : State → Words
at_end between = some ([], "")
at_end (bare w) = some (w ∷ [], "")
at_end _ = none

unfoldable pub read : State → String → Words
unfolding step
read st String.[] = at_end st
read st (String.◌∷◌ c s) = elim (step st c) [
  | move next ↦ read next s
  | end_word ↦ ended st (read between s)
  | stop ↦ ended st (some ([], String.◌∷◌ c s))
  | give_up ↦ none
]

-- The words of a command line, and what stands behind them.
unfoldable pub words : String → Words
unfolding read
words line = read between line
