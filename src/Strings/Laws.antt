-- ===== src/Strings/Laws.antt =====
-- Laws of appended texts.
use Prim.Native.Char.{Char}
use Prim.Native.String.{◌++◌ as text_append}
use text.Mathlib.TextLemmas.{append_assoc, cons-append, nil-append, append-nil}
use psychic_funicular.Base.{String, ◌≡◌}

pub ruleset text_laws = (append_assoc, cons-append, nil-append, append-nil)

-- A text in front of a character, and of what follows it.
pub append_one :
    (s t : String) (c : Char)
    → text_append (text_append s (String.◌∷◌ c "")) t ≡ text_append s (String.◌∷◌ c t)
append_one s t c = simp text_laws
