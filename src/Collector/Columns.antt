-- ===== src/Collector/Columns.antt =====
-- A line of columns is cut into them again.
use Prim.Native.Char.{Char}
use Prim.Native.String.{◌++◌ as text_append}
use text.Mathlib.TextLemmas.{cons-append, nil-append}
use psychic_funicular.Base.{
  ℕ, ◌≡◌, refl, sym, ap, ◌∙◌, true, String, List, [], ◌∷◌, map, arith, All,
}
use psychic_funicular.Format.{join}
use psychic_funicular.Strings.{trim_space, split, onto_first}
use psychic_funicular.Collector.Rows.{
  starts_clean, ends_clean, lacks, trim_clean, trim_spaced, split-lacks, split_last, split_next,
}

-- A text that can stand in a column: not empty, without blanks at its ends, commas and line breaks.
pub record IsColumn (s : String) : Type 0 where
  pub start_ok : starts_clean s ≡ true
  pub end_ok : ends_clean s ≡ true
  pub no_comma : lacks 44 s ≡ true
  pub no_break : lacks 10 s ≡ true

pub starts-append : (a t : String) → starts_clean a ≡ true → starts_clean (text_append a t) ≡ true
unfolding starts_clean
starts-append String.[] t h = absurd (ground (arith, h))
starts-append (String.◌∷◌ c a) t h = rw (cons-append c a t) h

ends-cons : (c : Char) (s : String) → ends_clean s ≡ true → ends_clean (String.◌∷◌ c s) ≡ true
unfolding ends_clean
ends-cons c String.[] h = absurd (ground (arith, h))
ends-cons c (String.◌∷◌ d s) h = h

pub ends-append : (x z : String) → ends_clean z ≡ true → ends_clean (text_append x z) ≡ true
ends-append String.[] z h = rw (nil-append z) h
ends-append (String.◌∷◌ c x) z h =
    rw (cons-append c x z) (ends-cons c (text_append x z) (ends-append x z h))

pub lacks-append :
    (x : ℕ) (a b : String) → lacks x a ≡ true → lacks x b ≡ true → lacks x (text_append a b) ≡ true
unfolding lacks
lacks-append x String.[] b h k = rw (nil-append b) k
lacks-append x (String.◌∷◌ c a) b h k =
    rw (cons-append c a b) (ground (arith, h, lacks-append x a b (ground (arith, h)) k))

-- A line is trimmed, and has no line break.
pub record IsLine (s : String) : Type 0 where
  pub start_ok : starts_clean s ≡ true
  pub end_ok : ends_clean s ≡ true
  pub no_break : lacks 10 s ≡ true

comma_no_break : lacks 10 ", " ≡ true
unfolding lacks
comma_no_break = refl

pub IsLine-join :
    (f : String) (fs : List String) → All IsColumn (f ∷ fs) → IsLine (join ", " (f ∷ fs))
IsLine-join f [] (h, k) = record { start_ok = h.start_ok; end_ok = h.end_ok; no_break = h.no_break }
IsLine-join f (g ∷ gs) (h, k) =
    let rest = IsLine-join g gs k in
    let tail = text_append ", " (join ", " (g ∷ gs)) in
    record {
      start_ok = starts-append f tail h.start_ok;
      end_ok = ends-append f tail (ends-append ", " (join ", " (g ∷ gs)) rest.end_ok);
      no_break =
          lacks-append 10 f tail h.no_break
            (lacks-append 10 ", " (join ", " (g ∷ gs)) comma_no_break rest.no_break);
    }

abbrev spaced : String → String
spaced s = String.◌∷◌ " " s

comma : (t : String) → text_append ", " t ≡ String.◌∷◌ "," (String.◌∷◌ " " t)
comma t =
    cons-append "," " " t
    ∙ ap (λ x. String.◌∷◌ "," x) (cons-append " " "" t ∙ ap (λ x. String.◌∷◌ " " x) (nil-append t))

one_more : (s : String) → text_append " " s ≡ spaced s
one_more s = cons-append " " "" s ∙ ap (λ x. String.◌∷◌ " " x) (nil-append s)

blank_no_comma : lacks 44 " " ≡ true
unfolding lacks
blank_no_comma = refl

split-spaced : (t : String) → split 44 (spaced t) ≡ onto_first " " (split 44 t)
split-spaced t = ap (split 44) (sym (one_more t)) ∙ split-lacks 44 " " t blank_no_comma

split_columns :
    (f : String) (fs : List String)
    → All IsColumn (f ∷ fs)
    → split 44 (join ", " (f ∷ fs)) ≡ f ∷ map spaced fs
split_columns f [] (h, k) = split_last 44 f h.no_comma
split_columns f (g ∷ gs) (h, k) =
    let tail = join ", " (g ∷ gs) in
    ap (λ t. split 44 (text_append f t)) (comma tail)
    ∙ split_next "," f (spaced tail) h.no_comma
    ∙ ap (λ ps. f ∷ ps)
        (split-spaced tail
          ∙ ap (onto_first " ") (split_columns g gs k)
          ∙ ap (λ s. s ∷ map spaced gs) (one_more g))

trim_columns : (fs : List String) → All IsColumn fs → map (λ s. trim_space (spaced s)) fs ≡ fs
trim_columns [] h = refl
trim_columns (f ∷ fs) (h, k) = rw (trim_spaced f h.start_ok h.end_ok, trim_columns fs k) refl

map-spaced :
    (fs : List String) → map trim_space (map spaced fs) ≡ map (λ s. trim_space (spaced s)) fs
map-spaced [] = refl
map-spaced (f ∷ fs) = ap (λ ps. trim_space (spaced f) ∷ ps) (map-spaced fs)

-- The columns of a line are read back.
pub columns_lem :
    (f : String) (fs : List String)
    → All IsColumn (f ∷ fs)
    → map trim_space (split 44 (join ", " (f ∷ fs))) ≡ f ∷ fs
columns_lem f fs (h, k) =
    ap (map trim_space) (split_columns f fs (h, k))
    ∙ ap (λ s. s ∷ map trim_space (map spaced fs)) (trim_clean f h.start_ok h.end_ok)
    ∙ ap (λ ps. f ∷ ps) (map-spaced fs ∙ trim_columns fs k)
