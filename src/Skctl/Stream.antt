-- ===== src/Skctl/Stream.antt =====
-- cmd/skctl/main.go: `cmdLogs`.
use psychic_funicular.Base.{Bool, String, Option, none, some, List, [], ◌∷◌}
use psychic_funicular.Store.Api.{Result, ok, err}
use psychic_funicular.Format.{concat}

-- The id and the choice to follow that the arguments ask for.
unfoldable pub logs_request : Bool → List String → Result (String × Bool)
logs_request follow [] = err "usage: logs [-f] <jobid>"
logs_request follow (id ∷ args) = ok (id, follow)

-- What the calls of `Recv` return, up to the end of the stream or an error.
pub data LogStream : Type 0 where
  chunk : String → LogStream → LogStream
  finished : LogStream
  failed : String → LogStream

-- What is written to the terminal, and the error that is returned.
unfoldable pub print_stream : LogStream → String × Option String
print_stream finished = ("", none)
print_stream (failed e) = ("", some e)
print_stream (chunk bytes s) = let (rest, e) = print_stream s in (concat (bytes ∷ rest ∷ []), e)
