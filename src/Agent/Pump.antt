-- ===== src/Agent/Pump.antt =====
-- executor.go: `pumpLogs`, which sends what a job prints, piece by piece. The texts that the pipe hands
-- out are an argument.
use psychic_funicular.Base.{String, List, [], ◌∷◌, if◌then◌else◌, str_eq}
use psychic_funicular.Platform.{Platform}
use psychic_funicular.Store.Api.{Store}
use psychic_funicular.Notify.Engine.{Config}
use psychic_funicular.Server.State.{Server}
use psychic_funicular.Server.Agent.{append_logs}

-- What the calls of `Read` return: a text, and with the last one an error, the end of the pipe too.
pub data Output : Type 0 where
  read : String → Output → Output
  last : String → Output

-- A call of AppendLogs for a text that is not empty.
abbrev sent : String → List String → List String
sent text later = if str_eq text "" then later else text ∷ later

-- The texts that are sent; a call that fails does not end the loop.
unfoldable pub pump_logs : Output → List String
pump_logs (read text later) = let rest = pump_logs later in sent text rest
pump_logs (last text) = sent text []

module _ (p : Platform) (s : Store) (cfg : Config) where
  -- The server after the calls, which it answers in their order.
  unfoldable pub receive_logs : String → String → List String → Server p s cfg → Server p s cfg
  unfolding append_logs
  receive_logs dir job_id [] w = w
  receive_logs dir job_id (text ∷ texts) w =
      receive_logs dir job_id texts (append_logs p s cfg dir job_id text w).1
