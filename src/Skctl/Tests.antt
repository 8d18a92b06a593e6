-- ===== src/Skctl/Tests.antt =====
-- The theorem on sizes at a concrete one, and the arguments of a submission.
use psychic_funicular.Base.{◌/◌, ◌≡◌, refl, some, [], ◌∷◌, arith}
use psychic_funicular.Samples.{exact}
use psychic_funicular.Store.Api.{ok}
use psychic_funicular.Skctl.Text.{scale, human_bytes}
use psychic_funicular.Skctl.Scale.{Shown, human_bytes-Shown}
use psychic_funicular.Skctl.Commands.{parse_env, command_of, devices}

human_bytes-Shown_example : Shown exact 68719476736 (human_bytes exact 68719476736)
human_bytes-Shown_example = human_bytes-Shown exact 68719476736 (omega arith) (omega arith)

gibibytes : scale 6 (68719476736 / 1024) 1024 0 ≡ (1073741824, 2)
unfolding scale
gibibytes = refl

env_read : parse_env exact ("A=1" ∷ "B=x=y" ∷ "A=2" ∷ []) ≡ ok (("A", "2") ∷ ("B", "x=y") ∷ [])
unfolding parse_env
env_read = refl

gpu_command : command_of "gpu" ≡ some (devices "gpu")
unfolding command_of
gpu_command = refl
