-- ===== src/Web/Submit.antt =====
-- The form of the console does to the server what a gRPC request with the same values does.
use psychic_funicular.Base.{
  ℕ, ◌≡◌, refl, ap, false, String, Option, none, some, if◌then◌else◌, inl, inr, arith, str_eq,
  str_eq_iff, Bool-cases,
}
use psychic_funicular.Base.Int.{ℤ}
use psychic_funicular.Platform.{Platform}
use psychic_funicular.Time.{Time}
use psychic_funicular.Store.Api.{Store, Result, ok, err}
use psychic_funicular.Notify.Engine.{Config}
use psychic_funicular.Strings.{is_empty, trim_space}
use psychic_funicular.Server.State.{Server, new_id, issue, set_store}
use psychic_funicular.Server.Cluster.{SubmitRequest, submit_job, submitted_job}
use psychic_funicular.Web.Sizes.{parse_size, parse_walltime}
use psychic_funicular.Web.Handlers.{
  Answer, created, refused, SubmitReq, web_submit, web_job, create_from,
}
use psychic_funicular.Web.Agree.{result_cases}
use psychic_funicular.Server.State.{Reply, reply, invalid_argument, not_found, internal}

-- The request of a client that asks for what a form asks for, if the form can be understood.
abbrev request_with : SubmitReq → Result ℕ → Result ℤ → Option SubmitRequest
request_with req (ok mem) (ok walltime) = some (record {
  name = req.name;
  owner = req.owner;
  partition = req.partition;
  priority = req.priority;
  command = req.command;
  env = req.env;
  workdir = req.workdir;
  request = some (record {
    cpus = req.cpus;
    mem_bytes = mem;
    gpus = req.gpus;
    gpu_type = req.gpu_type;
    walltime_sec = walltime;
  });
})
request_with req _ _ = none

unfoldable pub as_request : Platform → Option SubmitReq → Option SubmitRequest
as_request p none = none
as_request p (some req) =
    if is_empty (trim_space req.command)
    then none
    else request_with req (parse_size p req.mem) (parse_walltime p req.walltime)

-- 201 for a new job.
abbrev pub created_of : Reply String → Answer String
created_of (reply id) = created id
created_of (invalid_argument e) = refused 400 e
created_of (not_found e) = refused 404 e
created_of (internal e) = refused 500 e

not_blank : (c : String) → is_empty (trim_space c) ≡ false → str_eq c "" ≡ false
unfolding trim_space
not_blank c h = elim (Bool-cases (str_eq c "")) [
  | inl e ↦ absurd (ground (arith, ap (λ x. is_empty (trim_space x)) ((str_eq_iff c "").0 e), h))
  | inr e ↦ e
]

answers_alike :
    (res : Result (Unit {0})) (id : String)
    → (elim res as (λ r. Answer String) [
      | ok _ ↦ created id
      | err e ↦ refused 500 "submit job failed"
    ])
      ≡ created_of (elim res as (λ r. Reply String) [
        | ok _ ↦ reply id
        | err e ↦ internal "submit job failed"
      ])
answers_alike (ok x) id = refl
answers_alike (err e) id = refl

-- What a form does: it is refused with 400 and changes nothing, or it does what the request does.
abbrev pub Refines :
    {S : Type 0}
    → Option SubmitRequest
    → (SubmitRequest → Reply String × S)
    → S
    → Answer String × S
    → Type 0
Refines none serve w r = (text : String) × (r ≡ (refused 400 text, w))
Refines (some req) serve w r = r ≡ (created_of (serve req).0, (serve req).1)

module _ (p : Platform) (s : Store) (cfg : Config) where
  -- A form of the console that is no JSON, has a blank command, or a size or a walltime that cannot be read
  -- is refused with the status 400 and leaves the server as it was; any other one answers, and changes the
  -- server, as the gRPC call `SubmitJob` does for the request with the same values, the size and the
  -- walltime read from their texts.
  pub web_submit-Refines :
      (form : Option SubmitReq) (now : Time) (w : Server p s cfg)
      → Refines
          (as_request p form)
          (λ req. submit_job p s cfg req now w)
          w
          (web_submit p s cfg form now w)
  unfolding as_request web_submit create_from submit_job submitted_job web_job
  web_submit-Refines none now w = (_, refl)
  web_submit-Refines (some req) now w = elim (Bool-cases (is_empty (trim_space req.command))) [
    | inl e ↦ rw e (_, refl)
    | inr e ↦ elim (result_cases (parse_size p req.mem)) [
      | inl (text, m) ↦ rw (e, m) (_, refl)
      | inr (mem, m) ↦ elim (result_cases (parse_walltime p req.walltime)) [
        | inl (text, t) ↦ rw (e, m, t) (_, refl)
        | inr (walltime, t) ↦
            rw (e, m, t, not_blank req.command e)
              (let id = new_id p s cfg w in
                let (res, st) = s.create_job (web_job id req mem walltime now) w.engine.store in
                ap (λ a. (a, set_store p s cfg st (issue p s cfg w))) (answers_alike res id))
      ]
    ]
  ]
