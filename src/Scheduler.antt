-- ===== src/Scheduler.antt =====
-- internal/infra/scheduler/scheduler.go: the jobs on the cron clock. The cron package is a parameter: what
-- `AddFunc` says of a specification, and when a job fires.
use natsie.Base.{
  String, ◌<>◌, Bool, List, [], ◌∷◌, ◌++◌, Option, none, some, ◌==◌, string_eq, if◌then◌else◌,
}
use natsie.Base.Result.{Result, ok, err}

-- `Job`; `run` takes the readings `R` of its run and changes the state `W`. It may be nil.
pub record Job (R W : Type 0) : Type 0 where
  pub name : String
  pub spec : String
  pub run : Option (R → W → Option String × W)

-- `Scheduler`, with the jobs that cron has, in the order in which they were added.
pub record Scheduler (R W : Type 0) : Type 0 where
  pub entries : List (Job R W)
  pub logs : Bool

pub data Error : Type 0 where
  name_required run_required : Error
  bad_spec : String → String → Error

module _ {R W : Type 0} where
  -- `Add`; `cron` is the error of a specification, if it has one.
  unfoldable pub add :
      (String → Option String) → Job R W → Scheduler R W → Result Error (Scheduler R W)
  add cron j s = if j.name == "" then err name_required else elim j.run [
    | none ↦ err run_required
    | some _ ↦ elim (cron j.spec) [
      | some e ↦ err (bad_spec j.name e)
      | none ↦ ok (record s { entries = s.entries ++ (j ∷ []) })
    ]
  ]

  -- `wrap`: what a firing job does to the state, and the lines that it logs. `Add` lets no job in
  -- without its function.
  unfoldable pub wrap : Scheduler R W → Job R W → R → W → W × List String
  wrap s j r w = elim j.run [
    | none ↦ (w, [])
    | some run ↦
        let (e, w') = run r w in
        (
          w',
          elim e [
            | none ↦ []
            | some x ↦ if s.logs then ("job " <> (j.name <> (": " <> x))) ∷ [] else []
          ],
        )
  ]
