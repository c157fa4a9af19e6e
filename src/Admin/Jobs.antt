-- ===== src/Admin/Jobs.antt =====
-- app/admin/jobs.py: the registry of long operations. The jobs are in the order of the dict, which is
-- that of `created_at`, as the clock does not go back; the texts of errors are kept as they are shown.
pub mod Pruning
use channel_agent.Prelude.{
  ℕ, zero, suc, ◌-◌, String, Bool, true, false, Option, none, some, List, [], ◌∷◌, ◌++◌, length,
  first, update, str_eq, if◌then◌else◌,
}

pub data JobStatus : Type 0 where
  running finished failed cancelled : JobStatus

pub record Job : Type 0 where
  pub id : String
  pub kind : String
  pub status : JobStatus
  pub error : Option String
  -- whether its task was asked to stop
  pub cancelling : Bool

-- `job.status in FINAL`
abbrev pub is_final : Job → Bool
is_final j = elim j.status [ running ↦ false | finished ↦ true | failed ↦ true | cancelled ↦ true ]

abbrev pub has_job_id : String → Job → Bool
has_job_id id j = str_eq j.id id

-- The first `n` finished jobs go.
unfoldable pub drop_finished : ℕ → List Job → List Job
drop_finished zero jobs = jobs
drop_finished (suc n) [] = []
drop_finished (suc n) (j ∷ jobs) =
    let gone = drop_finished n jobs in
    let kept = drop_finished (suc n) jobs in if is_final j then gone else j ∷ kept

-- `_prune`
unfoldable pub prune : ℕ → List Job → List Job
prune keep jobs = drop_finished (length jobs - keep) jobs

-- `start`, with the new id
unfoldable pub start : ℕ → String → String → List Job → Job × List Job
start keep id kind jobs =
    let job : Job = record {
      id = id;
      kind = kind;
      status = running;
      error = none;
      cancelling = false;
    } in
    (job, prune keep (jobs ++ job ∷ []))

-- How a runner ends: an error that is shown has its text, another the text with its error id.
pub data RunnerEnd : Type 0 where
  returned stopped : RunnerEnd
  raised : String → RunnerEnd

-- `_run`, from the end of the runner on
unfoldable pub end_run : RunnerEnd → Job → Job
end_run returned j = record j { status = finished }
end_run stopped j = record j { status = cancelled }
end_run (raised text) j = record j { status = failed; error = some text }

pub data CancelResult : Type 0 where
  requested already_final no_job : CancelResult

abbrev cancel_job : Option Job → List Job → CancelResult × List Job
cancel_job none jobs = (no_job, jobs)
cancel_job (some j) jobs =
    if is_final j
    then (already_final, jobs)
    else (requested, update (has_job_id j.id) (λ r. record r { cancelling = true }) jobs)

-- `cancel`
unfoldable pub cancel : String → List Job → CancelResult × List Job
cancel id jobs = cancel_job (first (has_job_id id) jobs) jobs
