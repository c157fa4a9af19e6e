-- ===== src/Admin/Jobs/Pruning.antt =====
-- app/admin/jobs.py: pruning bounds the registry and forgets no job that runs.
use channel_agent.Prelude.{
  ℕ, zero, suc, ◌+◌, ◌-◌, ◌≤◌, ◌≡◌, ◌⊎◌, inl, inr, refl, not, false, List, [], ◌∷◌, length, any,
  select, arith,
}
use channel_agent.Admin.Jobs.{Job, is_final, drop_finished, prune}

drop_finished-running :
    (n : ℕ) (jobs : List Job)
    → select (λ j. not (is_final j)) (drop_finished n jobs) ≡ select (λ j. not (is_final j)) jobs
unfolding drop_finished select
drop_finished-running zero jobs = refl
drop_finished-running (suc n) [] = refl
drop_finished-running (suc n) (j ∷ jobs) =
    ground (arith, drop_finished-running n jobs, drop_finished-running (suc n) jobs)

length-drop_finished :
    (n : ℕ) (jobs : List Job)
    → (length (drop_finished n jobs) + n ≡ length jobs)
      ⊎ (any is_final (drop_finished n jobs) ≡ false)
unfolding drop_finished
length-drop_finished zero jobs = inl (omega arith)
length-drop_finished (suc n) [] = inr refl
length-drop_finished (suc n) (j ∷ jobs) =
    ground (arith, length-drop_finished n jobs, length-drop_finished (suc n) jobs)

-- After pruning, at most the given number of jobs are remembered, or none that is remembered has
-- ended; and every job that runs is remembered.
pub prune_lem :
    (keep : ℕ) (jobs : List Job)
    → ((length (prune keep jobs) ≤ keep) ⊎ (any is_final (prune keep jobs) ≡ false))
      × (select (λ j. not (is_final j)) (prune keep jobs) ≡ select (λ j. not (is_final j)) jobs)
unfolding prune
prune_lem keep jobs = (
  elim (length-drop_finished (length jobs - keep) jobs) [
    | inl h ↦ inl (omega (arith, h))
    | inr h ↦ inr h
  ],
  drop_finished-running (length jobs - keep) jobs,
)
