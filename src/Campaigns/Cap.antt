-- ===== src/Campaigns/Cap.antt =====
-- The cap on the calls of a campaign: services/campaigns/worker.py under every order of its steps.
use yuviz.Base.{
  ℕ, ◌≤◌, Bool, true, false, none, some, List, [], ◌∷◌, ◌++◌, append-nil, nat_beq, nat_eq, String,
  string_eq, if◌then◌else◌, ◌≡◌, inl, inr, refl, arith, Option-cases, All,
}
use yuviz.Base.Dict.{lookup, remove}
use yuviz.Campaigns.{
  Job, CampaignWorker, Landing, resolve_with_retry, on_job_complete, failed, no_answer, completed,
}
use yuviz.Campaigns.Steps.{
  Stage, resting, reading, dialing, settling, World, Step, ticks, gives_up, commits, dialled,
  completes, settles, lands, pick, listed, finish, at_stage, take_step, take_steps, one_if,
  landing_of, landing_of-append, landing_of-pick, jobs_remove,
}
use yuviz.Campaigns.Capped.{
  IsCapped, tick-IsCapped, commit-IsCapped, less-IsCapped, finish-flying, dialled-IsCapped,
  settles-IsCapped,
}

-- The steps see no larger cap for the campaign.
abbrev pub KeepsCap : ℕ → ℕ → Step → Type 0
KeepsCap id limit (ticks _ _ c) = c.campaign_id ≡ id → c.max_concurrent_calls ≤ limit
KeepsCap id limit _ = Unit

complete_unknown :
    (uuid : String) (succeeded unanswered : Bool) (w : CampaignWorker)
    → lookup uuid w.job_to_contact ≡ none
    → on_job_complete uuid succeeded unanswered w ≡ (w, none)
unfolding on_job_complete
complete_unknown uuid succeeded unanswered w e = ground (arith, e)

pub complete_known :
    (uuid : String) (succeeded unanswered : Bool) (w : CampaignWorker) (j : Job)
    → lookup uuid w.job_to_contact ≡ some j
    → (l : Landing) × (l.campaign_id ≡ j.campaign_id)
      × (on_job_complete uuid succeeded unanswered w
          ≡ (record w { job_to_contact = remove uuid w.job_to_contact }, some l))
unfolding on_job_complete resolve_with_retry
complete_known uuid true unanswered w j e = (
  record { campaign_id = j.campaign_id; contact_id = j.contact_id; status = completed },
  refl,
  ground (arith, e),
)
complete_known uuid false unanswered w j e =
    (resolve_with_retry j (if unanswered then no_answer else failed), refl, ground (arith, e))

complete-IsCapped :
    (id limit : ℕ) (uuid : String) (succeeded unanswered : Bool) (w : CampaignWorker)
    (stage : Stage) (ls : List Landing)
    → IsCapped id limit w stage ls
    → IsCapped id limit
        (on_job_complete uuid succeeded unanswered w).0
        stage
        (ls ++ listed (on_job_complete uuid succeeded unanswered w).1)
complete-IsCapped id limit uuid succeeded unanswered w stage ls h =
    elim (Option-cases (lookup uuid w.job_to_contact)) [
      | inl e ↦ rw (complete_unknown uuid succeeded unanswered w e, append-nil ls) h
      | inr (j, e) ↦
          let (l, own, known) = complete_known uuid succeeded unanswered w j e in
          let next = record w { job_to_contact = remove uuid w.job_to_contact } in
          let fewer = jobs_remove id uuid j w.job_to_contact e in
          let one : landing_of id (l ∷ []) ≡ one_if (nat_beq j.campaign_id id) =
            rw own (omega arith) in
          rw known (
            less-IsCapped id limit w next stage ls (ls ++ l ∷ []) 0 (omega arith) (omega arith)
              (omega (arith, landing_of-append id ls (l ∷ []), one, fewer)) h)
    ]

lands-IsCapped :
    (id limit n : ℕ) (marked : Bool) (w : CampaignWorker) (stage : Stage) (ls : List Landing)
    → IsCapped id limit w stage ls
    → let x = at_stage (lands n marked) stage w ls in IsCapped id limit x.worker x.stage x.landing
unfolding at_stage
lands-IsCapped id limit n marked w stage ls h = elim (Option-cases (pick n ls)) [
  | inl e ↦ rw (at_stage, e) h
  | inr ((l, others), e) ↦
      let (few, fewer, jobs) = finish-flying id marked l w in
      let own = one_if (nat_beq l.campaign_id id) in
      rw (at_stage, e)
        (less-IsCapped id limit w (finish marked l w) stage ls others own few fewer
          (rw jobs (omega (arith, landing_of-pick id n ls others l e))) h)
]

stage-IsCapped :
    (id limit : ℕ) (s : Step) (stage : Stage) (w : CampaignWorker) (ls : List Landing)
    → KeepsCap id limit s
    → IsCapped id limit w stage ls
    → let x = at_stage s stage w ls in IsCapped id limit x.worker x.stage x.landing
unfolding at_stage
stage-IsCapped id limit (ticks now clock c) resting w ls k h =
    tick-IsCapped id limit now clock c w ls k h
stage-IsCapped id limit gives_up (reading c n) w ls k h = record {
  covered = h.covered;
  capped = h.capped;
  fresh = tt;
}
stage-IsCapped id limit (commits now contact attempt) (reading c n) w ls k h =
    commit-IsCapped id limit now n c _ w ls refl h
stage-IsCapped id limit (dialled uuid) (dialing j) w ls k h =
    dialled-IsCapped id limit uuid j w ls h
stage-IsCapped id limit (settles marked) (settling l) w ls k h =
    settles-IsCapped id limit marked l w ls h
stage-IsCapped id limit (completes uuid succeeded unanswered) stage w ls k h =
    complete-IsCapped id limit uuid succeeded unanswered w stage ls h
stage-IsCapped id limit (lands n marked) stage w ls k h =
    lands-IsCapped id limit n marked w stage ls h
stage-IsCapped id limit (ticks now clock c) (reading _ _) w ls k h = h
stage-IsCapped id limit (ticks now clock c) (dialing _) w ls k h = h
stage-IsCapped id limit (ticks now clock c) (settling _) w ls k h = h
stage-IsCapped id limit gives_up resting w ls k h = h
stage-IsCapped id limit gives_up (dialing _) w ls k h = h
stage-IsCapped id limit gives_up (settling _) w ls k h = h
stage-IsCapped id limit (commits now contact attempt) resting w ls k h = h
stage-IsCapped id limit (commits now contact attempt) (dialing _) w ls k h = h
stage-IsCapped id limit (commits now contact attempt) (settling _) w ls k h = h
stage-IsCapped id limit (dialled uuid) resting w ls k h = h
stage-IsCapped id limit (dialled uuid) (reading _ _) w ls k h = h
stage-IsCapped id limit (dialled uuid) (settling _) w ls k h = h
stage-IsCapped id limit (settles marked) resting w ls k h = h
stage-IsCapped id limit (settles marked) (reading _ _) w ls k h = h
stage-IsCapped id limit (settles marked) (dialing _) w ls k h = h

-- In whatever order the steps of the ticks and of the completed jobs come: a campaign's count is at least
-- the number of its jobs that are tracked, being placed, or complete and not counted off, and it never
-- passes the cap that the steps see. A job is the origination of a call, and is complete when the dialler
-- says so; a call that the dialler accepted without naming a job is not tracked.
pub take_steps-IsCapped :
    (id limit : ℕ) (steps : List Step) (x : World)
    → All (KeepsCap id limit) steps
    → IsCapped id limit x.worker x.stage x.landing
    → let y = take_steps steps x in IsCapped id limit y.worker y.stage y.landing
unfolding take_steps take_step
take_steps-IsCapped id limit [] x k h = h
take_steps-IsCapped id limit (s ∷ steps) x k h =
    take_steps-IsCapped id limit steps (take_step s x) k.1
      (stage-IsCapped id limit s x.stage x.worker x.landing k.0 h)
