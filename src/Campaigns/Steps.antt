-- ===== src/Campaigns/Steps.antt =====
-- The steps of services/campaigns/worker.py as they can come in any order: a tick is cut at its
-- awaits, and the end of a call may stand between any two.
use yuviz.Base.{
  ℕ, ◌+◌, ◌-◌, ◌≤◌, Bool, true, false, Option, none, some, List, [], ◌∷◌, nat_beq, nat_beq_iff,
  nat_eq, String, string_eq, if◌then◌else◌, ◌≡◌, arith, zero, suc, ◌++◌, Option-cases, inl, inr,
}
use yuviz.Base.Dict.{lookup, insert, remove, get_or, lookup-insert}
use yuviz.Campaigns.{
  Campaign, Job, CampaignWorker, flying, check, commit, land, originated, on_job_complete, Landing,
  resolve_contact,
}

-- Where `_tick_campaign` waits: nowhere; after `check`, with the campaign and the count that it has
-- read; for the dialler; or, when that has named no job, for the status to be marked.
pub data Stage : Type 0 where
  resting : Stage
  reading : Campaign → ℕ → Stage
  dialing : Job → Stage
  settling : Landing → Stage

-- The worker, where its tick waits, and what each `_on_job_complete` under way waits for.
pub record World : Type 0 where
  pub worker : CampaignWorker
  pub stage : Stage
  pub landing : List Landing

-- A stretch of the program without an await. The last two have whether the status could be marked; where
-- it could not, the exception ends the task.
pub data Step : Type 0 where
  ticks : ℕ → ℕ → Campaign → Step
  gives_up : Step
  commits : ℕ → ℕ → ℕ → Step
  dialled : Option String → Step
  completes : String → Bool → Bool → Step
  settles : Bool → Step
  lands : ℕ → Bool → Step

-- what the task at a place waits for, and what the others do
abbrev pub pick : ℕ → List Landing → Option (Landing × List Landing)
pick n [] = none
pick zero (l ∷ landing) = some (l, landing)
pick (suc n) (l ∷ landing) = elim (pick n landing) [
  | none ↦ none
  | some (m, others) ↦ some (m, l ∷ others)
]

abbrev pub listed : Option Landing → List Landing
listed none = []
listed (some l) = l ∷ []

-- what follows the mark
abbrev pub finish : Bool → Landing → CampaignWorker → CampaignWorker
finish true l w = resolve_contact l w
finish false l w = w

-- what a step does at a stage; one that cannot happen there changes nothing
unfoldable pub at_stage : Step → Stage → CampaignWorker → List Landing → World
unfolding resolve_contact
at_stage (ticks now clock c) resting w landing = record {
  worker = w;
  stage = elim (check now clock c w) [ none ↦ resting | some n ↦ reading c n ];
  landing = landing;
}
at_stage gives_up (reading c n) w landing = record {
  worker = w;
  stage = resting;
  landing = landing;
}
at_stage (commits now contact attempt) (reading c n) w landing = record {
  worker = commit now c n w;
  stage = dialing (record {
    campaign_id = c.campaign_id;
    contact_id = contact;
    max_attempts = c.max_attempts;
    attempt_count = attempt;
  });
  landing = landing;
}
at_stage (dialled uuid) (dialing j) w landing =
    let (after, waits) = originated uuid j w in
    record {
      worker = after;
      stage = elim waits [ none ↦ resting | some l ↦ settling l ];
      landing = landing;
    }
at_stage (settles marked) (settling l) w landing = record {
  worker = finish marked l w;
  stage = resting;
  landing = landing;
}
at_stage (completes uuid succeeded unanswered) stage w landing =
    let (after, waits) = on_job_complete uuid succeeded unanswered w in
    record { worker = after; stage = stage; landing = landing ++ listed waits }
at_stage (lands n marked) stage w landing = elim (pick n landing) [
  | none ↦ record { worker = w; stage = stage; landing = landing }
  | some (l, others) ↦ record { worker = finish marked l w; stage = stage; landing = others }
]
at_stage _ stage w landing = record { worker = w; stage = stage; landing = landing }

unfoldable pub take_step : Step → World → World
take_step s x = at_stage s x.stage x.worker x.landing

unfoldable pub take_steps : List Step → World → World
take_steps [] x = x
take_steps (s ∷ steps) x = take_steps steps (take_step s x)

abbrev pub one_if : Bool → ℕ
one_if true = 1
one_if false = 0

-- the jobs of a campaign that the worker waits for, the call that is being placed or was not, and the jobs
-- that are complete and not counted off
abbrev pub jobs_of : ℕ → List (String × Job) → ℕ
jobs_of id [] = 0
jobs_of id ((_, j) ∷ jobs) = one_if (nat_beq j.campaign_id id) + jobs_of id jobs

abbrev pub placing : ℕ → Stage → ℕ
placing id (dialing j) = one_if (nat_beq j.campaign_id id)
placing id (settling l) = one_if (nat_beq l.campaign_id id)
placing id _ = 0

abbrev pub landing_of : ℕ → List Landing → ℕ
landing_of id [] = 0
landing_of id (l ∷ landing) = one_if (nat_beq l.campaign_id id) + landing_of id landing

abbrev pub calls : ℕ → World → ℕ
calls id x = jobs_of id x.worker.job_to_contact + placing id x.stage + landing_of id x.landing

pub landing_of-append :
    (id : ℕ) (xs ys : List Landing) → landing_of id (xs ++ ys) ≡ landing_of id xs + landing_of id ys
landing_of-append id [] ys = omega arith
landing_of-append id (l ∷ xs) ys = omega (arith, landing_of-append id xs ys)

pub landing_of-pick :
    (id n : ℕ) (landing others : List Landing) (l : Landing)
    → pick n landing ≡ some (l, others)
    → landing_of id landing ≡ one_if (nat_beq l.campaign_id id) + landing_of id others
landing_of-pick id n [] others l h = ground arith
landing_of-pick id zero (k ∷ landing) others l h = ground (arith, h)
landing_of-pick id (suc n) (k ∷ landing) others l h = elim (Option-cases (pick n landing)) [
  | inl e ↦ ground (arith, e, h)
  | inr ((m, rest), e) ↦ ground (arith, e, h, landing_of-pick id n landing rest m e)
]

pub jobs_insert :
    (id : ℕ) (u : String) (j : Job) (jobs : List (String × Job))
    → jobs_of id (insert u j jobs) ≤ jobs_of id jobs + one_if (nat_beq j.campaign_id id)
jobs_insert id u j [] = omega arith
jobs_insert id u j ((v, k) ∷ jobs) = ground (arith, jobs_insert id u j jobs)

jobs_remove_le :
    (id : ℕ) (u : String) (jobs : List (String × Job))
    → jobs_of id (remove u jobs) ≤ jobs_of id jobs
jobs_remove_le id u [] = omega arith
jobs_remove_le id u ((v, k) ∷ jobs) = ground (arith, jobs_remove_le id u jobs)

pub jobs_remove :
    (id : ℕ) (u : String) (j : Job) (jobs : List (String × Job))
    → lookup u jobs ≡ some j
    → jobs_of id (remove u jobs) + one_if (nat_beq j.campaign_id id) ≤ jobs_of id jobs
jobs_remove id u j [] h = ground arith
jobs_remove id u j ((v, k) ∷ jobs) h =
    ground (arith, h, jobs_remove_le id u jobs, jobs_remove id u j jobs)

pub flying_insert :
    (id k n : ℕ) (d : List (ℕ × ℕ))
    → get_or id (insert k n d) 0 ≡ (if nat_beq k id then n else get_or id d 0)
flying_insert id k n d = ground (arith, lookup-insert k id n d)

-- Landing takes one off the campaign's count, and nothing off another's.
pub flying-land :
    (id k : ℕ) (w : CampaignWorker) → flying id (land k w) ≡ flying id w - one_if (nat_beq k id)
flying-land id k w =
    ground (arith, flying_insert id k (get_or k w.in_flight 1 - 1) w.in_flight, nat_beq_iff k id)
