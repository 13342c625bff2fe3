-- ===== src/Examples/Campaigning.antt =====
-- A campaign of services/campaigns with one call, and its numbers.
use yuviz.Base.{◌<◌, true, false, none, some, List, [], ◌∷◌, refl, arith}
use yuviz.Campaigns.{Campaign, Job, CampaignWorker, flying}
use yuviz.Campaigns.Steps.{
  resting, reading, World, lands, Step, ticks, commits, dialled, completes, take_steps, calls,
}
use yuviz.Campaigns.Capped.{IsCapped}
use yuviz.Campaigns.Cap.{take_steps-IsCapped}
use yuviz.Campaigns.Race.{count_drifts}

abbrev campaign : Campaign
campaign = record {
  campaign_id = 1;
  pacing = 0;
  max_concurrent_calls = 2;
  max_attempts = 1;
  has_caller_id = true;
  hours_start = none;
  hours_end = none;
}

abbrev idle_worker : CampaignWorker
idle_worker = record { last_attempt_at = []; in_flight = []; job_to_contact = []; contacts = [] }

abbrev one_dial : List Step
one_dial =
    ticks 5 0 campaign
    ∷ commits 5 9 1
    ∷ dialled (some "job")
    ∷ completes "job" true false
    ∷ lands 0 true
    ∷ []

abbrev idle_world : World
idle_world = record { worker = idle_worker; stage = resting; landing = [] }

idle-IsCapped : IsCapped 1 2 idle_worker resting []
idle-IsCapped = record { covered = omega arith; capped = omega arith; fresh = tt }

take_steps-IsCapped_example :
    IsCapped 1 2
      (take_steps one_dial idle_world).worker
      (take_steps one_dial idle_world).stage
      (take_steps one_dial idle_world).landing
take_steps-IsCapped_example =
    take_steps-IsCapped 1 2 one_dial idle_world ((λ own. omega arith), (tt, (tt, (tt, (tt, tt)))))
      idle-IsCapped

abbrev job : Job
job = record { campaign_id = 1; contact_id = 9; max_attempts = 1; attempt_count = 1 }

abbrev busy : CampaignWorker
busy = record idle_worker { in_flight = (1, 1) ∷ []; job_to_contact = ("job", job) ∷ [] }

abbrev drifted : World
drifted =
    take_steps (completes "job" true false ∷ lands 0 true ∷ commits 5 10 1 ∷ [])
      (record { worker = busy; stage = reading campaign 1; landing = [] })

count_drifts_example : calls 1 drifted < flying 1 drifted.worker
count_drifts_example = count_drifts 5 10 1 1 campaign "job" job busy refl refl (omega arith)
