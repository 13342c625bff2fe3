-- ===== src/Campaigns/Race.antt =====
-- The count of calls of services/campaigns/worker.py when a job is completed during a tick.
use yuviz.Base.{
  ℕ, ◌+◌, ◌≤◌, ◌<◌, true, false, some, [], ◌∷◌, nat_beq_iff, nat_eq, String, string_eq, ◌≡◌, arith,
}
use yuviz.Base.Dict.{lookup, remove}
use yuviz.Campaigns.{Campaign, Job, CampaignWorker, flying, commit, resolve_contact}
use yuviz.Campaigns.Steps.{
  reading, commits, completes, lands, at_stage, take_step, take_steps, jobs_of, calls, jobs_remove,
  flying_insert,
}
use yuviz.Campaigns.Cap.{complete_known}

-- If a job of the campaign is completed and counted off between the moment when a tick reads the count
-- and the moment when it writes the count back, the end is lost: the count stays above the calls that
-- there are.
pub count_drifts :
    (now contact attempt n : ℕ) (c : Campaign) (uuid : String) (j : Job) (w : CampaignWorker)
    → lookup uuid w.job_to_contact ≡ some j
    → j.campaign_id ≡ c.campaign_id
    → jobs_of c.campaign_id w.job_to_contact ≤ n
    → let after =
        take_steps
          (completes uuid true false ∷ lands 0 true ∷ commits now contact attempt ∷ [])
          (record { worker = w; stage = reading c n; landing = [] }) in
      calls c.campaign_id after < flying c.campaign_id after.worker
unfolding take_steps take_step at_stage commit resolve_contact
count_drifts now contact attempt n c uuid j w found own covered =
    let id = c.campaign_id in
    let fewer = jobs_remove id uuid j w.job_to_contact found in
    let (l, _, known) = complete_known uuid true false w j found in
    let rest = resolve_contact l (record w { job_to_contact = remove uuid w.job_to_contact }) in
    rw known (
      ground (
        arith,
        flying_insert id id (n + 1) rest.in_flight,
        nat_beq_iff id id,
        nat_beq_iff j.campaign_id id,
        own,
        fewer,
        covered,
      ))
