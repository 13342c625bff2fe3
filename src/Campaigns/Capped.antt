-- ===== src/Campaigns/Capped.antt =====
-- What the steps of a tick of services/campaigns/worker.py do to the count of calls.
use yuviz.Base.{
  ℕ, ◌+◌, ◌≤◌, ◌<◌, Bool, true, false, Option, none, some, List, nat_beq, nat_beq_iff, nat_eq,
  String, string_eq, ◌≡◌, inl, inr, refl, arith, Option-cases,
}
use yuviz.Campaigns.{
  Campaign, Job, CampaignWorker, Landing, flying, check, commit, mark, resolve_contact,
  resolve_with_retry, originated,
}
use yuviz.Campaigns.Steps.{
  Stage, resting, reading, dialing, settling, finish, one_if, jobs_of, placing, landing_of,
  jobs_insert, flying_insert, flying-land,
}

-- The count that was read covers the calls and is below the cap.
abbrev pub IsFresh : ℕ → ℕ → CampaignWorker → Stage → List Landing → Type 0
IsFresh id limit w (reading c n) landing =
    c.campaign_id ≡ id → (jobs_of id w.job_to_contact + landing_of id landing ≤ n) × (n < limit)
IsFresh id limit w _ landing = Unit

pub record IsCapped (id limit : ℕ) (w : CampaignWorker) (stage : Stage) (landing : List Landing)
    : Type 0 where
  pub covered : jobs_of id w.job_to_contact + placing id stage + landing_of id landing ≤ flying id w
  pub capped : flying id w ≤ limit
  pub fresh : IsFresh id limit w stage landing

check-read :
    (now clock : ℕ) (c : Campaign) (w : CampaignWorker) (n : ℕ)
    → check now clock c w ≡ some n
    → (n ≡ flying c.campaign_id w) × (n < c.max_concurrent_calls)
unfolding check
check-read now clock c w n h = ground (arith, h)

pub tick-IsCapped :
    (id limit now clock : ℕ) (c : Campaign) (w : CampaignWorker) (ls : List Landing)
    → (c.campaign_id ≡ id → c.max_concurrent_calls ≤ limit)
    → IsCapped id limit w resting ls
    → IsCapped id limit w (elim (check now clock c w) [ none ↦ resting | some n ↦ reading c n ]) ls
tick-IsCapped id limit now clock c w ls k h = elim (Option-cases (check now clock c w)) [
  | inl e ↦ rw e h
  | inr (n, e) ↦
      let (read, below) = check-read now clock c w n e in
      rw e (record {
        covered = h.covered;
        capped = h.capped;
        fresh =
            λ own. (ground (arith, own, read, h.covered), ground (arith, own, read, below, k own));
      })
]

pub commit-IsCapped :
    (id limit now n : ℕ) (c : Campaign) (j : Job) (w : CampaignWorker) (ls : List Landing)
    → j.campaign_id ≡ c.campaign_id
    → IsCapped id limit w (reading c n) ls
    → IsCapped id limit (commit now c n w) (dialing j) ls
unfolding commit
commit-IsCapped id limit now n c j w ls same h =
    let count = flying_insert id c.campaign_id (n + 1) w.in_flight in
    record {
      covered = ground (arith, same, count, nat_beq_iff c.campaign_id id, h.fresh, h.covered);
      capped = ground (arith, count, nat_beq_iff c.campaign_id id, h.fresh, h.capped);
      fresh = tt;
    }

-- what moves no call into those that are counted, and takes as many off as off the count
pub less-IsCapped :
    (id limit : ℕ) (w next : CampaignWorker) (stage : Stage) (ls rest : List Landing) (k : ℕ)
    → flying id w ≤ flying id next + k
    → flying id next ≤ flying id w
    → jobs_of id next.job_to_contact + landing_of id rest + k
      ≤ jobs_of id w.job_to_contact + landing_of id ls
    → IsCapped id limit w stage ls
    → IsCapped id limit next stage rest
less-IsCapped id limit w next resting ls rest k f g l h = record {
  covered = omega (arith, f, l, h.covered);
  capped = omega (arith, g, h.capped);
  fresh = tt;
}
less-IsCapped id limit w next (reading c n) ls rest k f g l h = record {
  covered = omega (arith, f, l, h.covered);
  capped = omega (arith, g, h.capped);
  fresh = λ own. (omega (arith, l, (h.fresh own).0), (h.fresh own).1);
}
less-IsCapped id limit w next (dialing j) ls rest k f g l h = record {
  covered = omega (arith, f, l, h.covered);
  capped = omega (arith, g, h.capped);
  fresh = tt;
}
less-IsCapped id limit w next (settling m) ls rest k f g l h = record {
  covered = omega (arith, f, l, h.covered);
  capped = omega (arith, g, h.capped);
  fresh = tt;
}

pub finish-flying :
    (id : ℕ) (marked : Bool) (l : Landing) (w : CampaignWorker)
    → (flying id w ≤ flying id (finish marked l w) + one_if (nat_beq l.campaign_id id))
      × (flying id (finish marked l w) ≤ flying id w)
      × ((finish marked l w).job_to_contact ≡ w.job_to_contact)
unfolding resolve_contact
finish-flying id false l w = (omega arith, omega arith, refl)
finish-flying id true l w =
    let one = flying-land id l.campaign_id (mark l.contact_id l.status w) in
    (omega (arith, one), omega (arith, one), refl)

pub dialled-IsCapped :
    (id limit : ℕ) (uuid : Option String) (j : Job) (w : CampaignWorker) (ls : List Landing)
    → IsCapped id limit w (dialing j) ls
    → IsCapped id limit
        (originated uuid j w).0
        (elim (originated uuid j w).1 [ none ↦ resting | some l ↦ settling l ])
        ls
unfolding originated resolve_with_retry
dialled-IsCapped id limit (some u) j w ls h = record {
  covered = omega (arith, h.covered, jobs_insert id u j w.job_to_contact);
  capped = h.capped;
  fresh = tt;
}
dialled-IsCapped id limit none j w ls h = record {
  covered = h.covered;
  capped = h.capped;
  fresh = tt;
}

pub settles-IsCapped :
    (id limit : ℕ) (marked : Bool) (l : Landing) (w : CampaignWorker) (ls : List Landing)
    → IsCapped id limit w (settling l) ls
    → IsCapped id limit (finish marked l w) resting ls
settles-IsCapped id limit marked l w ls h =
    let (few, fewer, jobs) = finish-flying id marked l w in
    record {
      covered = rw jobs (omega (arith, few, h.covered));
      capped = omega (arith, fewer, h.capped);
      fresh = tt;
    }
