-- ===== src/Campaigns.antt =====
-- services/campaigns/worker.py and dnc.py: the pacing of the calls of a campaign. The worker is one
-- task that awaits the database and the dialler; `_on_job_complete` runs in between, as tasks of its own.
-- What stands between two awaits is one function here. The database and the dialler answer by arguments.
pub mod Steps
pub mod Capped
pub mod Cap
pub mod Race
pub mod Numbers
use yuviz.Base.{
  ℕ, ◌+◌, ◌-◌, ◌*◌, Bool, true, false, not, ◌&&◌, ◌||◌, Option, none, some, is_some, List, [], ◌∷◌,
  any, keep, length, drop, leb, ltb, nat_beq, nat_eq, Text, text_eq, ◌==◌, if◌then◌else◌, String,
  string_eq,
}
use yuviz.Base.Dict.{lookup, insert, remove, get_or}

-- the columns of a campaign that the worker reads; the hours are seconds of the day
pub record Campaign : Type 0 where
  pub campaign_id : ℕ
  pub pacing : ℕ
  pub max_concurrent_calls : ℕ
  pub max_attempts : ℕ
  pub has_caller_id : Bool
  pub hours_start : Option ℕ
  pub hours_end : Option ℕ

-- `_within_calling_hours`, with the time of day in the campaign's zone
unfoldable pub within_calling_hours : ℕ → Campaign → Bool
within_calling_hours clock c = elim c.hours_start [
  | none ↦ true
  | some start ↦ elim c.hours_end [
    | none ↦ true
    | some end ↦
        if leb start end then leb start clock && leb clock end else leb start clock || leb clock end
  ]
]

pub data ContactStatus : Type 0 where
  pending calling completed no_answer failed blocked : ContactStatus

-- an entry of `_job_to_contact`
pub record Job : Type 0 where
  pub campaign_id : ℕ
  pub contact_id : ℕ
  pub max_attempts : ℕ
  pub attempt_count : ℕ

-- the worker, and the status of the contacts in the database
pub record CampaignWorker : Type 0 where
  pub last_attempt_at : List (ℕ × ℕ)
  pub in_flight : List (ℕ × ℕ)
  pub job_to_contact : List (String × Job)
  pub contacts : List (ℕ × ContactStatus)

abbrev pub flying : ℕ → CampaignWorker → ℕ
flying id w = get_or id w.in_flight 0

-- The start of `_tick_campaign`, up to the claim of a contact: the count of calls that it has read,
-- or that it has returned.
unfoldable pub check : ℕ → ℕ → Campaign → CampaignWorker → Option ℕ
unfolding within_calling_hours
check now clock c w =
    if ltb (now - get_or c.campaign_id w.last_attempt_at 0) c.pacing
    then none
    else if leb c.max_concurrent_calls (flying c.campaign_id w)
    then none
    else if not c.has_caller_id
    then none
    else if not (within_calling_hours clock c)
    then none
    else some (flying c.campaign_id w)

abbrev pub mark : ℕ → ContactStatus → CampaignWorker → CampaignWorker
mark contact status w = record w { contacts = insert contact status w.contacts }

-- a contact that is on the do-not-call list
unfoldable pub block : ℕ → CampaignWorker → CampaignWorker
block contact w = mark contact blocked w

-- the two assignments before the call is placed, with the count that `check` has read
unfoldable pub commit : ℕ → Campaign → ℕ → CampaignWorker → CampaignWorker
commit now c read w = record w {
  last_attempt_at = insert c.campaign_id now w.last_attempt_at;
  in_flight = insert c.campaign_id (read + 1) w.in_flight;
}

-- `self._in_flight[id] = max(0, self._in_flight.get(id, 1) - 1)`
abbrev pub land : ℕ → CampaignWorker → CampaignWorker
land id w = record w { in_flight = insert id (get_or id w.in_flight 1 - 1) w.in_flight }

-- what `mark_contact_status` is awaited for: a contact's status; once it returns, the call is counted off
pub record Landing : Type 0 where
  pub campaign_id : ℕ
  pub contact_id : ℕ
  pub status : ContactStatus

-- `_resolve_contact`, once `mark_contact_status` has returned
unfoldable pub resolve_contact : Landing → CampaignWorker → CampaignWorker
resolve_contact l w = land l.campaign_id (mark l.contact_id l.status w)

-- `_resolve_with_retry` up to its await: the status that is marked
unfoldable pub resolve_with_retry : Job → ContactStatus → Landing
resolve_with_retry j status = record {
  campaign_id = j.campaign_id;
  contact_id = j.contact_id;
  status = if ltb j.attempt_count j.max_attempts then pending else status;
}

-- The end of `_tick_campaign`: the dialler names a job; or it accepts the call and names none, or it
-- raises, and then `_resolve_with_retry` is awaited.
unfoldable pub originated : Option String → Job → CampaignWorker → CampaignWorker × Option Landing
unfolding resolve_with_retry
originated (some uuid) j w = (record w { job_to_contact = insert uuid j w.job_to_contact }, none)
originated none j w = (w, some (resolve_with_retry j failed))

-- `_on_job_complete` up to its await, with whether the job succeeded and whether nobody answered
unfoldable pub on_job_complete :
    String → Bool → Bool → CampaignWorker → CampaignWorker × Option Landing
unfolding resolve_with_retry
on_job_complete uuid succeeded unanswered w = elim (lookup uuid w.job_to_contact) [
  | none ↦ (w, none)
  | some j ↦ (
    record w { job_to_contact = remove uuid w.job_to_contact },
    (if succeeded
        then some
            (record { campaign_id = j.campaign_id; contact_id = j.contact_id; status = completed })
        else some (resolve_with_retry j (if unanswered then no_answer else failed))),
  )
]

abbrev pub is_digit : ℕ → Bool
is_digit c = leb b'0' c && leb c b'9'

-- `normalize_phone`, with `isdigit` over ASCII
unfoldable pub normalize_phone : Text → Text
normalize_phone phone =
    let digits = keep is_digit phone in
    if leb 10 (length digits) then drop (length digits - 10) digits else digits

-- `is_blocked`, with the numbers of the tenant's list
unfoldable pub is_blocked : List Text → Text → Bool
is_blocked numbers phone = any (λ n. normalize_phone n == normalize_phone phone) numbers
