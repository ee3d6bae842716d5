-- ===== src/Aime/Probe.antt =====
-- RecordAimeProbe, and the verdict of ProbeAime. A time is nanoseconds since 1970-01-01 UTC as the column keeps
-- it, and 0 for Go's zero time.
use musecat_backend_core.Prelude.{
  ℕ, suc, zero, ◌+◌, ◌-◌, ◌*◌, String, Option, none, some, List, [], ◌∷◌, ◌++◌, Bool, true, false,
  not, ◌&&◌, ◌||◌, if◌then◌else◌, str_eq, ltb, leb, ◌==◌,
}
use musecat_backend_core.Xp.Kinds.{Time}

pub data Observed : Type 0 where
  available blocked unknown : Observed

abbrev pub is_available : Observed → Bool
is_available available = true
is_available _ = false

abbrev pub is_blocked : Observed → Bool
is_blocked blocked = true
is_blocked _ = false

-- AimeSourceObservation, with the status and the code that the request had
pub record Source : Type 0 where
  pub status : Observed
  pub http_status : ℕ

abbrev first_blocked : List Source → Option Source
first_blocked [] = none
first_blocked (s ∷ ss) = let rest = first_blocked ss in if is_blocked s.status then some s else rest

abbrev first_other : List Source → Option Source
first_other [] = none
first_other (s ∷ ss) = let rest = first_other ss in if is_available s.status then rest else some s

abbrev code_of : List Source → ℕ
code_of [] = 0
code_of (s ∷ ss) = s.http_status

abbrev or_available : List Source → Option Source → Source
or_available pages none = record { status = available; http_status = code_of pages }
or_available pages (some s) = record { status = unknown; http_status = s.http_status }

abbrev or_blocked : Option Source → Source → Source
or_blocked none s = s
or_blocked (some b) s = record { status = blocked; http_status = b.http_status }

-- the verdict of ProbeAime on the sources after the first, which is diagnostic only
unfoldable pub verdict : List Source → Source
verdict pages = or_blocked (first_blocked pages) (or_available pages (first_other pages))

-- the column status of aime_status: the verdict of a page probe, with the prefix web_, or anything else
pub data Stored : Type 0 where
  old_http : String → Stored
  web : Observed → Stored

abbrev pub is_web : Stored → Bool
is_web (old_http _) = false
is_web (web _) = true

abbrev pub is_web_available : Stored → Bool
is_web_available (old_http _) = false
is_web_available (web o) = is_available o

-- aimeWebStatus
unfoldable pub aime_web_status : Stored → Observed
aime_web_status (old_http _) = unknown
aime_web_status (web o) = o

-- the row of aime_status
pub record AimeState : Type 0 where
  pub status : Stored
  pub http_status : ℕ
  pub checked_at : Time
  pub incident : String
  pub recovered : Bool
  pub confirmations : ℕ
  pub confirmation_at : Time
  pub ops_candidate_at : Time
  pub ops_telegram_sent : Bool
  pub ops_discord_sent : Bool

abbrev pub minutes : ℕ → Time
minutes n = n * 60_000_000_000

abbrev pub reset : AimeState → Time → AimeState
reset row now = record row { confirmations = 0; confirmation_at = now }

-- one more confirmation, and the recovery if it is the third and operations were told
abbrev pub count_confirmation : AimeState → Time → AimeState
count_confirmation row now =
    let count = if ltb row.confirmations 2 then row.confirmations + 1 else 3 in
    record row {
      confirmations = count;
      confirmation_at = now;
      recovered = (leb 3 count && row.ops_telegram_sent && row.ops_discord_sent) || row.recovered;
    }

abbrev pub with_candidate : AimeState → Time → AimeState
with_candidate row now =
    if row.ops_candidate_at == 0 then record row { ops_candidate_at = now } else row

abbrev pub starts_over : AimeState → Time → Bool
starts_over row now =
    (row.ops_candidate_at == 0)
    || not (is_web_available row.status)
    || (row.confirmation_at == 0)
    || ltb (row.confirmation_at + minutes 10) now

-- an available page during an incident
unfoldable pub confirm : AimeState → Time → AimeState
confirm row now =
    let candidate = with_candidate row now in
    if starts_over row now
    then reset candidate now
    else if leb (row.confirmation_at + minutes 5) now
    then count_confirmation candidate now
    else candidate

-- confirmations of old observations do not count
abbrev pub drop_old : AimeState → Time → AimeState
drop_old row now = if is_web row.status then row else reset row now

abbrev pub open_incident : AimeState → Observed → String → AimeState
open_incident row observed stamp =
    if is_blocked observed && str_eq row.incident "" then record row { incident = stamp } else row

-- the changes before the recovery; `stamp` is the clock in the format of an incident
unfoldable pub observe : AimeState → Observed → String → Time → AimeState
unfolding confirm
observe row observed stamp now =
    let begun = open_incident (drop_old row now) observed stamp in
    if not (is_available observed)
    then reset begun now
    else if not (str_eq begun.incident "")
    then confirm begun now
    else begun

-- a row of aime_probe
pub record Probe : Type 0 where
  pub checked_at : Time
  pub status : Stored
  pub http_status : ℕ

-- the expired rows, at most `n`, go; the rows stand in the order of checked_at
unfoldable pub delete_expired : ℕ → Time → List Probe → List Probe
delete_expired n cutoff [] = []
delete_expired zero cutoff (p ∷ ps) = p ∷ ps
delete_expired (suc n) cutoff (p ∷ ps) =
    let fewer = delete_expired n cutoff ps in if ltb p.checked_at cutoff then fewer else p ∷ ps

abbrev pub new_state : AimeState
new_state = record {
  status = old_http "";
  http_status = 0;
  checked_at = 0;
  incident = "";
  recovered = false;
  confirmations = 0;
  confirmation_at = 0;
  ops_candidate_at = 0;
  ops_telegram_sent = false;
  ops_discord_sent = false;
}

abbrev pub or_new : Option AimeState → AimeState
or_new none = new_state
or_new (some row) = row

-- the row of aime_status after a probe
unfoldable pub next_state : AimeState → Source → String → Time → AimeState
unfolding observe
next_state row source stamp now =
    let seen = if row.recovered then row else observe row source.status stamp now in
    record seen { status = web source.status; http_status = source.http_status; checked_at = now }

-- RecordAimeProbe
unfoldable pub record_aime_probe :
    Option AimeState → List Probe → Source → String → Time → AimeState × List Probe
unfolding next_state delete_expired
record_aime_probe row probes source stamp now =
    let probe : Probe = record {
      checked_at = now;
      status = web source.status;
      http_status = source.http_status;
    } in
    (
      next_state (or_new row) source stamp now,
      delete_expired 100 (now - minutes 1440) (probes ++ (probe ∷ [])),
    )
