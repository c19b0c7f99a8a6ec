-- ===== src/Jobs/Repository/Fair.antt =====
-- dsx_connect_ng/dsx_connect_ng/jobs/repository.py: `list_outbox_records_fair`, the rounds that take one row of
-- each job in turn.
pub mod Rows
pub mod Length
use Prim.Native.Nat.{suc, ◌+◌}
use dsx_connect.Prelude.{
  ℕ, zero, String, Option, none, some, List, [], ◌∷◌, ◌++◌, if◌then◌else◌, is_empty, leb, ltb,
  length, not, ◌&&◌,
}
use dsx_connect.Prelude.Dict.{Dict, get, put, pop, keys}
use dsx_connect.Jobs.Models.{PublishState, OutboxRecord}
use dsx_connect.Jobs.World.{World}
use dsx_connect.Jobs.Repository.Outbox.{list_outbox_records, group_by_job}

abbrev pub Groups : Type 0
Groups = Dict (List OutboxRecord)

-- One turn of the `for job_id in list(by_job)` loop, on `by_job[job_id]`; `next` is the rest of the
-- loop. A key of the snapshot is in `by_job` when its turn comes, so the first case, a `KeyError`,
-- is not met.
abbrev pub take_turn :
    ℕ
    → (Groups → List OutboxRecord → Groups × List OutboxRecord)
    → String
    → Groups
    → List OutboxRecord
    → Option (List OutboxRecord)
    → Groups × List OutboxRecord
unfolding put pop
take_turn limit next job_id by_job selected none = (by_job, selected)
take_turn limit next job_id by_job selected (some []) = next (pop by_job job_id) selected
take_turn limit next job_id by_job selected (some (row ∷ job_rows)) =
    let selected' : List OutboxRecord = selected ++ (row ∷ []) in
    let left : Groups = put by_job job_id job_rows in
    if leb limit (length selected')
    then (left, selected')
    else if is_empty job_rows
    then next (pop left job_id) selected'
    else next left selected'

pub round : ℕ → List String → Groups → List OutboxRecord → Groups × List OutboxRecord
unfolding get put pop
round limit [] by_job selected = (by_job, selected)
round limit (job_id ∷ rest) by_job selected =
    take_turn limit (round limit rest) job_id by_job selected (get by_job job_id)

-- The `while len(selected) < limit and by_job` loop, on fuel.
pub rounds : ℕ → ℕ → Groups → List OutboxRecord → Groups × List OutboxRecord
unfolding round keys
rounds zero limit by_job selected = (by_job, selected)
rounds (suc fuel) limit by_job selected =
    let next : Groups × List OutboxRecord = round limit (keys by_job) by_job selected in
    let rest : Groups × List OutboxRecord = rounds fuel limit next.0 next.1 in
    if ltb (length selected) limit && not (is_empty by_job) then rest else (by_job, selected)

-- How many rows the groups hold.
abbrev pub total : Groups → ℕ
total [] = 0
total ((k, rows) ∷ d) = length rows + total d

-- Each round takes a row or removes a key.
abbrev pub round_fuel : Groups → ℕ
round_fuel by_job = suc (total by_job + length by_job)

unfoldable pub list_outbox_records_fair : Option PublishState → ℕ → World → List OutboxRecord
unfolding rounds list_outbox_records group_by_job
list_outbox_records_fair publish_state limit w =
    let rows : List OutboxRecord = list_outbox_records publish_state (length w.outbox) w in
    let by_job : Groups = group_by_job rows [] in (rounds (round_fuel by_job) limit by_job []).1
