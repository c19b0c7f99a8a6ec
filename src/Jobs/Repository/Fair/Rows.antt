-- ===== src/Jobs/Repository/Fair/Rows.antt =====
-- How many rows a dict of groups holds, under the writes of the fair rounds.
use dsx_connect.Prelude.{
  ◌+◌, suc, String, ◌≡◌, none, some, List, [], ◌∷◌, ◌++◌, arith, length, length-append, eq_refl,
  inl, inr, Option-cases,
}
use dsx_connect.Prelude.Dict.{get, put, pop, get-put}
use dsx_connect.Jobs.Models.{OutboxRecord}
use dsx_connect.Jobs.Repository.Outbox.{append_row, group_by_job}
use dsx_connect.Jobs.Repository.Fair.{Groups, total}

pub total-put :
    (d : Groups) (k : String) (old rows : List OutboxRecord)
    → get d k ≡ some old
    → total (put d k rows) + length old ≡ total d + length rows
unfolding get put
total-put [] k old rows h = ground arith
total-put ((j, r) ∷ d) k old rows h = grind (arith, total-put d k old rows)

pub total-pop :
    (d : Groups) (k : String) (old : List OutboxRecord)
    → get d k ≡ some old
    → total (pop d k) + length old ≡ total d
unfolding get pop
total-pop [] k old h = ground arith
total-pop ((j, r) ∷ d) k old h = grind (arith, total-pop d k old)

pub length-pop :
    (d : Groups) (k : String) (old : List OutboxRecord)
    → get d k ≡ some old
    → suc (length (pop d k)) ≡ length d
unfolding get pop
length-pop [] k old h = ground arith
length-pop ((j, r) ∷ d) k old h = grind (arith, length-pop d k old)

pub length-put :
    (d : Groups) (k : String) (old rows : List OutboxRecord)
    → get d k ≡ some old
    → length (put d k rows) ≡ length d
unfolding get put
length-put [] k old rows h = ground arith
length-put ((j, r) ∷ d) k old rows h = grind (arith, length-put d k old rows)

pub get-put_self :
    (d : Groups) (k : String) (rows : List OutboxRecord) → get (put d k rows) k ≡ some rows
get-put_self d k rows = simp (get-put, eq_refl)

pub total-put_new :
    (d : Groups) (k : String) (rows : List OutboxRecord)
    → get d k ≡ none
    → total (put d k rows) ≡ total d + length rows
unfolding get put
total-put_new [] k rows h = ground arith
total-put_new ((j, r) ∷ d) k rows h = grind (arith, total-put_new d k rows)

pub total-append_row : (d : Groups) (row : OutboxRecord) → total (append_row d row) ≡ suc (total d)
unfolding get put
total-append_row d row = elim (Option-cases (get d row.job_id)) [
  | inl e ↦ rw (e, total) (omega (arith, total-put_new d row.job_id (row ∷ []) e))
  | inr (old, e) ↦
      rw (e, total)
        (omega
          (arith, total-put d row.job_id old (old ++ (row ∷ [])) e, length-append old (row ∷ [])))
]

-- Grouping keeps every row.
pub total-group_by_job :
    (rows : List OutboxRecord) (d : Groups) → total (group_by_job rows d) ≡ length rows + total d
unfolding group_by_job
total-group_by_job [] d = omega arith
total-group_by_job (row ∷ rows) d =
    omega (arith, total-group_by_job rows (append_row d row), total-append_row d row)
