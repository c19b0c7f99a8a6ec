-- ===== src/Jobs/Repository/Fair/Length.antt =====
-- How many rows the fair selection takes.
use dsx_connect.Prelude.{
  ℕ, ◌+◌, ◌≤◌, ◌<◌, zero, suc, min, String, ◌≡◌, refl, Option, none, some, List, [], ◌∷◌, ◌++◌,
  arith, true, false, length, length-append, inl, inr, Bool-cases, eq_refl, count, filter,
  length-take, length-filter, count-le-length, leb, ltb, is_empty, not, ◌&&◌,
}
use dsx_connect.Prelude.Dict.{get, put, pop, keys, values, length-values}
use dsx_connect.Prelude.Sort.{sort_by, ascending, length-sort_by}
use dsx_connect.Jobs.Models.{PublishState, OutboxRecord}
use dsx_connect.Jobs.World.{World}
use dsx_connect.Jobs.Repository.Outbox.{list_outbox_records, has_publish_state, group_by_job}
use dsx_connect.Jobs.Repository.Fair.{
  Groups, total, take_turn, round, rounds, round_fuel, list_outbox_records_fair,
}
use dsx_connect.Jobs.Repository.Fair.Rows.{
  total-put, total-pop, length-put, length-pop, get-put_self, total-group_by_job,
}

-- What a round keeps: the rows held and taken together, the limit, and a measure that never grows.
pub record Kept (limit : ℕ) (d : Groups) (s : List OutboxRecord) (r : Groups × List OutboxRecord)
    : Type 0 where
  pub rows : total r.0 + length r.1 ≡ total d + length s
  pub limited : length r.1 ≤ limit
  pub shrinks : total r.0 + length r.0 ≤ total d + length d

-- A step that keeps the rows, and removes one or a key, may stand in front of a round.
abbrev Shrunk : ℕ → Groups → List OutboxRecord → Groups × List OutboxRecord → Type 0
Shrunk limit d s r = Kept limit d s r × (total r.0 + length r.0 < total d + length d)

Kept-step :
    {limit : ℕ} {d : Groups} {s : List OutboxRecord} (d' : Groups) (s' : List OutboxRecord)
    {r : Groups × List OutboxRecord}
    → total d' + length s' ≡ total d + length s
    → total d' + length d' < total d + length d
    → Kept limit d' s' r
    → Shrunk limit d s r
Kept-step d' s' p q k =
    (record { rows = omega arith; limited = k.limited; shrinks = omega arith }, omega arith)

length-of-is_empty {ℓ} : {A : Type ℓ} (xs : List A) → is_empty xs ≡ true → length xs ≡ 0
length-of-is_empty [] h = refl
length-of-is_empty (x ∷ xs) h = cc

-- The rows and keys after the first row of a group is taken, and after an emptied group is removed.
module _ (d : Groups) (k : String) (row : OutboxRecord) (rest s : List OutboxRecord)
    (e : get d k ≡ some (row ∷ rest)) where
  take_rows : total (put d k rest) + length (s ++ (row ∷ [])) ≡ total d + length s
  take_rows = omega (arith, length-append s (row ∷ []), total-put d k (row ∷ rest) rest e)

  take_size : total (put d k rest) + length (put d k rest) < total d + length d
  take_size = omega (arith, total-put d k (row ∷ rest) rest e, length-put d k (row ∷ rest) rest e)

  drain_rows :
      is_empty rest ≡ true
      → total (pop (put d k rest) k) + length (s ++ (row ∷ [])) ≡ total d + length s
  drain_rows h = omega (
    arith,
    take_rows,
    length-of-is_empty rest h,
    total-pop (put d k rest) k rest (get-put_self d k rest),
  )

  drain_size : total (pop (put d k rest) k) + length (pop (put d k rest) k) < total d + length d
  drain_size = omega (
    arith,
    take_size,
    total-pop (put d k rest) k rest (get-put_self d k rest),
    length-pop (put d k rest) k rest (get-put_self d k rest),
  )

module _ (limit : ℕ) (next : Groups → List OutboxRecord → Groups × List OutboxRecord)
    (ih : (d : Groups) (s : List OutboxRecord) → length s < limit → Kept limit d s (next d s))
    (k : String) (d : Groups) (s : List OutboxRecord) (h : length s < limit) where
  take_turn-Shrunk :
      (old : List OutboxRecord)
      → get d k ≡ some old
      → Shrunk limit d s (take_turn limit next k d s (some old))
  unfolding put pop
  take_turn-Shrunk [] e =
      Kept-step (pop d k) s (omega (arith, total-pop d k [] e))
        (omega (arith, total-pop d k [] e, length-pop d k [] e)) (ih (pop d k) s h)
  take_turn-Shrunk (row ∷ rest) e =
      let s' : List OutboxRecord = s ++ (row ∷ []) in
      let one : length s' ≡ length s + 1 = length-append s (row ∷ []) in
      elim (Bool-cases (leb limit (length s'))) [
        | inl full ↦ rw full (
          record {
            rows = take_rows d k row rest s e;
            limited = omega arith;
            shrinks = omega (arith, take_size d k row rest s e);
          },
          take_size d k row rest s e,
        )
        | inr room ↦ rw room (elim (Bool-cases (is_empty rest)) [
          | inl drained ↦ rw drained (
              Kept-step (pop (put d k rest) k) s' (drain_rows d k row rest s e drained)
                (drain_size d k row rest s e) (ih (pop (put d k rest) k) s' (ground arith)))
          | inr more ↦ rw more (
              Kept-step (put d k rest) s' (take_rows d k row rest s e) (take_size d k row rest s e)
                (ih (put d k rest) s' (ground arith)))
        ])
      ]

  take_turn-Kept :
      (old : Option (List OutboxRecord))
      → get d k ≡ old
      → Kept limit d s (take_turn limit next k d s old)
  unfolding put pop
  take_turn-Kept none e = record { rows = refl; limited = omega arith; shrinks = omega arith }
  take_turn-Kept (some old) e = (take_turn-Shrunk old e).0

round-Kept :
    (limit : ℕ) (ids : List String) (d : Groups) (s : List OutboxRecord)
    → length s < limit
    → Kept limit d s (round limit ids d s)
unfolding round
round-Kept limit [] d s h = record { rows = refl; limited = omega arith; shrinks = omega arith }
round-Kept limit (k ∷ ids) d s h =
    take_turn-Kept limit (round limit ids) (round-Kept limit ids) k d s h (get d k) refl

-- A round over the keys of a dict that is not empty makes progress.
round-Shrunk :
    (limit : ℕ) (d : Groups) (s : List OutboxRecord)
    → length s < limit
    → is_empty d ≡ false
    → Shrunk limit d s (round limit (keys d) d s)
unfolding round keys get
round-Shrunk limit [] s h n = cc
round-Shrunk limit ((k, rows) ∷ d) s h n =
    let first : get ((k, rows) ∷ d) k ≡ some rows = rw eq_refl in
    rw first (
      take_turn-Shrunk limit (round limit (keys d)) (round-Kept limit (keys d)) k ((k, rows) ∷ d) s
        h rows first)

total-of-is_empty : (d : Groups) → is_empty d ≡ true → total d ≡ 0
total-of-is_empty [] h = refl
total-of-is_empty (x ∷ d) h = cc

-- With fuel above the rows and keys, the loop stops at the limit or with nothing left.
length-rounds :
    (fuel limit : ℕ) (d : Groups) (s : List OutboxRecord)
    → total d + length d < fuel
    → length s ≤ limit
    → length (rounds fuel limit d s).1 ≡ min limit (total d + length s)
unfolding rounds
length-rounds zero limit d s f h = absurd (omega arith)
length-rounds (suc fuel) limit d s f h =
    let r : Groups × List OutboxRecord = round limit (keys d) d s in
    elim (Bool-cases (ltb (length s) limit && not (is_empty d))) [
      | inl go ↦
          let k : Shrunk limit d s r = round-Shrunk limit d s (ground arith) (ground arith) in
          rw go (omega (arith, k, length-rounds fuel limit r.0 r.1 (omega (arith, k)) k.0.limited))
      | inr stop ↦ rw stop (ground (arith, total-of-is_empty d))
    ]

length-listed :
    (publish_state : Option PublishState) (w : World)
    → length (list_outbox_records publish_state (length w.outbox) w)
      ≡ count (has_publish_state publish_state) (values w.outbox)
unfolding list_outbox_records
length-listed p w =
    let rows : List OutboxRecord = filter (has_publish_state p) (values w.outbox) in
    omega (
      arith,
      length-take (length w.outbox) (sort_by (ascending (λ row. row.created_at)) rows),
      length-sort_by (ascending (λ row. row.created_at)) rows,
      length-filter (has_publish_state p) (values w.outbox),
      count-le-length (has_publish_state p) (values w.outbox),
      length-values w.outbox,
    )

-- The fair selection takes as many rows as there are in the wanted state, up to the limit: no
-- place is left unused, and the fuel of the rounds is enough.
pub length-list_outbox_records_fair :
    (publish_state : Option PublishState) (limit : ℕ) (w : World)
    → length (list_outbox_records_fair publish_state limit w)
      ≡ min limit (count (has_publish_state publish_state) (values w.outbox))
unfolding list_outbox_records_fair
length-list_outbox_records_fair p limit w =
    let rows : List OutboxRecord = list_outbox_records p (length w.outbox) w in
    let d : Groups = group_by_job rows [] in
    omega (
      arith,
      length-rounds (round_fuel d) limit d [] (omega arith) (omega arith),
      total-group_by_job rows [],
      length-listed p w,
    )
