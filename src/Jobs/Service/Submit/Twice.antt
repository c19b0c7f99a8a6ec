-- ===== src/Jobs/Service/Submit/Twice.antt =====
-- A request that is submitted twice with one idempotency key makes one job.
use dsx_connect.Prelude.{
  ℕ, String, ◌≡◌, refl, Bool, true, false, ◌||◌, Option, none, some, [], ◌∷◌, arith, eq_refl,
  is_some,
}
use dsx_connect.Prelude.Value.{Fields}
use dsx_connect.Prelude.Dict.{Dict, get, put, values}
use dsx_connect.Jobs.Models.{JobState, JobRecord, JobCreate, Envelope, OutboxRecord}
use dsx_connect.Jobs.World.{World, Env, is_ok}
use dsx_connect.Jobs.World.Keeps.{Keeps, Leads, Leads-first, keeps_rules}
use dsx_connect.Jobs.Repository.JobTable.{
  same_text, find_key, get_job, get_job_by_idempotency_key, create_job, update_job_state, given_id,
}
use dsx_connect.Jobs.Repository.Outbox.{create_outbox_record}
use dsx_connect.Jobs.Service.Parent.{refresh_parent_job_state}
use dsx_connect.Jobs.Service.Publish.{bus_publish, publish_outbox_record}
use dsx_connect.Jobs.Service.Publish.Frame.{Stable, Untouched, Untouched-Written, publish-Keeps}
use dsx_connect.Jobs.Service.Submit.{
  JobSubmitRequest, new_job, submit_valid, submit_new, submit_job,
  validate_control_plane_references,
}

-- A job with the key is stored.
abbrev pub has_key : String → Dict JobRecord → Bool
has_key key [] = false
has_key key ((j, row) ∷ d) = same_text row.idempotency_key (some key) || has_key key d

has_key-find_key :
    (key : String) (d : Dict JobRecord) → is_some (find_key key (values d)) ≡ has_key key d
unfolding find_key values
has_key-find_key key [] = refl
has_key-find_key key ((j, row) ∷ d) = ground (arith, has_key-find_key key d)

-- Writing a row with the key, or one whose key is the one that stood there, keeps the key.
has_key-put_same :
    (key : String) (d : Dict JobRecord) (j : String) (row current : JobRecord)
    → get d j ≡ some current
    → same_text row.idempotency_key (some key) ≡ same_text current.idempotency_key (some key)
    → has_key key (put d j row) ≡ has_key key d
unfolding get put
has_key-put_same key [] j row current h s = ground arith
has_key-put_same key ((i, r) ∷ d) j row current h s =
    ground (arith, has_key-put_same key d j row current)

has_key-put :
    (key : String) (d : Dict JobRecord) (j : String) (row : JobRecord)
    → same_text row.idempotency_key (some key) ≡ true
    → has_key key (put d j row) ≡ true
unfolding put
has_key-put key [] j row s = ground arith
has_key-put key ((i, r) ∷ d) j row s = ground (arith, has_key-put key d j row s)

abbrev pub HasKey : String → World → Type 0
HasKey key w = has_key key w.jobs ≡ true

update_job_state-HasKey :
    (env : Env) (key j : String) (state : JobState) (error : Option Fields) (t : Option ℕ)
    → Keeps (HasKey key) (update_job_state env j state error t)
unfolding update_job_state
update_job_state-HasKey env key j state error t = record {
  at = λ w h. grind (arith, has_key-put_same);
}

refresh-HasKey : (env : Env) (key j : String) → Keeps (HasKey key) (refresh_parent_job_state env j)
unfolding refresh_parent_job_state get_job update_job_state
refresh-HasKey env key j = record { at = λ w h. grind (arith, has_key-put_same) }

create_job-HasKey :
    (env : Env) (key : String) (p : JobCreate)
    → same_text p.idempotency_key (some key) ≡ true
    → Leads (λ w. Unit) (HasKey key) (create_job env p)
unfolding create_job
create_job-HasKey env key p s = record { at = λ w h. grind (arith, has_key-put) }

stored_key :
    (key : String) (o : Option String) → given_id o ≡ some key → same_text o (some key) ≡ true
stored_key key none h = absurd (ground arith)
stored_key key (some t) h = grind (arith, eq_refl)

-- A repeat finds the job, and returns it.
find_again :
    (env : Env) (key : String) (q : JobSubmitRequest) (w : World)
    → given_id q.idempotency_key ≡ some key
    → HasKey key w
    → (is_ok (submit_job env q w).0 ≡ true) × ((submit_job env q w).1 ≡ w)
unfolding submit_job get_job_by_idempotency_key
find_again env key q w given h = grind (arith, has_key-find_key key w.jobs)

create_outbox-HasKey :
    (env : Env) (key : String) (job : JobRecord) (topic : String) (e : Envelope)
    → Keeps (HasKey key) (create_outbox_record env job topic e)
unfolding create_outbox_record
create_outbox-HasKey env key job topic e = record { at = λ w h. h }

get_job-HasKey : (key j : String) → Keeps (HasKey key) (get_job j)
unfolding get_job
get_job-HasKey key j = record { at = λ w h. h }

-- Publishing loses no job: what the bus does meanwhile is a hypothesis.
module _ (env : Env) (key : String)
    (bus : (e : Envelope) → Keeps (HasKey key) (bus_publish env e)) where
  HasKey-Stable : Stable env (HasKey key)
  HasKey-Stable = record {
    on_items = λ w t items h. h;
    on_job_state = λ j state error t. update_job_state-HasKey env key j state error t;
    on_refresh = λ j. refresh-HasKey env key j;
  }

  HasKey-Untouched : Untouched env (HasKey key)
  HasKey-Untouched = record { on_outbox = λ w t rows h. h; on_publish = bus }

  publish-HasKey :
      (outbox : OutboxRecord) (b : Bool) → Keeps (HasKey key) (publish_outbox_record env outbox b)
  publish-HasKey =
      publish-Keeps env (HasKey key) HasKey-Stable
        (Untouched-Written env (HasKey key) HasKey-Untouched)

  -- What `submit_new` does once the references are validated.
  stored :
      (p : JobSubmitRequest)
      → same_text p.idempotency_key (some key) ≡ true
      → Leads (λ w. Unit) (HasKey key) (submit_valid env p)
  stored p s = search (
    Leads-first,
    keeps_rules,
    create_job-HasKey env key (new_job env p) s,
    create_outbox-HasKey,
    publish-HasKey,
    get_job-HasKey,
  )

  new_stored :
      (p : JobSubmitRequest) (w : World)
      → given_id p.idempotency_key ≡ some key
      → is_ok (submit_new env p w).0 ≡ true
      → HasKey key (submit_new env p w).1
  unfolding submit_new
  new_stored p w given returned = grind (
    arith,
    (stored p (stored_key key p.idempotency_key given)).at
        (validate_control_plane_references env p.integration_id p.scope_id w).1 tt,
  )

  submitted :
      (p : JobSubmitRequest) (w : World)
      → given_id p.idempotency_key ≡ some key
      → is_ok (submit_job env p w).0 ≡ true
      → HasKey key (submit_job env p w).1
  unfolding submit_job get_job_by_idempotency_key
  submitted p w given returned = grind (arith, has_key-find_key key w.jobs, new_stored p w given)

  -- Two submissions with the same idempotency key, not empty, the first of which returned: the second
  -- returns too, and changes nothing at all: it makes no second job and no second message. The bus
  -- is assumed to keep a stored job with the key.
  pub submit_twice :
      (p q : JobSubmitRequest) (w : World)
      → given_id p.idempotency_key ≡ some key
      → given_id q.idempotency_key ≡ some key
      → is_ok (submit_job env p w).0 ≡ true
      → let w' = (submit_job env p w).1 in
        (is_ok (submit_job env q w').0 ≡ true) × ((submit_job env q w').1 ≡ w')
  submit_twice p q w given given' returned =
      find_again env key q (submit_job env p w).1 given' (submitted p w given returned)
