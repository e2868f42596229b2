-- ===== src/Api/Jobs/Creation.antt =====
-- The answer to a request that creates a job.
use jobqueue.Common.{
  Option-cases, length, pos_part, ◌≤ℤ◌, pos, trim_space, suc, ◌≤◌, ◌≡◌, refl, ◌≢◌, inl, inr, [],
  ◌∷◌,
}
use jobqueue.Jobs.{type_shell, max_payload_bytes}
use jobqueue.Jobs.Validate.{validate_new, validate_new_iff}
use jobqueue.Store.{Db, Clock}
use jobqueue.Store.Reads.{new_job, create_in_range}
use jobqueue.Api.Requests.{decode, Decoded}
use jobqueue.Api.Jobs.{
  job_reply, attempts_or_default, create_valid, handle_create_job, CreateRequest,
}

-- What a request must have to be accepted.
abbrev pub Acceptable : CreateRequest → Type 0
Acceptable req =
    (trim_space (trim_space req.type) ≡ type_shell)
    × (trim_space req.payload ≢ [])
    × (length req.payload ≤ max_payload_bytes)
    × (pos 1 ≤ℤ attempts_or_default req.max_attempts)
    × (attempts_or_default req.max_attempts ≤ℤ pos 100)

pub create_outcome :
    (c : Clock) (request : Decoded CreateRequest) (req : CreateRequest) (db : Db)
    → decode request ≡ inr req
    → (Acceptable req
        → handle_create_job c request db ≡ (
          job_reply 201 (
              new_job c db.next_id
                (trim_space req.type)
                req.payload
                (pos_part (attempts_or_default req.max_attempts))),
          record db {
            jobs =
                new_job c db.next_id
                  (trim_space req.type)
                  req.payload
                  (pos_part (attempts_or_default req.max_attempts))
                ∷ db.jobs;
            next_id = suc db.next_id;
          },
        ))
      × (¬ Acceptable req
          → ((handle_create_job c request db).0.status ≡ 400)
            × ((handle_create_job c request db).1 ≡ db))
unfolding handle_create_job create_valid
create_outcome c request req db e =
    let type = trim_space req.type in
    let n = attempts_or_default req.max_attempts in
    (
      λ ok.
          rw (e, handle_create_job)
            (rw ((validate_new_iff type req.payload n).1 ok)
              (rw (create_in_range c type req.payload n db ok.3 ok.4) refl)),
      λ no. elim (Option-cases (validate_new type req.payload n)) [
        | inl v ↦ absurd (no ((validate_new_iff type req.payload n).0 v))
        | inr (x, v) ↦ rw (e, handle_create_job) (rw v (refl, refl))
      ],
    )
