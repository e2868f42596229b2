-- ===== src/Bench/Run/Exactly.antt =====
-- What the benchmark's run of claims counts.
use jobqueue.Common.{
  ◌==◌, Bool-cases, length, All, length-append, pos, Text, trim_space, ℕ, suc, ◌+◌, ◌≤◌, ◌≡◌, refl,
  ap, subst, ◌≢◌, ◌⊎◌, inl, inr, none, List, [], ◌∷◌, ◌++◌, map, arith,
}
use jobqueue.Jobs.{type_shell, max_payload_bytes}
use jobqueue.Store.{find, has_id, Db, Clock}
use jobqueue.Store.Reads.{new_job}
use jobqueue.Api.{ServerConfig, Message}
use jobqueue.Api.Requests.{decode}
use jobqueue.Api.Jobs.{job_reply, handle_create_job, CreateRequest}
use jobqueue.Api.Jobs.Creation.{create_outcome}
use jobqueue.Bench.Http.{do_call, arrives, BenchError}
use jobqueue.Bench.Tally.{count_claims, count_id-append, count_claims_once, ClaimRecord}
use jobqueue.Bench.Claimer.{
  claimer, all_claims, all_claims_fresh, Phase, Claimer, claiming, confirming, returned, broken,
}
use jobqueue.Bench.Race.{race, count_pending, running_row, running_at, below_find}
use jobqueue.Bench.Race.Verdict.{IsWhole, IsSane, race-IsRace, running_at_most, IsRace}
use jobqueue.Bench.Run.Joined.{IsName, Joined, register_claimers-Joined, IsJoined}
use jobqueue.Bench.Run.{
  seed_body, error_of_answer, broken_by, and_then, settle, seed_backlog, register_claimers,
  race_claimers, run_levels, Level,
}
use jobqueue.Store.Rows.{Descending}

-- A payload that the server accepts.
abbrev pub IsPayload : Text → Type 0
IsPayload payload = (trim_space payload ≢ []) × (length payload ≤ max_payload_bytes)

seeded : Clock → Text → Db → Db
seeded c payload db = record db {
  jobs = new_job c db.next_id type_shell payload 1 ∷ db.jobs;
  next_id = suc db.next_id;
}

-- A job more.
seeded-IsRace :
    (n : ℕ) (earlier : List ClaimRecord) (c : Clock) (payload : Text) (db : Db)
    → IsRace n earlier [] db
    → IsRace (suc n) earlier [] (seeded c payload db)
unfolding seeded running_at new_job find all_claims
seeded-IsRace n earlier c payload db h = record {
  keys = (omega arith, h.keys);
  sane = tt;
  once = λ k. elim (Bool-cases (db.next_id == k)) [
    | inl y ↦
        let none_yet = below_find db.next_id k db.jobs h.keys (ground arith) in
        rw y (omega (arith, h.once k, ap running_row none_yet))
    | inr m ↦ rw m (h.once k)
  ];
  total = omega (arith, h.total);
}

module _ (cfg : ServerConfig) (render : Message → Text) (payload : Text)
    (fine : IsPayload payload) where
  seed_one :
      (c : Clock) (db : Db)
      → handle_create_job c (seed_body payload) db
        ≡ (job_reply 201 (new_job c db.next_id type_shell payload 1), seeded c payload db)
  unfolding seeded seed_body trim_space decode
  seed_one c db =
      let req : CreateRequest = record {
        type = type_shell;
        payload = payload;
        max_attempts = pos 1;
      } in
      (create_outcome c (seed_body payload) req db refl).0
        (refl, fine.0, fine.1, omega arith, omega arith)

  seed_backlog-IsRace :
      (n : ℕ) (earlier : List ClaimRecord) (cs : List Clock) (db : Db)
      → IsRace n earlier [] db
      → let r = seed_backlog cfg render payload cs db in
        (r.0 ≡ none) × IsRace (n + length cs) earlier [] r.1
  unfolding seed_backlog error_of_answer arrives do_call
  seed_backlog-IsRace n earlier [] db h =
      (refl, subst (λ m. IsRace m earlier [] db) (omega arith) h)
  seed_backlog-IsRace n earlier (c ∷ cs) db h =
      let (good, more) =
        seed_backlog-IsRace (suc n) earlier cs (seeded c payload db)
          (seeded-IsRace n earlier c payload db h) in
      let size : suc n + length cs ≡ n + suc (length cs) = omega arith in
      rw (seed_one c db, seed_backlog)
        (
          good,
          subst
              (λ m.
                IsRace m earlier [] (seed_backlog cfg render payload cs (seeded c payload db)).1)
              size more,
        )

broken_by_sane : (db : Db) (cls : List Claimer) → All (IsSane db) cls → broken_by cls ≡ none
unfolding broken_by
broken_by_sane db [] h = refl
broken_by_sane db (cl ∷ cls) h = go cl.phase h.0.1 (broken_by_sane db cls h.1)
  where
    go :
        (p : Phase)
        → IsWhole p
        → broken_by cls ≡ none
        → broken_by (record cl { phase = p } ∷ cls) ≡ none
    go claiming s e = e
    go confirming s e = e
    go returned s e = e
    go (broken x) s e = absurd s

-- The claims of a race that is over join those of the races before.
closed-IsRace :
    (n : ℕ) (earlier : List ClaimRecord) (cls : List Claimer) (db : Db)
    → IsRace n earlier cls db
    → IsRace n (earlier ++ all_claims cls) [] db
closed-IsRace n earlier cls db h = record {
  keys = h.keys;
  sane = tt;
  once =
      λ k. unfold all_claims in omega (arith, h.once k, count_id-append k earlier (all_claims cls));
  total = unfold all_claims in omega (arith, h.total, length-append earlier (all_claims cls));
}

-- The claimers that are registered open a race.
opened-IsRace :
    (n : ℕ) (earlier : List ClaimRecord) (ws : List Text) (db db' : Db)
    → IsRace n earlier [] db
    → IsJoined db db'
    → All (IsSane db') (map claimer ws)
    → IsRace n earlier (map claimer ws) db'
unfolding all_claims running_at
opened-IsRace n earlier ws db db' h j sane = record {
  keys = rw (j.jobs, j.next) h.keys;
  sane = sane;
  once = λ k.
      rw (all_claims_fresh ws)
        (omega (arith, h.once k, ap (λ js. running_row (find (has_id k) js)) j.jobs));
  total = rw (all_claims_fresh ws) (omega (arith, h.total, ap count_pending j.jobs));
}

abbrev pub total_seeds : List Level → ℕ
total_seeds [] = 0
total_seeds (level ∷ levels) = length level.seeds + total_seeds levels

-- A run that went through, and what its records make up.
abbrev Ended : ℕ → (BenchError ⊎ List ClaimRecord) × Db → Type 0
Ended n (answer, db) = (rs : List ClaimRecord) × (answer ≡ inr rs) × IsRace n rs [] db

module _ (cfg : ServerConfig) (render : Message → Text) (payload : Text)
    (fine : IsPayload payload) where
  settled-Ended :
      (n : ℕ) (earlier : List ClaimRecord) (r : List Claimer × Db)
      → IsRace n earlier r.0 r.1
      → (rs : List ClaimRecord) × (settle (broken_by r.0) (all_claims r.0) ≡ inr rs)
        × IsRace n (earlier ++ rs) [] r.1
  settled-Ended n earlier (cls, db) h =
      (all_claims cls, rw (broken_by_sane db cls h.sane) refl, closed-IsRace n earlier cls db h)

  race_claimers-IsRace :
      (n : ℕ) (earlier : List ClaimRecord) (level : Level) (db : Db)
      → All IsName level.names
      → IsRace n earlier [] db
      → let r = race_claimers cfg render payload level db in
        (rs : List ClaimRecord) × (r.0 ≡ inr rs) × IsRace n (earlier ++ rs) [] r.1
  unfolding race_claimers
  race_claimers-IsRace n earlier level db names h =
      go (register_claimers cfg render payload level.start level.names db)
        (register_claimers-Joined cfg render payload level.start level.names db names)
    where
      go :
          (r : (BenchError ⊎ List Claimer) × Db)
          → Joined cfg render payload level.names db r
          → let s = and_then r λ cls db1.
            let (after, db2) = race cfg render level.turns (cls, db1) in
            (settle (broken_by after) (all_claims after), db2) in
            (rs : List ClaimRecord) × (s.0 ≡ inr rs) × IsRace n (earlier ++ rs) [] s.1
      go (inl e, db1) (wrong, j, sane) = absurd (cc wrong)
      go (inr cls, db1) (e, j, sane) =
          let same : map claimer level.names ≡ cls = cc e in
          let open_race = opened-IsRace n earlier level.names db db1 h j sane in
          settled-Ended n earlier (race cfg render level.turns (cls, db1)) (
            race-IsRace cfg render n earlier level.turns cls db1
              (subst (λ c. IsRace n earlier c db1) same open_race))

  next-Ended :
      (n : ℕ) (levels : List Level) (claimed : List ClaimRecord)
      → ((rs : List ClaimRecord) (db : Db)
          → IsRace n rs [] db
          → Ended (n + total_seeds levels) (run_levels cfg render payload levels rs db))
      → (r : (BenchError ⊎ List ClaimRecord) × Db)
      → ((rs : List ClaimRecord) × (r.0 ≡ inr rs) × IsRace n (claimed ++ rs) [] r.1)
      → Ended
          (n + total_seeds levels)
          (and_then r λ records db. run_levels cfg render payload levels (claimed ++ records) db)
  next-Ended n levels claimed goes (inl e, db) (rs, wrong, h) = absurd (cc wrong)
  next-Ended n levels claimed goes (inr rs', db) (rs, same, h) =
      let e : rs ≡ rs' = cc same in
      goes (claimed ++ rs') db (subst (λ s. IsRace n (claimed ++ s) [] db) e h)

  run_levels-Ended :
      (n : ℕ) (levels : List Level) (claimed : List ClaimRecord) (db : Db)
      → All (λ level. All IsName level.names) levels
      → IsRace n claimed [] db
      → Ended (n + total_seeds levels) (run_levels cfg render payload levels claimed db)
  unfolding run_levels
  run_levels-Ended n [] claimed db names h =
      (claimed, refl, subst (λ m. IsRace m claimed [] db) (omega arith) h)
  run_levels-Ended n (level ∷ levels) claimed db names h =
      let seeded_db = seed_backlog cfg render payload level.seeds db in
      let (good, more) = seed_backlog-IsRace cfg render payload fine n claimed level.seeds db h in
      let m = n + length level.seeds in
      let size : m + total_seeds levels ≡ n + total_seeds (level ∷ levels) = omega arith in
      let ended =
        next-Ended m levels claimed (λ rs db' k. run_levels-Ended m levels rs db' names.1 k)
          (race_claimers cfg render payload level seeded_db.1)
          (race_claimers-IsRace m claimed level seeded_db.1 names.0 more) in
      rw good (
        subst
          (λ k. Ended k (
            and_then (race_claimers cfg render payload level seeded_db.1)
              λ records db3. run_levels cfg render payload levels (claimed ++ records) db3))
          size ended)

  -- However the requests of the claimers fall, at whatever times and whatever rows other transactions
  -- lock meanwhile, a run of claims against the server goes through without an error and never
  -- dispatches a job twice: no duplicate is counted, and the jobs in the map of claims and those that
  -- are PENDING at the end make up those that were PENDING before and those seeded. The claimers'
  -- names and the payload have to be such as the server takes.
  pub run_levels_lem :
      (levels : List Level) (db : Db)
      → Descending db.next_id db.jobs
      → All (λ level. All IsName level.names) levels
      → let r = run_levels cfg render payload levels [] db in
        (rs : List ClaimRecord) × (r.0 ≡ inr rs)
        × ((count_claims rs).1 ≡ 0)
        × (length (count_claims rs).0 + count_pending r.1.jobs
            ≡ count_pending db.jobs + total_seeds levels)
  run_levels_lem levels db d names =
      let start : IsRace (count_pending db.jobs) [] [] db = record {
        keys = d;
        sane = tt;
        once = λ k. unfold all_claims in omega arith;
        total = unfold all_claims in omega arith;
      } in
      let (rs, e, h) = run_levels-Ended (count_pending db.jobs) levels [] db names start in
      let r = run_levels cfg render payload levels [] db in
      let (none_twice, unique) =
        count_claims_once rs
          (λ i. unfold all_claims in omega (arith, h.once i, running_at_most i r.1)) in
      (rs, e, none_twice, unfold all_claims in omega (arith, h.total, unique))
