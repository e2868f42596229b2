-- ===== src/Bench/Race/Ends.antt =====
-- How long a claimer goes on.
use jobqueue.Common.{
  ◌==◌, if◌then◌else◌, Bool-cases, All, All-map, Text, ℕ, zero, suc, ◌+◌, ◌*◌, ◌≤◌, ◌<◌, ◌≡◌, refl,
  ap, ◌∙◌, ◌≢◌, ◌⊎◌, inl, inr, Bool, true, false, Option, none, some, List, [], ◌∷◌, map, arith,
}
use jobqueue.Store.{Db, Clock}
use jobqueue.Store.Rows.{Descending}
use jobqueue.Api.{ServerConfig, Message}
use jobqueue.Bench.Http.{BenchError}
use jobqueue.Bench.Claimer.{
  claimer, is_active, looked, advance, all_claims, all_claims_fresh, Phase, Claimer, claiming,
  confirming, returned, broken,
}
use jobqueue.Bench.Race.{request_claim, turn_at, race, count_pending, Turn}
use jobqueue.Bench.Race.Turns.{Answered, request_claim-Answered, IsFit}
use jobqueue.Bench.Race.Verdict.{IsWhole, IsSane, turn_at-IsRace, race-IsRace, IsRace}
use jobqueue.Bench.Tally.{ClaimRecord}

-- The phase of the claimer at a place; there is no one to wait for at a place that is out of range.
abbrev pub phase_at : ℕ → List Claimer → Phase
phase_at i [] = returned
phase_at zero (cl ∷ cls) = cl.phase
phase_at (suc i) (cl ∷ cls) = phase_at i cls

abbrev pub turns_of : ℕ → List Turn → ℕ
turns_of i [] = 0
turns_of i (t ∷ ts) = (if t.who == i then 1 else 0) + turns_of i ts

-- The empty answers that a claimer still waits for.
abbrev looks_left : Phase → ℕ
looks_left claiming = 2
looks_left confirming = 1
looks_left returned = 0
looks_left (broken e) = 0

-- A bound on the requests that a claimer still makes.
abbrev requests_left : Phase → Db → ℕ
requests_left p db = looks_left p + 2 * count_pending db.jobs

-- One request of a claimer brings it nearer to its end.
abbrev Nearer : Phase → Db → Phase → Db → Type 0
Nearer p db p' db' = suc (requests_left p' db') ≤ requests_left p db

advance-Nearer :
    (db : Db) (cl : Claimer) (r : (BenchError ⊎ Option ℕ) × Db)
    → is_active cl.phase ≡ true
    → Answered db r
    → Nearer cl.phase db (advance r.0 cl).phase r.1
      × (count_pending r.1.jobs ≤ count_pending db.jobs)
unfolding advance
advance-Nearer db cl (inl e, db') active a = absurd a
advance-Nearer db cl (inr none, db') active a =
    let same : count_pending db'.jobs ≡ count_pending db.jobs = ap (λ d. count_pending d.jobs) a in
    (go cl.phase active same, omega (arith, same))
  where
    go :
        (p : Phase)
        → is_active p ≡ true
        → count_pending db'.jobs ≡ count_pending db.jobs
        → Nearer p db (looked p) db'
    go claiming y e = omega (arith, e)
    go confirming y e = omega (arith, e)
    go returned y e = absurd (cc y)
    go (broken x) y e = absurd (cc y)
advance-Nearer db cl (inr (some i), db') active took =
    (go cl.phase active took.one_less, omega (arith, took.one_less))
  where
    go :
        (p : Phase)
        → is_active p ≡ true
        → count_pending db.jobs ≡ suc (count_pending db'.jobs)
        → Nearer p db claiming db'
    go claiming y e = omega (arith, e)
    go confirming y e = omega (arith, e)
    go returned y e = absurd (cc y)
    go (broken x) y e = absurd (cc y)

-- What a turn of the claimer at j means to the claimer at i.
abbrev Progress : ℕ → ℕ → List Claimer → Db → List Claimer × Db → Type 0
Progress i j cls db (cls', db') =
    (count_pending db'.jobs ≤ count_pending db.jobs)
    × (is_active (phase_at i cls) ≡ false → phase_at i cls' ≡ phase_at i cls)
    × (i ≢ j → phase_at i cls' ≡ phase_at i cls)
    × (i ≡ j → is_active (phase_at i cls) ≡ true → Nearer (phase_at i cls) db (phase_at i cls') db')

idle-Progress :
    (i : ℕ) (cl : Claimer) (cls : List Claimer) (db : Db)
    → is_active cl.phase ≡ false
    → Progress i 0 (cl ∷ cls) db (cl ∷ cls, db)
idle-Progress zero cl cls db n = (omega arith, (λ _. refl), (λ _. refl), λ _ y. absurd (cc (y, n)))
idle-Progress (suc i) cl cls db n =
    (omega arith, (λ _. refl), (λ _. refl), λ e. absurd (omega (arith, e)))

busy-Progress :
    (i : ℕ) (cl cl' : Claimer) (cls : List Claimer) (db db' : Db)
    → is_active cl.phase ≡ true
    → Nearer cl.phase db cl'.phase db'
    → count_pending db'.jobs ≤ count_pending db.jobs
    → Progress i 0 (cl ∷ cls) db (cl' ∷ cls, db')
busy-Progress zero cl cl' cls db db' y near less =
    (less, (λ n. absurd (cc (y, n))), (λ ne. absurd (ne refl)), λ _ _. near)
busy-Progress (suc i) cl cl' cls db db' y near less =
    (less, (λ _. refl), (λ _. refl), λ e. absurd (omega (arith, e)))

module _ (cfg : ServerConfig) (render : Message → Text) where
  turn_at-Progress :
      (c : Clock) (locked : ℕ → Bool) (i j : ℕ) (cls : List Claimer) (db : Db)
      → Descending db.next_id db.jobs
      → All (IsSane db) cls
      → Progress i j cls db (turn_at cfg render c locked j cls db)
  unfolding turn_at
  turn_at-Progress c locked i j [] db d h =
      (omega arith, (λ _. refl), (λ _. refl), λ _ y. absurd (cc y))
  turn_at-Progress c locked i zero (cl ∷ cls) db d h = elim (Bool-cases (is_active cl.phase)) [
    | inl y ↦
        let r = request_claim cfg render c locked cl.worker db in
        let answered = request_claim-Answered cfg render c locked cl.worker db d h.0.0 in
        let (near, less) = advance-Nearer db cl r y answered in
        rw y (busy-Progress i cl (advance r.0 cl) cls db r.1 y near less)
    | inr n ↦ rw n (idle-Progress i cl cls db n)
  ]
  turn_at-Progress c locked zero (suc j) (cl ∷ cls) db d h =
      let (less, _, _, _) = turn_at-Progress c locked zero j cls db d h.1 in
      (less, (λ _. refl), (λ _. refl), λ e. absurd (omega (arith, e)))
  turn_at-Progress c locked (suc i) (suc j) (cl ∷ cls) db d h =
      let (less, stays, other, own) = turn_at-Progress c locked i j cls db d h.1 in
      (less, stays, (λ ne. other (λ e. ne (ap suc e))), λ e. own (omega (arith, e)))

  turned-Progress :
      (n : ℕ) (earlier : List ClaimRecord) (i : ℕ) (t : Turn) (cls : List Claimer) (db : Db)
      → IsRace n earlier cls db
      → Progress i t.who cls db (turn_at cfg render t.clock t.locked t.who cls db)
  turned-Progress n earlier i t cls db h =
      turn_at-Progress t.clock t.locked i t.who cls db h.keys h.sane

  -- A claimer that is done stays done.
  race_stays :
      (n : ℕ) (earlier : List ClaimRecord) (i : ℕ) (ts : List Turn) (cls : List Claimer) (db : Db)
      → IsRace n earlier cls db
      → is_active (phase_at i cls) ≡ false
      → is_active (phase_at i (race cfg render ts (cls, db)).0) ≡ false
  unfolding race
  race_stays n earlier i [] cls db h done = done
  race_stays n earlier i (t ∷ ts) cls db h done =
      let r = turn_at cfg render t.clock t.locked t.who cls db in
      let (_, stays, _, _) = turned-Progress n earlier i t cls db h in
      race_stays n earlier i ts r.0 r.1 (turn_at-IsRace cfg render n earlier t cls db h)
        (ap is_active (stays done) ∙ done)

  abbrev Runs : ℕ → List Turn → List Claimer → Db → Type 0
  Runs i ts cls db =
      let r = race cfg render ts (cls, db) in
      (is_active (phase_at i r.0) ≡ false)
      ⊎ (requests_left (phase_at i r.0) r.1 + turns_of i ts ≤ requests_left (phase_at i cls) db)

  race-Runs :
      (n : ℕ) (earlier : List ClaimRecord) (i : ℕ) (ts : List Turn) (cls : List Claimer) (db : Db)
      → IsRace n earlier cls db
      → Runs i ts cls db
  unfolding race
  race-Runs n earlier i [] cls db h = inr (omega arith)
  race-Runs n earlier i (t ∷ ts) cls db h =
      let r = turn_at cfg render t.clock t.locked t.who cls db in
      let next = turn_at-IsRace cfg render n earlier t cls db h in
      let (less, stays, other, own) = turned-Progress n earlier i t cls db h in
      elim (Bool-cases (is_active (phase_at i cls))) [
        | inr n' ↦ inl (race_stays n earlier i ts r.0 r.1 next (ap is_active (stays n') ∙ n'))
        | inl y ↦ elim (race-Runs n earlier i ts r.0 r.1 next) [
          | inl done ↦ inl done
          | inr k ↦ elim (Bool-cases (t.who == i)) [
            | inl e ↦ let near = own (ground arith) y in rw e (inr (omega (arith, k, near)))
            | inr ne ↦
                let same = ap looks_left (other (λ e. ground arith)) in
                rw ne (inr (omega (arith, k, same, less)))
          ]
        ]
      ]

phase_at-IsWhole :
    (db : Db) (i : ℕ) (cls : List Claimer) → All (IsSane db) cls → IsWhole (phase_at i cls)
phase_at-IsWhole db i [] h = tt
phase_at-IsWhole db zero (cl ∷ cls) h = h.0.1
phase_at-IsWhole db (suc i) (cl ∷ cls) h = phase_at-IsWhole db i cls h.1

active-looks_left : (p : Phase) → is_active p ≡ true → (0 < looks_left p) × (looks_left p ≤ 2)
active-looks_left claiming h = (omega arith, omega arith)
active-looks_left confirming h = (omega arith, omega arith)
active-looks_left returned h = absurd (cc h)
active-looks_left (broken e) h = absurd (cc h)

looks_left_most : (p : Phase) → looks_left p ≤ 2
looks_left_most claiming = omega arith
looks_left_most confirming = omega arith
looks_left_most returned = omega arith
looks_left_most (broken e) = omega arith

whole-returned : (p : Phase) → IsWhole p → is_active p ≡ false → p ≡ returned
whole-returned claiming w h = absurd (cc h)
whole-returned confirming w h = absurd (cc h)
whole-returned returned w h = refl
whole-returned (broken e) w h = absurd w

fresh-IsRace :
    (ws : List Text) (db : Db)
    → Descending db.next_id db.jobs
    → All (IsFit db.workers) ws
    → IsRace (count_pending db.jobs) [] (map claimer ws) db
unfolding all_claims claimer
fresh-IsRace ws db d fit = record {
  keys = d;
  sane = All-map (IsFit db.workers) (IsSane db) claimer (λ w h. (h, tt)) ws fit;
  once = λ k. rw (all_claims_fresh ws) (omega arith);
  total = rw (all_claims_fresh ws) (omega arith);
}

module _ (cfg : ServerConfig) (render : Message → Text) where
  -- Every claimer of a race comes to its end: with registered claimers, one that has made two requests for
  -- each job that was PENDING and two more has returned, without an error, whatever the others do in
  -- between, at whatever times and whatever rows other transactions lock.
  pub race_lem :
      (i : ℕ) (ts : List Turn) (ws : List Text) (db : Db)
      → Descending db.next_id db.jobs
      → All (IsFit db.workers) ws
      → 2 * count_pending db.jobs + 2 ≤ turns_of i ts
      → phase_at i (race cfg render ts (map claimer ws, db)).0 ≡ returned
  race_lem i ts ws db d fit many =
      let cls = map claimer ws in
      let n = count_pending db.jobs in
      let start = fresh-IsRace ws db d fit in
      let r = race cfg render ts (cls, db) in
      let end = race-IsRace cfg render n [] ts cls db start in
      let whole = phase_at-IsWhole r.1 i r.0 end.sane in
      elim (race-Runs cfg render n [] i ts cls db start) [
        | inl done ↦ whole-returned (phase_at i r.0) whole done
        | inr k ↦ elim (Bool-cases (is_active (phase_at i r.0))) [
          | inl y ↦ absurd (
              omega (
                arith,
                k,
                many,
                active-looks_left (phase_at i r.0) y,
                looks_left_most (phase_at i cls),
              ))
          | inr done ↦ whole-returned (phase_at i r.0) whole done
        ]
      ]
