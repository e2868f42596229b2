-- ===== src/Bench/Race/Verdict.antt =====
-- What the claimers of a race hold together.
use jobqueue.Common.{
  ◌==◌, if◌then◌else◌, Bool-cases, Option-cases, length, All, length-append, append_assoc, Text, ℕ,
  zero, suc, ◌+◌, ◌≤◌, ◌≡◌, refl, sym, ap, subst, ◌⊎◌, inl, inr, Bool, Option, none, some, List, [],
  ◌∷◌, ◌++◌, arith,
}
use jobqueue.Store.{find, has_id, Db, Clock}
use jobqueue.Store.Rows.{All-mono, Descending}
use jobqueue.Bench.Http.{BenchError}
use jobqueue.Bench.Tally.{count_id, count_id-append, ClaimRecord}
use jobqueue.Bench.Claimer.{
  is_active, looked, claim_of, advance, all_claims, Phase, Claimer, claiming, confirming, returned,
  broken,
}
use jobqueue.Bench.Race.Turns.{Answered, request_claim-Answered, IsFit, Took}
use jobqueue.Api.{ServerConfig, Message}
use jobqueue.Bench.Race.{request_claim, turn_at, race, count_pending, running_at, Turn}

abbrev pub IsWhole : Phase → Type 0
IsWhole (broken e) = ⊥
IsWhole _ = Unit {0}

-- A claimer that the server knows and that met no error.
abbrev pub IsSane : Db → Claimer → Type 0
IsSane db cl = IsFit db.workers cl.worker × IsWhole cl.phase

-- A turn changes nothing, or hands one PENDING job to one claimer.
abbrev Effect : List Claimer → Db → List Claimer × Db → Type 0
Effect cls db (cls', db') =
    ((db' ≡ db) × (all_claims cls' ≡ all_claims cls))
    ⊎ ((i : ℕ) × Took db db' i
        × ((k : ℕ)
            → count_id k (all_claims cls')
              ≡ (if i == k then 1 else 0) + count_id k (all_claims cls))
        × (length (all_claims cls') ≡ suc (length (all_claims cls))))

abbrev Turned : List Claimer → Db → List Claimer × Db → Type 0
Turned cls db (cls', db') = Effect cls db (cls', db') × All (IsSane db') cls'

Took-IsSane :
    (db db' : Db) (i : ℕ)
    → Took db db' i
    → (cls : List Claimer) → All (IsSane db) cls
    → All (IsSane db') cls
Took-IsSane db db' i took =
    All-mono (IsSane db) (IsSane db') (λ cl h. (took.fleet cl.worker h.0, h.1))

looked-IsWhole : (p : Phase) → IsWhole p → IsWhole (looked p)
looked-IsWhole claiming h = tt
looked-IsWhole confirming h = tt
looked-IsWhole returned h = tt
looked-IsWhole (broken e) h = h

-- The claimer in front, with the answer to its request.
advance-Turned :
    (db : Db) (cl : Claimer) (cls : List Claimer) (r : (BenchError ⊎ Option ℕ) × Db)
    → All (IsSane db) (cl ∷ cls)
    → Answered db r
    → Turned (cl ∷ cls) db (advance r.0 cl ∷ cls, r.1)
unfolding advance all_claims
advance-Turned db cl cls (inl e, db') h a = absurd a
advance-Turned db cl cls (inr none, db') h a = (
  inl (a, refl),
  subst (λ d. All (IsSane d) (advance (inr none) cl ∷ cls)) (sym a)
      ((h.0.0, looked-IsWhole cl.phase h.0.1), h.1),
)
advance-Turned db cl cls (inr (some i), db') h took =
    let one = claim_of cl.worker i ∷ [] in
    let more : all_claims (advance (inr (some i)) cl ∷ cls) ≡ cl.out ++ (one ++ all_claims cls) =
      append_assoc cl.out one (all_claims cls) in
    (
      inr (
        i,
        took,
        (λ k. omega (
          arith,
          ap (count_id k) more,
          count_id-append k cl.out (one ++ all_claims cls),
          count_id-append k cl.out (all_claims cls),
        )),
        omega (
          arith,
          ap length more,
          length-append cl.out (one ++ all_claims cls),
          length-append cl.out (all_claims cls),
        ),
      ),
      ((took.fleet cl.worker h.0.0, tt), Took-IsSane db db' i took cls h.1),
    )

-- What the claimers behind do is what all do, and the claimer in front stays what it was.
behind-Turned :
    (db : Db) (cl : Claimer) (cls : List Claimer) (r : List Claimer × Db)
    → IsSane db cl
    → Turned cls db r
    → Turned (cl ∷ cls) db (cl ∷ r.0, r.1)
unfolding all_claims
behind-Turned db cl cls (cls', db') sane (inl (same, claims), h) =
    (inl (same, ap (λ rs. cl.out ++ rs) claims), (subst (λ d. IsSane d cl) (sym same) sane, h))
behind-Turned db cl cls (cls', db') sane (inr (i, took, counts, size), h) = (
  inr (
    i,
    took,
    (λ k. omega (
      arith,
      counts k,
      count_id-append k cl.out (all_claims cls'),
      count_id-append k cl.out (all_claims cls),
    )),
    omega (
      arith,
      size,
      length-append cl.out (all_claims cls'),
      length-append cl.out (all_claims cls),
    ),
  ),
  ((took.fleet cl.worker sane.0, sane.1), h),
)

-- With the records of earlier races: a job that runs was handed out at most once, any other never;
-- with the PENDING jobs that are left, the claims make up `n`.
pub record IsRace (n : ℕ) (earlier : List ClaimRecord) (cls : List Claimer) (db : Db) : Type 0 where
  pub keys : Descending db.next_id db.jobs
  pub sane : All (IsSane db) cls
  pub once : (k : ℕ) → count_id k earlier + count_id k (all_claims cls) ≤ running_at k db
  pub total : length earlier + length (all_claims cls) + count_pending db.jobs ≡ n

Turned-IsRace :
    (n : ℕ) (earlier : List ClaimRecord) (cls : List Claimer) (db : Db) (r : List Claimer × Db)
    → IsRace n earlier cls db
    → Turned cls db r
    → IsRace n earlier r.0 r.1
Turned-IsRace n earlier cls db (cls', db') before (inl (same, claims), h) = record {
  keys = rw same before.keys;
  sane = h;
  once = λ k. omega (arith, before.once k, ap (count_id k) claims, ap (running_at k) same);
  total = omega (arith, before.total, ap length claims, ap (λ d. count_pending d.jobs) same);
}
Turned-IsRace n earlier cls db (cls', db') before (inr (i, took, counts, size), h) = record {
  keys = took.keys;
  sane = h;
  once = λ k. elim (Bool-cases (i == k)) [
    | inl y ↦
        let same : i ≡ k = ground arith in
        let now : running_at k db' ≡ 1 = subst (λ j. running_at j db' ≡ 1) same took.after in
        let was : running_at k db ≡ 0 = subst (λ j. running_at j db ≡ 0) same took.before in
        ground (arith, counts k, before.once k, now, was)
    | inr m ↦ ground (arith, counts k, before.once k, took.others k (λ e. ground arith))
  ];
  total = omega (arith, before.total, size, took.one_less);
}

module _ (cfg : ServerConfig) (render : Message → Text) where
  turn_at-Turned :
      (c : Clock) (locked : ℕ → Bool) (i : ℕ) (cls : List Claimer) (db : Db)
      → Descending db.next_id db.jobs
      → All (IsSane db) cls
      → Turned cls db (turn_at cfg render c locked i cls db)
  unfolding turn_at
  turn_at-Turned c locked i [] db d h = (inl (refl, refl), tt)
  turn_at-Turned c locked zero (cl ∷ cls) db d h = elim (Bool-cases (is_active cl.phase)) [
    | inl y ↦
        let r = request_claim cfg render c locked cl.worker db in
        rw y (
          advance-Turned db cl cls r h
            (request_claim-Answered cfg render c locked cl.worker db d h.0.0))
    | inr n ↦ rw n (inl (refl, refl), h)
  ]
  turn_at-Turned c locked (suc i) (cl ∷ cls) db d h =
      behind-Turned db cl cls (turn_at cfg render c locked i cls db) h.0
        (turn_at-Turned c locked i cls db d h.1)

  pub turn_at-IsRace :
      (n : ℕ) (earlier : List ClaimRecord) (t : Turn) (cls : List Claimer) (db : Db)
      → IsRace n earlier cls db
      → let r = turn_at cfg render t.clock t.locked t.who cls db in IsRace n earlier r.0 r.1
  turn_at-IsRace n earlier t cls db before =
      Turned-IsRace n earlier cls db (turn_at cfg render t.clock t.locked t.who cls db) before
        (turn_at-Turned t.clock t.locked t.who cls db before.keys before.sane)

  pub race-IsRace :
      (n : ℕ) (earlier : List ClaimRecord) (ts : List Turn) (cls : List Claimer) (db : Db)
      → IsRace n earlier cls db
      → let r = race cfg render ts (cls, db) in IsRace n earlier r.0 r.1
  unfolding race
  race-IsRace n earlier [] cls db h = h
  race-IsRace n earlier (t ∷ ts) cls db h =
      let r = turn_at cfg render t.clock t.locked t.who cls db in
      race-IsRace n earlier ts r.0 r.1 (turn_at-IsRace n earlier t cls db h)

pub running_at_most : (k : ℕ) (db : Db) → running_at k db ≤ 1
unfolding running_at
running_at_most k db = elim (Option-cases (find (has_id k) db.jobs)) [
  | inl e ↦ rw e (omega arith)
  | inr (j, e) ↦ rw e (ground arith)
]
