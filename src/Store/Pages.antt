-- ===== src/Store/Pages.antt =====
-- internal/jobs/store.go: the order and the pages of `List`.
use jobqueue.Common.{
  leb, Bool-cases, take, drop, select, All, drop-drop, take_add, ℤ, pos, ◌≤ℤ◌, length, length-take,
  ◌⊎◌, Text, insert_by, sort_by, sort_by-All, ℕ, ◌+◌, ◌≤◌, ◌<◌, ◌≡◌, refl, sym, ap, ◌∙◌, inl, inr,
  Bool, false, List, [], ◌∷◌, ◌++◌, reverse, arith,
}
use jobqueue.Jobs.{Job}
use jobqueue.Store.{Db}
use jobqueue.Store.Rows.{Descending, Descending-mono, Descending-below}
use jobqueue.Store.Reads.{status_matches, list_limit, list_offset, list}
use mathlib.Core.List.{reverse-cons, reverse-reverse}

insert_last :
    (key : Job → ℕ) (j : Job) (js : List Job)
    → All (λ k. key k < key j) js
    → insert_by key j js ≡ js ++ (j ∷ [])
unfolding insert_by
insert_last key j [] h = refl
insert_last key j (k ∷ ks) h =
    let n : leb (key j) (key k) ≡ false = ground (arith, h.0) in
    rw n (ap (◌∷◌ k) (insert_last key j ks h.1))

-- A table with its newest row first is sorted by reversing it.
sort_by-Descending : (n : ℕ) (js : List Job) → Descending n js → sort_by (λ j. j.id) js ≡ reverse js
unfolding sort_by
sort_by-Descending n [] d = refl
sort_by-Descending n (j ∷ js) d =
    let key : Job → ℕ = λ k. k.id in
    let below = sort_by-All (λ k. k.id < j.id) key js (Descending-below j.id js d.1) in
    insert_last key j (sort_by key js) below
    ∙ ap (λ ks. ks ++ (j ∷ [])) (sort_by-Descending j.id js d.1)
    ∙ sym (reverse-cons j js)

select-Descending :
    (p : Job → Bool) (n : ℕ) (js : List Job) → Descending n js → Descending n (select p js)
select-Descending p n [] d = tt
select-Descending p n (j ∷ js) d = elim (Bool-cases (p j)) [
  | inl e ↦ rw e (d.0, select-Descending p j.id js d.1)
  | inr e ↦ rw e (select-Descending p n js (Descending-mono j.id n js (omega (arith, d.0)) d.1))
]

newest_first :
    (status : Text) (db : Db)
    → Descending db.next_id db.jobs
    → let found = select (status_matches status) db.jobs in
      reverse (sort_by (λ j. j.id) found) ≡ found
newest_first status db d =
    let found = select (status_matches status) db.jobs in
    ap reverse (
      sort_by-Descending db.next_id found
        (select-Descending (status_matches status) db.next_id db.jobs d))
    ∙ reverse-reverse found

list_window :
    (status : Text) (limit : ℤ) (offset : ℕ) (db : Db)
    → Descending db.next_id db.jobs
    → list status limit (pos offset) db
      ≡ take (list_limit limit) (drop offset (select (status_matches status) db.jobs))
unfolding list
list_window status limit offset db d =
    let start : list_offset (pos offset) ≡ offset = ground arith in
    ap (λ js. take (list_limit limit) (drop (list_offset (pos offset)) js))
      (newest_first status db d)
    ∙ ap (λ o. take (list_limit limit) (drop o (select (status_matches status) db.jobs))) start

list_bounded :
    (status : Text) (limit : ℤ) (k offset : ℕ) (db : Db)
    → Descending db.next_id db.jobs
    → list_limit limit ≡ k
    → list status limit (pos offset) db
      ≡ take k (drop offset (select (status_matches status) db.jobs))
list_bounded status limit k offset db d h =
    list_window status limit offset db d
    ∙ ap (λ l. take l (drop offset (select (status_matches status) db.jobs))) h

pub list_slice :
    (status : Text) (k offset : ℕ) (db : Db)
    → Descending db.next_id db.jobs
    → 0 < k
    → k ≤ 500
    → list status (pos k) (pos offset) db
      ≡ take k (drop offset (select (status_matches status) db.jobs))
list_slice status k offset db d low high = list_bounded status (pos k) k offset db d (ground arith)

-- A page has 500 jobs at most, whatever limit is asked for.
length-list :
    (status : Text) (limit offset : ℤ) (db : Db) → length (list status limit offset db) ≤ 500
unfolding list
length-list status limit offset db =
    let found =
      drop (list_offset offset)
        (reverse (sort_by (λ j. j.id) (select (status_matches status) db.jobs))) in
    let cap : list_limit limit ≤ 500 = ground arith in
    omega (arith, length-take (list_limit limit) found, cap)

-- A list holds the jobs of the status asked for, or all, and nothing else, newest first, and at most 500
-- of them whatever the limit and offset: one out of range, 0 or less or above 500, counts as 100. Consecutive pages join without a gap or an overlap: those of m and n jobs are the one of
-- m + n that starts where the first does.
pub list_lem :
    (status : Text) (m n offset : ℕ) (db : Db)
    → Descending db.next_id db.jobs
    → 0 < m
    → 0 < n
    → m + n ≤ 500
    → (list status (pos m) (pos offset) db
        ≡ take m (drop offset (select (status_matches status) db.jobs)))
      × (list status (pos m) (pos offset) db ++ list status (pos n) (pos (offset + m)) db
          ≡ list status (pos (m + n)) (pos offset) db)
      × ((limit start : ℤ) → length (list status limit start db) ≤ 500)
      × ((limit : ℤ)
          → (limit ≤ℤ pos 0) ⊎ (pos 501 ≤ℤ limit)
          → list status limit (pos offset) db
            ≡ take 100 (drop offset (select (status_matches status) db.jobs)))
list_lem status m n offset db d hm hn h =
    let found = select (status_matches status) db.jobs in
    let first = list_slice status m offset db d hm (omega arith) in
    let second = list_slice status n (offset + m) db d hn (omega arith) in
    let both = list_slice status (m + n) offset db d (omega arith) h in
    (
      first,
      ap (λ js. js ++ list status (pos n) (pos (offset + m)) db) first
          ∙ ap (λ js. take m (drop offset found) ++ js)
              (second ∙ ap (take n) (sym (drop-drop offset m found)))
          ∙ take_add m n (drop offset found)
          ∙ sym both,
      λ limit start. length-list status limit start db,
      λ limit out. list_bounded status limit 100 offset db d (ground arith),
    )
