-- ===== src/Database/Migrate.antt =====
-- internal/database/database.go: the migrations, applied in the order of their names.
use jobqueue.Common.{
  ltb, ◌==◌, if◌then◌else◌, Bool-cases, Option-cases, All, Text, text_eq, text_eq_refl, ◌≡◌, refl,
  sym, ap, subst, ◌∙◌, inl, inr, Bool, true, false, not, ◌&&◌, ◌||◌, Option, none, some, List, [],
  ◌∷◌, arith,
}

-- What the ledger records, and the schema that the applied files have built.
pub record Schema (S : Type 0) : Type 0 where
  pub ledger : List Text
  pub built : S

-- The order of sort.Strings, by bytes.
unfoldable pub text_leb : Text → Text → Bool
text_leb [] t = true
text_leb (a ∷ s) [] = false
text_leb (a ∷ s) (b ∷ t) = ltb a b || (a == b && text_leb s t)

unfoldable pub insert_name : Text → List Text → List Text
unfolding text_leb
insert_name n [] = n ∷ []
insert_name n (m ∷ ms) =
    let later = insert_name n ms in if text_leb n m then n ∷ m ∷ ms else m ∷ later

-- An entry of the embedded directory.
pub record Entry : Type 0 where
  pub name : Text
  pub is_dir : Bool

unfoldable pub migration_names : List Entry → List Text
unfolding insert_name
migration_names [] = []
migration_names (e ∷ es) =
    let others = migration_names es in if not e.is_dir then insert_name e.name others else others

unfoldable pub is_recorded : Text → List Text → Bool
unfolding text_eq
is_recorded name [] = false
is_recorded name (n ∷ ns) = text_eq n name || is_recorded name ns

-- The migration that could not be applied.
pub data MigrationError : Type 0 where
  apply_failed : Text → MigrationError

-- `apply` is what the database makes of a file's statements, `none` an error. Each file has its
-- own transaction, so one that fails leaves the schema and the ledger as they were.
module _ {S : Type 0} (apply : Text → S → Option S) where
  abbrev recorded : Text → List Text → S → Schema S
  recorded name ledger built = record { ledger = name ∷ ledger; built = built }

  unfoldable pub migrate_from : List Text → Schema S → Option MigrationError × Schema S
  unfolding is_recorded
  migrate_from [] db = (none, db)
  migrate_from (name ∷ names) db =
      let skipped = migrate_from names db in
      elim (apply name db.built) [
        | none ↦ if is_recorded name db.ledger then skipped else (some (apply_failed name), db)
        | some built ↦
            let done = migrate_from names (recorded name db.ledger built) in
            if is_recorded name db.ledger then skipped else done
      ]

  unfoldable pub migrate : List Entry → Schema S → Option MigrationError × Schema S
  unfolding migrate_from migration_names
  migrate entries db = migrate_from (migration_names entries) db

  abbrev pub AllRecorded : List Text → List Text → Type 0
  AllRecorded names ledger = All (λ name. is_recorded name ledger ≡ true) names

  -- The three cases of a file: recorded, refused by the database, and applied.
  migrate_skip :
      (n : Text) (ns : List Text) (db : Schema S)
      → is_recorded n db.ledger ≡ true
      → migrate_from (n ∷ ns) db ≡ migrate_from ns db
  unfolding migrate_from
  migrate_skip n ns db y = elim (Option-cases (apply n db.built)) [
    | inl e ↦ rw (e, migrate_from) (rw y refl)
    | inr (b, e) ↦ rw (e, migrate_from) (rw y refl)
  ]

  migrate_stop :
      (n : Text) (ns : List Text) (db : Schema S)
      → is_recorded n db.ledger ≡ false
      → apply n db.built ≡ none
      → migrate_from (n ∷ ns) db ≡ (some (apply_failed n), db)
  unfolding migrate_from
  migrate_stop n ns db m e = rw (e, migrate_from) (rw m refl)

  migrate_apply :
      (n : Text) (ns : List Text) (db : Schema S) (b : S)
      → is_recorded n db.ledger ≡ false
      → apply n db.built ≡ some b
      → migrate_from (n ∷ ns) db ≡ migrate_from ns (recorded n db.ledger b)
  unfolding migrate_from
  migrate_apply n ns db b m e = rw (e, migrate_from) (rw m refl)

  -- A run keeps what is recorded.
  migrate_keeps :
      (names : List Text) (db : Schema S) (name : Text)
      → is_recorded name db.ledger ≡ true
      → is_recorded name (migrate_from names db).1.ledger ≡ true
  unfolding migrate_from is_recorded
  migrate_keeps [] db name h = h
  migrate_keeps (n ∷ ns) db name h = elim (Bool-cases (is_recorded n db.ledger)) [
    | inl y ↦ rw (migrate_skip n ns db y) (migrate_keeps ns db name h)
    | inr m ↦ elim (Option-cases (apply n db.built)) [
      | inl e ↦ rw (migrate_stop n ns db m e) h
      | inr (b, e) ↦
          rw (migrate_apply n ns db b m e)
            (migrate_keeps ns (recorded n db.ledger b) name (ground (arith, h)))
    ]
  ]

  migrate_records :
      (names : List Text) (db : Schema S)
      → (migrate_from names db).0 ≡ none
      → AllRecorded names (migrate_from names db).1.ledger
  unfolding migrate_from is_recorded
  migrate_records [] db h = tt
  migrate_records (n ∷ ns) db h =
      let P : Option MigrationError × Schema S → Type 0 =
        λ r. r.0 ≡ none → AllRecorded (n ∷ ns) r.1.ledger in
      elim (Bool-cases (is_recorded n db.ledger)) [
        | inl y ↦
            subst P (sym (migrate_skip n ns db y))
              (λ k. (migrate_keeps ns db n y, migrate_records ns db k)) h
        | inr m ↦ elim (Option-cases (apply n db.built)) [
          | inl e ↦ subst P (sym (migrate_stop n ns db m e)) (λ k. absurd (cc k)) h
          | inr (b, e) ↦
              let next = recorded n db.ledger b in
              let here : is_recorded n next.ledger ≡ true = ground (arith, text_eq_refl n) in
              subst P (sym (migrate_apply n ns db b m e))
                (λ k. (migrate_keeps ns next n here, migrate_records ns next k)) h
        ]
      ]

  migrate_noop :
      (names : List Text) (db : Schema S)
      → AllRecorded names db.ledger
      → migrate_from names db ≡ (none, db)
  unfolding migrate_from
  migrate_noop [] db h = refl
  migrate_noop (n ∷ ns) db h = migrate_skip n ns db h.0 ∙ migrate_noop ns db h.1

  -- A run of the migrations that succeeds has recorded every file, and running them again, on every
  -- later start of a server, applies nothing and changes neither the schema nor the ledger.
  pub migrate_twice :
      (entries : List Entry) (db db' : Schema S)
      → migrate entries db ≡ (none, db')
      → AllRecorded (migration_names entries) db'.ledger × (migrate entries db' ≡ (none, db'))
  unfolding migrate
  migrate_twice entries db db' h =
      let names = migration_names entries in
      let all : AllRecorded names db'.ledger =
        subst (λ s. AllRecorded names s.ledger) (ap (λ r. r.1) h)
          (migrate_records names db (ap (λ r. r.0) h)) in
      (all, migrate_noop names db' all)
