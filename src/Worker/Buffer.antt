-- ===== src/Worker/Buffer.antt =====
-- internal/worker/executor.go: the buffer that keeps the start of a command's output.
use jobqueue.Common.{
  ltb, if◌then◌else◌, Bool-cases, length, take, length-append, length-take, take_all, take-append,
  append_nil, append_assoc, Text, text, print_nat, ℕ, zero, suc, ◌+◌, ◌-◌, ◌≤◌, ◌<◌, min, ◌≡◌, refl,
  sym, ap, ◌∙◌, inl, inr, true, false, List, [], ◌∷◌, ◌++◌, arith,
}

pub record BoundedBuffer : Type 0 where
  pub buf : Text
  pub total : ℕ
  pub limit : ℕ

abbrev pub max_output_bytes : ℕ
max_output_bytes = 32768

-- The room is a difference of ints in the code, which is not above 0 where this one stops at 0.
unfoldable pub write : BoundedBuffer → Text → BoundedBuffer
write b p =
    let room = b.limit - length b.buf in
    let kept = if ltb (length p) room then length p else room in
    record b {
      buf = if ltb 0 room then b.buf ++ take kept p else b.buf;
      total = b.total + length p;
    }

unfoldable pub write_all : BoundedBuffer → List Text → BoundedBuffer
unfolding write
write_all b [] = b
write_all b (p ∷ ps) = write_all (write b p) ps

abbrev pub new_buffer : ℕ → BoundedBuffer
new_buffer limit = record { buf = []; total = 0; limit = limit }

-- The note behind output that was cut.
abbrev pub truncation_note : ℕ → Text
truncation_note total = text "\n...[truncated, " ++ print_nat total ++ text " bytes total]"

unfoldable pub captured : BoundedBuffer → Text
unfolding print_nat
captured b = if ltb (length b.buf) b.total then b.buf ++ truncation_note b.total else b.buf

-- The pieces that a command writes, as one text.
abbrev pub joined : List Text → Text
joined [] = []
joined (p ∷ ps) = p ++ joined ps

-- The buffer that has seen a text.
abbrev pub seen : ℕ → Text → BoundedBuffer
seen limit t = record { buf = take limit t; total = length t; limit = limit }

take_within : (n : ℕ) (p : Text) → length p ≤ n → take (length p) p ≡ take n p
take_within n p h = take_all (length p) p (omega arith) ∙ sym (take_all n p h)

-- The two tests of `Write` do no more than the room does.
kept_room :
    (room : ℕ) (b p : Text)
    → (if ltb 0 room then b ++ take (if ltb (length p) room then length p else room) p else b)
      ≡ b ++ take room p
kept_room room b p = elim (Bool-cases (ltb 0 room)) [
  | inl y ↦ elim (Bool-cases (ltb (length p) room)) [
    | inl s ↦ rw (y, s) (ap (λ q. b ++ q) (take_within room p (ground arith)))
    | inr s ↦ rw (y, s) refl
  ]
  | inr n ↦ let e : 0 ≡ room = ground arith in rw n (sym (append_nil b) ∙ ap (λ k. b ++ take k p) e)
]

write-seen : (limit : ℕ) (t p : Text) → write (seen limit t) p ≡ seen limit (t ++ p)
unfolding write
write-seen limit t p =
    let size : length (take limit t) ≡ min limit (length t) = length-take limit t in
    let room : limit - length (take limit t) ≡ limit - length t = omega arith in
    let kept =
      kept_room (limit - length (take limit t)) (take limit t) p
      ∙ ap (λ k. take limit t ++ take k p) room
      ∙ sym (take-append limit t p) in
    cc (kept, length-append t p)

write_all-seen :
    (limit : ℕ) (t : Text) (ps : List Text)
    → write_all (seen limit t) ps ≡ seen limit (t ++ joined ps)
unfolding write_all
write_all-seen limit t [] = ap (seen limit) (sym (append_nil t))
write_all-seen limit t (p ∷ ps) =
    ap (λ b. write_all b ps) (write-seen limit t p)
    ∙ write_all-seen limit (t ++ p) ps
    ∙ ap (seen limit) (append_assoc t p (joined ps))

start_seen : (limit : ℕ) → new_buffer limit ≡ seen limit []
start_seen zero = refl
start_seen (suc n) = refl

-- However a command's output is cut into writes, the buffer keeps its first `limit` bytes and counts
-- all of them. What is captured is the output itself if it fits, and otherwise its first `limit`
-- bytes and a note that gives the whole length.
pub captured_lem :
    (limit : ℕ) (ps : List Text)
    → (write_all (new_buffer limit) ps ≡ seen limit (joined ps))
      × (length (joined ps) ≤ limit → captured (write_all (new_buffer limit) ps) ≡ joined ps)
      × (limit < length (joined ps)
          → captured (write_all (new_buffer limit) ps)
            ≡ take limit (joined ps) ++ truncation_note (length (joined ps)))
unfolding captured
captured_lem limit ps =
    let out = joined ps in
    let e : write_all (new_buffer limit) ps ≡ seen limit out =
      ap (λ b. write_all b ps) (start_seen limit) ∙ write_all-seen limit [] ps in
    let size = length-take limit out in
    let fits : captured (seen limit out) ≡ (
        if ltb (length (take limit out)) (length out)
        then take limit out ++ truncation_note (length out)
        else take limit out) =
      refl in
    (
      e,
      λ h.
          let n : ltb (length (take limit out)) (length out) ≡ false = ground arith in
          ap captured e ∙ fits ∙ (rw n (take_all limit out h)),
      λ h.
          let y : ltb (length (take limit out)) (length out) ≡ true = ground arith in
          ap captured e ∙ fits ∙ (rw y refl),
    )
