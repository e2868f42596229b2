-- ===== src/Api/Writer.antt =====
-- internal/api/middleware.go: the two wrappers around http.ResponseWriter.
use jobqueue.Common.{
  leb, ◌==◌, if◌then◌else◌, Bool-cases, Text, text, text_eq, has_prefix, ℕ, ◌≡◌, refl, ap, ◌∙◌, ◌≢◌,
  ◌⊎◌, inl, inr, Bool, true, false, not, ◌&&◌, ◌||◌, List, [], ◌∷◌, arith,
}
use jobqueue.Api.{write_error, Reply, bad_request, not_found, literal}

-- What goes out on the connection: a header with its content type, bytes of a body, or the JSON
-- error that writeError makes.
pub data Written : Type 0 where
  head : ℕ → Text → Written
  bytes : Text → Written
  replied : Reply → Written

-- What a handler calls on the writer that it is given.
pub data WriterCall : Type 0 where
  write_header : ℕ → WriterCall
  write : Text → WriterCall

-- statusRecorder, without the writer below it.
pub record StatusRecorder : Type 0 where
  pub status : ℕ
  pub wrote : Bool

abbrev pub new_recorder : StatusRecorder
new_recorder = record { status = 200; wrote = false }

unfoldable pub recorder_call : StatusRecorder → WriterCall → StatusRecorder
recorder_call r (write_header code) =
    if not r.wrote then record { status = code; wrote = true } else r
recorder_call r (write b) = if not r.wrote then record { status = 200; wrote = true } else r

unfoldable pub recorded : StatusRecorder → List WriterCall → StatusRecorder
unfolding recorder_call
recorded r [] = r
recorded r (k ∷ ks) = recorded (recorder_call r k) ks

-- The status that net/http sends: that of the first call, 200 for a body or for no call.
abbrev pub sent_status : List WriterCall → ℕ
sent_status [] = 200
sent_status (write_header code ∷ ks) = code
sent_status (write b ∷ ks) = 200

recorded_wrote :
    (status : ℕ) (ks : List WriterCall)
    → (recorded (record { status = status; wrote = true }) ks).status ≡ status
unfolding recorded recorder_call
recorded_wrote status [] = refl
recorded_wrote status (write_header code ∷ ks) = recorded_wrote status ks
recorded_wrote status (write b ∷ ks) = recorded_wrote status ks

-- The access log shows the status that was sent, whatever sequence of calls the handler makes: the
-- first header's, or 200 if the body comes first or nothing is written.
pub recorded_lem : (ks : List WriterCall) → (recorded new_recorder ks).status ≡ sent_status ks
unfolding recorded recorder_call
recorded_lem [] = refl
recorded_lem (write_header code ∷ ks) = recorded_wrote code ks
recorded_lem (write b ∷ ks) = recorded_wrote 200 ks

-- The level of the access log's line.
pub data Level : Type 0 where
  debug info error : Level

unfoldable pub log_level : Text → ℕ → Level
unfolding text_eq
log_level path status =
    if text_eq path (text "/jobs/claim") && (status == 404)
    then debug
    else if leb 500 status
    then error
    else info

abbrev json_type : Text
json_type = text "application/json"

-- jsonErrorWriter: the content type that the handler has set, and what went out, newest first.
pub record JsonErrorWriter : Type 0 where
  pub content_type : Text
  pub substituted : Bool
  pub out : List Written

-- The JSON error in place of net/http's own 404 or 405.
abbrev pub substitute : ℕ → Reply
substitute code =
    if code == 405
    then write_error code bad_request (literal (text "method not allowed for this path"))
    else write_error code not_found (literal (text "resource not found"))

abbrev pub is_builtin : ℕ → Text → Bool
is_builtin code content_type =
    ((code == 404) || (code == 405)) && not (has_prefix content_type json_type)

unfoldable pub error_writer_call : JsonErrorWriter → WriterCall → JsonErrorWriter
unfolding has_prefix
error_writer_call w (write_header code) =
    if is_builtin code w.content_type
    then record {
      content_type = json_type;
      substituted = true;
      out = replied (substitute code) ∷ w.out;
    }
    else record w { out = head code w.content_type ∷ w.out }
error_writer_call w (write b) = if w.substituted then w else record w { out = bytes b ∷ w.out }

unfoldable pub wrapped : JsonErrorWriter → List WriterCall → JsonErrorWriter
unfolding error_writer_call
wrapped w [] = w
wrapped w (k ∷ ks) = wrapped (error_writer_call w k) ks

-- The wrapper that jsonErrors makes, when the handler has set a content type.
abbrev pub new_writer : Text → JsonErrorWriter
new_writer content_type = record { content_type = content_type; substituted = false; out = [] }

-- A body in pieces.
abbrev pub pieces : List Text → List WriterCall
pieces [] = []
pieces (b ∷ bs) = write b ∷ pieces bs

-- The pieces as they go out, newest first.
abbrev pub passed : List Text → List Written → List Written
passed [] out = out
passed (b ∷ bs) out = passed bs (bytes b ∷ out)

wrapped_substituted :
    (t : Text) (out : List Written) (bs : List Text)
    → (wrapped (record { content_type = t; substituted = true; out = out }) (pieces bs)).out ≡ out
unfolding wrapped error_writer_call
wrapped_substituted t out [] = refl
wrapped_substituted t out (b ∷ bs) = wrapped_substituted t out bs

wrapped_passes :
    (t : Text) (out : List Written) (bs : List Text)
    → (wrapped (record { content_type = t; substituted = false; out = out }) (pieces bs)).out
      ≡ passed bs out
unfolding wrapped error_writer_call
wrapped_passes t out [] = refl
wrapped_passes t out (b ∷ bs) = wrapped_passes t (bytes b ∷ out) bs

header_builtin :
    (t : Text) (code : ℕ)
    → is_builtin code t ≡ true
    → error_writer_call (new_writer t) (write_header code) ≡ record {
      content_type = json_type;
      substituted = true;
      out = replied (substitute code) ∷ [];
    }
unfolding error_writer_call
header_builtin t code e = rw e refl

header_other :
    (t : Text) (code : ℕ)
    → is_builtin code t ≡ false
    → error_writer_call (new_writer t) (write_header code)
      ≡ record { content_type = t; substituted = false; out = head code t ∷ [] }
unfolding error_writer_call
header_other t code e = rw e refl

-- A reply whose content type is not JSON and whose status is 404 or 405, as the mux makes them, goes
-- out as one JSON error of that status and nothing of its body; every other reply goes out as it was
-- written, header and body.
pub wrapped_lem :
    (content_type : Text) (code : ℕ) (bs : List Text)
    → (((code ≡ 404) ⊎ (code ≡ 405))
        → has_prefix content_type json_type ≡ false
        → (wrapped (new_writer content_type) (write_header code ∷ pieces bs)).out
          ≡ replied (substitute code) ∷ [])
      × ((((code ≢ 404) × (code ≢ 405)) ⊎ (has_prefix content_type json_type ≡ true))
          → (wrapped (new_writer content_type) (write_header code ∷ pieces bs)).out
            ≡ passed bs (head code content_type ∷ []))
unfolding wrapped
wrapped_lem content_type code bs = elim (Bool-cases (is_builtin code content_type)) [
  | inl e ↦ (
    λ _ _.
        ap (λ w. (wrapped w (pieces bs)).out) (header_builtin content_type code e)
        ∙ wrapped_substituted json_type (replied (substitute code) ∷ []) bs,
    λ h. absurd (ground arith),
  )
  | inr e ↦ (
    λ h k. absurd (ground arith),
    λ h.
        ap (λ w. (wrapped w (pieces bs)).out) (header_other content_type code e)
        ∙ wrapped_passes content_type (head code content_type ∷ []) bs,
  )
]
