-- ===== src/Api/Recovery.antt =====
-- internal/api/middleware.go: `recovery`, `logging` and `jsonErrors`, as server.go's ServeHTTP puts them around
-- a handler. `encode` is the JSON of a reply.
use jobqueue.Common.{
  ◌==◌, if◌then◌else◌, Bool-cases, Text, text, ℕ, ◌≡◌, refl, ap, ◌∙◌, inl, inr, Bool, true, false,
  Option, none, some, List, [], ◌∷◌, ◌++◌,
}
use jobqueue.Api.{write_error, Reply, internal_error, literal}
use jobqueue.Api.Writer.{
  head, bytes, replied, Written, write_header, write, WriterCall, JsonErrorWriter, Level,
  is_builtin, substitute, new_recorder, recorded, recorded_lem, sent_status, log_level,
  error_writer_call, wrapped, new_writer,
}

module _ (encode : Reply → Text) where
  -- The calls that a wrapper makes of the writer below it.
  abbrev calls_below : Written → List WriterCall
  calls_below (head code content_type) = write_header code ∷ []
  calls_below (bytes b) = write b ∷ []
  calls_below (replied r) = write_header r.status ∷ write (encode r) ∷ []

  -- Of what went out, newest first.
  abbrev all_below : List Written → List WriterCall
  all_below [] = []
  all_below (x ∷ out) = all_below out ++ calls_below x

  -- The calls of a handler behind jsonErrors, which sets a content type.
  unfoldable pub json_errors : Text → List WriterCall → List WriterCall
  unfolding wrapped
  json_errors content_type ks = all_below (wrapped (new_writer content_type) ks).out

  -- The line of the access log, which a panic leaves out.
  unfoldable pub logging : Text → Bool → List WriterCall → Option (Level × ℕ)
  unfolding recorded log_level
  logging path panics ks =
      let status = (recorded new_recorder ks).status in
      if panics then none else some (log_level path status, status)

  unfoldable pub recovery : Bool → List WriterCall → List WriterCall
  recovery panics ks =
      if panics
      then ks
        ++ calls_below
            (replied (write_error 500 internal_error (literal (text "internal server error"))))
      else ks

  -- What net/http is called with for a request that passes `auth`, and the line of the log. The
  -- handler makes the calls `ks`, and then returns or panics.
  unfoldable pub handle_http :
      Text → Text → List WriterCall → Bool → List WriterCall × Option (Level × ℕ)
  unfolding recovery logging json_errors
  handle_http path content_type ks panics =
      let calls = json_errors content_type ks in (recovery panics calls, logging path panics calls)

  -- Calls that begin with one that sends a status.
  abbrev Starts : ℕ → List WriterCall → Type 0
  Starts status ks =
      (k : WriterCall) × (rest : List WriterCall) × (ks ≡ k ∷ rest)
      × (sent_status (k ∷ []) ≡ status)

  append-Starts : (s : ℕ) (a b : List WriterCall) → Starts s a → Starts s (a ++ b)
  append-Starts s a b (k, rest, e, h) = (k, rest ++ b, ap (λ x. x ++ b) e, h)

  sent-Starts : (s : ℕ) (ks : List WriterCall) → Starts s ks → sent_status ks ≡ s
  sent-Starts s ks (write_header code, rest, e, h) = ap sent_status e ∙ h
  sent-Starts s ks (write b, rest, e, h) = ap sent_status e ∙ h

  call-Starts :
      (w : JsonErrorWriter) (k : WriterCall) (s : ℕ)
      → Starts s (all_below w.out)
      → Starts s (all_below (error_writer_call w k).out)
  unfolding error_writer_call
  call-Starts w (write_header code) s h = elim (Bool-cases (is_builtin code w.content_type)) [
    | inl y ↦ rw y (append-Starts s (all_below w.out) (calls_below (replied (substitute code))) h)
    | inr n ↦ rw n (append-Starts s (all_below w.out) (write_header code ∷ []) h)
  ]
  call-Starts w (write b) s h = elim (Bool-cases w.substituted) [
    | inl y ↦ rw y h
    | inr n ↦ rw n (append-Starts s (all_below w.out) (write b ∷ []) h)
  ]

  wrapped-Starts :
      (w : JsonErrorWriter) (ks : List WriterCall) (s : ℕ)
      → Starts s (all_below w.out)
      → Starts s (all_below (wrapped w ks).out)
  unfolding wrapped
  wrapped-Starts w [] s h = h
  wrapped-Starts w (k ∷ ks) s h = wrapped-Starts (error_writer_call w k) ks s (call-Starts w k s h)

  substitute_status : (code : ℕ) → (substitute code).status ≡ code
  substitute_status code = elim (Bool-cases (code == 405)) [ inl y ↦ rw y refl | inr n ↦ rw n refl ]

  first-Starts :
      (content_type : Text) (k : WriterCall)
      → Starts
          (sent_status (k ∷ []))
          (all_below (error_writer_call (new_writer content_type) k).out)
  unfolding error_writer_call
  first-Starts t (write_header code) = elim (Bool-cases (is_builtin code t)) [
    | inl y ↦ rw y (
      write_header (substitute code).status,
      write (encode (substitute code)) ∷ [],
      refl,
      substitute_status code,
    )
    | inr n ↦ rw n (write_header code, [], refl, refl)
  ]
  first-Starts t (write b) = (write b, [], refl, refl)

  json_errors-Starts :
      (content_type : Text) (k : WriterCall) (ks : List WriterCall)
      → Starts (sent_status (k ∷ ks)) (json_errors content_type (k ∷ ks))
  unfolding json_errors wrapped
  json_errors-Starts t (write_header code) ks =
      wrapped-Starts (error_writer_call (new_writer t) (write_header code)) ks code
        (first-Starts t (write_header code))
  json_errors-Starts t (write b) ks =
      wrapped-Starts (error_writer_call (new_writer t) (write b)) ks 200 (first-Starts t (write b))

  -- The status that the client gets: 500 for a panic before anything was written, and else the handler's own,
  -- which no wrapper changes, also if the handler panics later. The access log has a line for a
  -- request exactly when its handler returns, with the status that was sent and its level.
  pub handle_http_lem :
      (path content_type : Text) (ks : List WriterCall) (panics : Bool)
      → let r = handle_http path content_type ks panics in
        (sent_status r.0
          ≡ elim ks [ [] ↦ if panics then 500 else 200 | k ∷ rest ↦ sent_status (k ∷ rest) ])
        × (r.1
            ≡ (if panics then none else some (log_level path (sent_status r.0), sent_status r.0)))
  unfolding handle_http recovery logging
  handle_http_lem path t [] true = (refl, refl)
  handle_http_lem path t [] false = (refl, refl)
  handle_http_lem path t (k ∷ ks) true = (
    sent-Starts (sent_status (k ∷ ks)) (handle_http path t (k ∷ ks) true).0 (
        append-Starts (sent_status (k ∷ ks)) (json_errors t (k ∷ ks))
          (calls_below
            (replied (write_error 500 internal_error (literal (text "internal server error")))))
          (json_errors-Starts t k ks)),
    refl,
  )
  handle_http_lem path t (k ∷ ks) false = (
    sent-Starts (sent_status (k ∷ ks)) (json_errors t (k ∷ ks)) (json_errors-Starts t k ks),
    ap (λ s. some (log_level path s, s)) (recorded_lem (json_errors t (k ∷ ks))),
  )
