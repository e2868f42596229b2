-- ===== src/Worker/Calls.antt =====
-- internal/worker/client.go: the method and the path of each call, as the server's mux and its handlers
-- read them.
use jobqueue.Common.{
  ltb, Option-cases, length, Text, text, trim_space, print_nat, ℕ, ◌^◌, ◌≤◌, ◌<◌, ◌≡◌, refl, inl,
  inr, true, false, none, some, [], ◌∷◌, ◌++◌, ◌∙◌, append-All, is_plain, IsPlain, segment_text,
  arith,
}
use jobqueue.Api.{reply_with}
use jobqueue.Api.Workers.{RegisterRequest, worker_reply, handle_register_worker}
use jobqueue.Jobs.Validate.{is_empty}
use jobqueue.Store.{find, is_worker, Db, Clock}
use jobqueue.Store.Fleet.{register_worker}
use jobqueue.Api.Server.{
  Endpoint, to_claim, to_complete, to_fail, to_renew, to_register, to_heartbeat,
}
use jobqueue.Api.Server.Routing.{
  is_segment, every, dispatch, received, received_plain, count_slash, count_slash-append,
  dispatch_deep,
}
use jobqueue.Api.Requests.{Decoded, decode, path_id}
use jobqueue.Api.Server.Paths.{
  path_id-print_nat, print_nat_segment, dispatch_complete, dispatch_fail, dispatch_lease,
  dispatch_heartbeat,
}

-- A request line.
pub record Line : Type 0 where
  pub method : Text
  pub path : Text

abbrev post : Text → Line
post path = record { method = text "POST"; path = path }

-- The calls of the client.
pub data ClientCall : Type 0 where
  register_call claim_call : ClientCall
  heartbeat_call : Text → ClientCall
  renew_call complete_call fail_call : ℕ → ClientCall

unfoldable pub line_of : ClientCall → Line
unfolding print_nat
line_of register_call = post (text "/workers/register")
line_of (heartbeat_call w) = post (text "/workers/" ++ (w ++ text "/heartbeat"))
line_of claim_call = post (text "/jobs/claim")
line_of (renew_call i) = post (text "/jobs/" ++ (print_nat i ++ text "/lease"))
line_of (complete_call i) = post (text "/jobs/" ++ (print_nat i ++ text "/complete"))
line_of (fail_call i) = post (text "/jobs/" ++ (print_nat i ++ text "/fail"))

-- The endpoint that a call is meant for.
abbrev pub endpoint_of : ClientCall → Endpoint
endpoint_of register_call = to_register
endpoint_of (heartbeat_call w) = to_heartbeat
endpoint_of claim_call = to_claim
endpoint_of (renew_call i) = to_renew
endpoint_of (complete_call i) = to_complete
endpoint_of (fail_call i) = to_fail

-- What the handler is to find in the path: a job's id, or a worker's.
abbrev pub Finds : ClientCall → Text → Type 0
Finds register_call raw = Unit {0}
Finds (heartbeat_call w) raw = raw ≡ w
Finds claim_call raw = Unit {0}
Finds (renew_call i) raw = path_id raw ≡ some i
Finds (complete_call i) raw = path_id raw ≡ some i
Finds (fail_call i) raw = path_id raw ≡ some i

-- Ids that the database gives, and workers that name one clean segment of a path without an escape.
abbrev pub IsFit : ClientCall → Type 0
IsFit register_call = Unit {0}
IsFit (heartbeat_call w) = (count_slash w ≡ 0) × (is_segment w ≡ true) × IsPlain w
IsFit claim_call = Unit {0}
IsFit (renew_call i) = (0 < i) × (i < 2 ^ 63)
IsFit (complete_call i) = (0 < i) × (i < 2 ^ 63)
IsFit (fail_call i) = (0 < i) × (i < 2 ^ 63)

workers-IsPlain : IsPlain (text "/workers/")
workers-IsPlain = (refl, (refl, (refl, (refl, (refl, (refl, (refl, (refl, (refl, tt)))))))))

heartbeat-IsPlain : IsPlain (text "/heartbeat")
heartbeat-IsPlain =
    (refl, (refl, (refl, (refl, (refl, (refl, (refl, (refl, (refl, (refl, tt))))))))))

lease-IsPlain : IsPlain (text "/lease")
lease-IsPlain = (refl, (refl, (refl, (refl, (refl, (refl, tt))))))

complete-IsPlain : IsPlain (text "/complete")
complete-IsPlain = (refl, (refl, (refl, (refl, (refl, (refl, (refl, (refl, (refl, tt)))))))))

fail-IsPlain : IsPlain (text "/fail")
fail-IsPlain = (refl, (refl, (refl, (refl, (refl, tt)))))

-- Every byte of a path in which ids are plain is plain.
around-IsPlain : (s x t : Text) → IsPlain s → IsPlain x → IsPlain t → IsPlain (s ++ (x ++ t))
around-IsPlain s x t hs hx ht =
    append-All (λ b. is_plain b ≡ true) s (x ++ t) hs
      (append-All (λ b. is_plain b ≡ true) x t hx ht)

received_job :
    (i : ℕ) (rest : Text)
    → IsPlain rest
    → received (text "POST") (text "/jobs/" ++ (print_nat i ++ rest))
      ≡ dispatch (text "POST") (text "/jobs/" ++ (print_nat i ++ rest))
received_job i rest h = received_plain (text "POST") (text "/jobs/" ++ (print_nat i ++ rest)) (
    around-IsPlain (text "/jobs/") (print_nat i) rest
      (refl, (refl, (refl, (refl, (refl, (refl, tt)))))) (print_nat_segment i).2 h)

-- Every call of the worker's client reaches the endpoint that it is meant for, and the handler finds in
-- the path the very job id, from 1 up to an int64's largest, or worker id that the client put into it;
-- a worker's id has to be non-empty, neither one dot nor two, and of letters, digits and - _ . ~ only, which a URL
-- takes as they are.
pub calls_lem :
    (call : ClientCall)
    → IsFit call
    → (raw : Text) × (received (line_of call).method (line_of call).path
        ≡ some (endpoint_of call, raw))
      × Finds call raw
unfolding line_of
calls_lem register_call h = ([], unfold received dispatch every segment_text in refl, tt)
calls_lem (heartbeat_call w) (plain, clean, kept) = (
  w,
  received_plain (text "POST") (text "/workers/" ++ (w ++ text "/heartbeat")) (
        around-IsPlain (text "/workers/") w (text "/heartbeat") workers-IsPlain kept
          heartbeat-IsPlain)
      ∙ dispatch_heartbeat w plain clean kept,
  refl,
)
calls_lem claim_call h = ([], unfold received dispatch every segment_text in refl, tt)
calls_lem (renew_call i) (lo, hi) =
    let (plain, clean, kept) = print_nat_segment i in
    (
      print_nat i,
      received_job i (text "/lease") lease-IsPlain ∙ dispatch_lease (print_nat i) plain clean kept,
      path_id-print_nat i lo hi,
    )
calls_lem (complete_call i) (lo, hi) =
    let (plain, clean, kept) = print_nat_segment i in
    (
      print_nat i,
      received_job i (text "/complete") complete-IsPlain
          ∙ dispatch_complete (print_nat i) plain clean kept,
      path_id-print_nat i lo hi,
    )
calls_lem (fail_call i) (lo, hi) =
    let (plain, clean, kept) = print_nat_segment i in
    (
      print_nat i,
      received_job i (text "/fail") fail-IsPlain ∙ dispatch_fail (print_nat i) plain clean kept,
      path_id-print_nat i lo hi,
    )

heartbeat_deep :
    (w : Text)
    → IsPlain w
    → 0 < count_slash w
    → received (line_of (heartbeat_call w)).method (line_of (heartbeat_call w)).path ≡ none
unfolding line_of
heartbeat_deep w kept h =
    let s = text "workers/" ++ (w ++ text "/heartbeat") in
    received_plain (text "POST") (b'/' ∷ s) (
      around-IsPlain (text "/workers/") w (text "/heartbeat") workers-IsPlain kept
        heartbeat-IsPlain)
    ∙ dispatch_deep (text "POST") s (omega (arith, count_slash-append w (text "/heartbeat"), h))

register_worker_ok :
    (c : Clock) (w hostname : Text) (db : Db)
    → (reply_with (worker_reply 201) (register_worker c w hostname db)).0.status ≡ 201
unfolding register_worker
register_worker_ok c w hostname db = elim (Option-cases (find (is_worker w) db.workers)) [
  | inl e ↦ rw (e, register_worker) refl
  | inr (r, e) ↦ rw (e, register_worker) refl
]

-- What the server decodes of the body that `Register` sends.
abbrev pub register_body : Text → Text → Decoded RegisterRequest
register_body w hostname = record {
  first = inr (record { worker_id = w; hostname = hostname });
  more = false;
}

-- A worker whose id has a slash, and else only bytes that a URL takes as they are, is registered with a 201, if
-- the id has at most 128 bytes and no space around it, but its heartbeats reach no endpoint.
pub heartbeat_lost :
    (c : Clock) (w hostname : Text) (db : Db)
    → trim_space w ≡ w
    → length w ≤ 128
    → IsPlain w
    → 0 < count_slash w
    → ((handle_register_worker c (register_body w hostname) db).0.status ≡ 201)
      × (received (line_of (heartbeat_call w)).method (line_of (heartbeat_call w)).path ≡ none)
unfolding handle_register_worker is_empty decode
heartbeat_lost c [] hostname db t l kept h = absurd (omega (arith, h))
heartbeat_lost c (b ∷ w) hostname db t l kept h =
    let fits : ltb 128 (length (b ∷ w)) ≡ false = ground arith in
    (
      rw (t, handle_register_worker) (rw fits (register_worker_ok c (b ∷ w) hostname db)),
      heartbeat_deep (b ∷ w) kept h,
    )
