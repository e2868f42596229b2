-- ===== src/Entry/WorkerId.antt =====
-- cmd/worker/main.go: the worker's configuration, and the id that it makes up.
use jobqueue.Common.{
  ltb, if◌then◌else◌, All, append-All, is_plain, IsPlain, ap, ◌∙◌, ◌<◌, ◌≤◌, ℤ, Text, text, text_eq,
  print_nat, ℕ, ◌+◌, ◌-◌, ◌/◌, ◌%◌, ◌≡◌, refl, ◌≢◌, true, Option, none, some, [], ◌∷◌, ◌++◌, arith,
}
use jobqueue.Api.Server.Routing.{is_segment, received, count_slash, count_slash-append}
use jobqueue.Worker.{WorkerConfig}
use jobqueue.Entry.{seconds}
use jobqueue.Api.Server.{to_heartbeat}
use jobqueue.Api.Server.Paths.{print_nat_segment}
use jobqueue.Worker.Calls.{line_of, heartbeat_call, calls_lem}

abbrev hex_digit : ℕ → ℕ
hex_digit d = if ltb d 10 then b'0' + d else b'a' + (d - 10)

-- hex.EncodeToString of bytes.
unfoldable pub hex_encode : Text → Text
hex_encode [] = []
hex_encode (b ∷ bs) = hex_digit (b / 16) ∷ hex_digit (b % 16) ∷ hex_encode bs

abbrev host_or_default : Option Text → Text
unfolding text_eq
host_or_default none = text "worker"
host_or_default (some h) = if text_eq h [] then text "worker" else h

-- os.Hostname, the three random bytes and the process id.
unfoldable pub generate_id : Option Text → Option Text → ℕ → Text
unfolding hex_encode host_or_default print_nat
generate_id host random pid =
    host_or_default host
    ++ (text "-" ++ elim random [ none ↦ print_nat pid | some bytes ↦ hex_encode bytes ])

-- The flags, with the poll interval as the conversion of its float gives it.
pub record WorkerFlags : Type 0 where
  pub server : Text
  pub id : Text
  pub lease : ℤ
  pub poll : ℤ
  pub heartbeat : ℤ
  pub timeout : ℤ

unfoldable pub worker_config : WorkerFlags → Option Text → Option Text → ℕ → Text → WorkerConfig
unfolding generate_id text_eq seconds
worker_config flags host random pid token = record {
  server_url = flags.server;
  worker_id = if text_eq flags.id [] then generate_id host random pid else flags.id;
  hostname = elim host [ none ↦ text "unknown" | some h ↦ h ];
  token = token;
  lease = seconds flags.lease;
  poll_interval = flags.poll;
  heartbeat_interval = seconds flags.heartbeat;
  job_timeout = seconds flags.timeout;
}

-- A text that is no part of a path but one, and needs no escape.
abbrev pub IsClean : Text → Type 0
IsClean s = (count_slash s ≡ 0) × IsPlain s

append-IsClean : (s t : Text) → IsClean s → IsClean t → IsClean (s ++ t)
append-IsClean s t (flat, plain) (no', plain') = (
  omega (arith, count_slash-append s t, flat, no'),
  append-All (λ b. is_plain b ≡ true) s t plain plain',
)

hex_digit_plain : (d : ℕ) → d < 16 → (is_plain (hex_digit d) ≡ true) × (b'0' ≤ hex_digit d)
hex_digit_plain d h = (ground arith, ground arith)

hex-IsClean : (bs : Text) → All (λ b. b < 256) bs → IsClean (hex_encode bs)
unfolding hex_encode
hex-IsClean [] h = (refl, tt)
hex-IsClean (b ∷ bs) h =
    let (flat, plain) = hex-IsClean bs h.1 in
    let (high, above) = hex_digit_plain (b / 16) (omega (arith, h.0)) in
    let (low, over) = hex_digit_plain (b % 16) (omega arith) in
    (ground (arith, flat, above, over), (high, (low, plain)))

-- A text with a dash inside is a clean segment.
dashed_segment : (h t : Text) → h ≢ [] → is_segment (h ++ (b'-' ∷ t)) ≡ true
unfolding is_segment text_eq
dashed_segment [] t ne = absurd (ne refl)
dashed_segment (a ∷ []) t ne = ground arith
dashed_segment (a ∷ b ∷ []) t ne = ground arith
dashed_segment (a ∷ b ∷ c ∷ h) t ne = ground arith

host-IsClean :
    (host : Option Text)
    → ((h : Text) → host ≡ some h → IsClean h)
    → (host_or_default host ≢ []) × IsClean (host_or_default host)
unfolding host_or_default text_eq
host-IsClean none h =
    ((λ e. absurd (cc e)), (refl, (refl, (refl, (refl, (refl, (refl, (refl, tt))))))))
host-IsClean (some []) h =
    ((λ e. absurd (cc e)), (refl, (refl, (refl, (refl, (refl, (refl, (refl, tt))))))))
host-IsClean (some (b ∷ s)) h = ((λ e. absurd (cc e)), h (b ∷ s) refl)

suffix-IsClean :
    (random : Option Text) (pid : ℕ)
    → ((bs : Text) → random ≡ some bs → All (λ b. b < 256) bs)
    → IsClean (elim random [ none ↦ print_nat pid | some bytes ↦ hex_encode bytes ])
suffix-IsClean none pid h = let (flat, _, plain) = print_nat_segment pid in (flat, plain)
suffix-IsClean (some bytes) pid h = hex-IsClean bytes (h bytes refl)

-- The heartbeats of a worker under an id of its own making reach the server: on a host whose name has
-- letters, digits and - _ . ~ only, the id is one clean segment of their path, and the server
-- finds the whole id there.
pub generate_id_lem :
    (host random : Option Text) (pid : ℕ)
    → ((h : Text) → host ≡ some h → IsClean h)
    → ((bs : Text) → random ≡ some bs → All (λ b. b < 256) bs)
    → let id = generate_id host random pid in
      received (line_of (heartbeat_call id)).method (line_of (heartbeat_call id)).path
      ≡ some (to_heartbeat, id)
unfolding generate_id
generate_id_lem host random pid h bytes =
    let name = host_or_default host in
    let suffix : Text = elim random [ none ↦ print_nat pid | some bytes ↦ hex_encode bytes ] in
    let (some_name, clean) = host-IsClean host h in
    let (flat, plain) =
      append-IsClean name (b'-' ∷ suffix) clean
        (append-IsClean (b'-' ∷ []) suffix (refl, (refl, tt)) (suffix-IsClean random pid bytes)) in
    let (raw, reached, same) =
      calls_lem (heartbeat_call (name ++ (b'-' ∷ suffix)))
        (flat, dashed_segment name suffix some_name, plain) in
    reached ∙ ap (λ x. some (to_heartbeat, x)) same
