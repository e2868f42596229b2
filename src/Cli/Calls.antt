-- ===== src/Cli/Calls.antt =====
-- cmd/queue/main.go: `request`, and the request that each command makes.
use jobqueue.Common.{
  leb, ◌==◌, if◌then◌else◌, Option-cases, ℤ, Text, text, text_eq, trim_space, to_upper, parse_int,
  parse_int_range, print_nat, print_int, ℕ, ◌^◌, ◌<◌, ◌≡◌, ◌⊎◌, inl, inr, some, List, [], ◌∷◌, ◌++◌,
  reverse, arith,
}
use jobqueue.Worker.Client.{Response}
use jobqueue.Api.Requests.{path_id}
use jobqueue.Api.Server.{to_get, to_cancel}
use jobqueue.Api.Server.Routing.{dispatch}
use jobqueue.Api.Server.Paths.{path_id-print_nat, print_nat_segment, dispatch_cancel, dispatch_get}
use jobqueue.Cli.{positional_id}

-- The errors of `request`: the connection's, with the server's URL; an error status with its message; or one of reading the
-- answer.
pub data RequestError : Type 0 where
  cannot_reach : Text → Text → RequestError
  server_returned : ℕ → Text → RequestError
  unreadable : Text → RequestError

unfoldable pub request : {A : Type 0} → Text → Text ⊎ Response A → RequestError ⊎ A
unfolding text_eq trim_space
request server (inl failure) = inl (cannot_reach server failure)
request server (inr r) =
    if leb 300 r.status
    then inl (server_returned r.status (if text_eq r.error [] then trim_space r.raw else r.error))
    else elim r.value [ inl msg ↦ inl (unreadable msg) | inr a ↦ inr a ]

-- strings.TrimRight of a slash.
unfoldable pub drop_slashes : Text → Text
drop_slashes [] = []
drop_slashes (b ∷ s) = if b == b'/' then drop_slashes s else b ∷ s

unfoldable pub request_url : Text → Text → Text
unfolding drop_slashes
request_url server path = reverse (drop_slashes (reverse server)) ++ path

-- The server that commonFlags takes by default, from the environment.
unfoldable pub default_server : Text → Text
unfolding text_eq
default_server from_env = if text_eq from_env [] then text "http://localhost:8080" else from_env

-- The method and path of a command that names a job.
unfoldable pub get_path : ℕ → Text
unfolding print_nat
get_path id = text "/jobs/" ++ print_nat id

unfoldable pub cancel_path : ℕ → Text
unfolding print_nat
cancel_path id = text "/jobs/" ++ (print_nat id ++ text "/cancel")

-- The path of a list, with its query.
unfoldable pub list_path : ℤ → Text → Text
unfolding print_int text_eq to_upper
list_path limit status =
    text "/jobs?limit="
    ++ (print_int limit ++ (if text_eq status [] then [] else text "&status=" ++ to_upper status))

positional_id_range :
    (args : List Text) (id : ℕ) → positional_id args ≡ inr id → (0 < id) × (id < 2 ^ 63)
unfolding positional_id
positional_id_range [] id h = absurd (cc h)
positional_id_range (arg ∷ args) id h = elim (Option-cases (parse_int arg)) [
  | inl e ↦ absurd (cc (rw (e, positional_id) at h))
  | inr (n, e) ↦ ground (arith, parse_int_range arg n e)
]

-- The id of a `get` or a `cancel` reaches the server as it is written: whatever number the command takes
-- from its arguments, the request goes to the endpoint for reading or cancelling a job, whose
-- handler reads that number from the path.
pub id_commands_lem :
    (args : List Text) (id : ℕ)
    → positional_id args ≡ inr id
    → ((raw : Text) × (dispatch (text "GET") (get_path id) ≡ some (to_get, raw))
        × (path_id raw ≡ some id))
      × ((raw : Text) × (dispatch (text "POST") (cancel_path id) ≡ some (to_cancel, raw))
          × (path_id raw ≡ some id))
unfolding get_path cancel_path
id_commands_lem args id h =
    let (low, high) = positional_id_range args id h in
    let (plain, clean, kept) = print_nat_segment id in
    let back = path_id-print_nat id low high in
    (
      (print_nat id, dispatch_get (print_nat id) plain clean kept, back),
      (print_nat id, dispatch_cancel (print_nat id) plain clean kept, back),
    )
