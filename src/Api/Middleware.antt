-- ===== src/Api/Middleware.antt =====
-- internal/api/middleware.go: the wrappers around the handlers.
use jobqueue.Common.{
  ◌==◌, if◌then◌else◌, Bool-cases, Option-cases, some_injective, Text, text, text_eq, text_eq_iff,
  text_eq_refl, cut_prefix, trim_prefix, ◌≡◌, refl, sym, ap, ◌∙◌, ◌⊎◌, inl, inr, not, some, [], ◌∷◌,
  ◌++◌, arith,
}
use jobqueue.Store.{Db}
use jobqueue.Api.{write_error, Handler, unauthorized, literal}

abbrev bearer : Text
bearer = text "Bearer "

-- The mux or another wrapper behind the token check, with the request's path and Authorization header.
unfoldable pub auth : Text → Text → Text → Handler → Handler
unfolding text_eq trim_prefix
auth token path header next db =
    if text_eq token []
    then next db
    else if text_eq path (text "/healthz")
    then next db
    else if not (text_eq (trim_prefix header bearer) token)
    then (write_error 401 unauthorized (literal (text "invalid or missing bearer token")), db)
    else next db

trim-cases :
    (t p : Text)
    → (trim_prefix t p ≡ t)
      ⊎ ((rest : Text) × (trim_prefix t p ≡ rest) × (cut_prefix p t ≡ some rest))
unfolding trim_prefix
trim-cases t p = elim (Option-cases (cut_prefix p t)) [
  | inl e ↦ inl (rw (e, trim_prefix) refl)
  | inr (rest, e) ↦ inr (rest, rw (e, trim_prefix) refl, e)
]

cut_append : (p t : Text) → cut_prefix p (p ++ t) ≡ some t
unfolding cut_prefix
cut_append [] t = refl
cut_append (a ∷ p) t = ground (arith, cut_append p t)

cut_sound : (p t rest : Text) → cut_prefix p t ≡ some rest → t ≡ p ++ rest
unfolding cut_prefix
cut_sound [] t rest h = some_injective h
cut_sound (a ∷ p) [] rest h = absurd (cc h)
cut_sound (a ∷ p) (b ∷ t) rest h = elim (Bool-cases (a == b)) [
  | inl e ↦ grind (arith, cut_sound p t rest)
  | inr e ↦ absurd (cc (h, e))
]

trim_append : (p t : Text) → trim_prefix (p ++ t) p ≡ t
unfolding trim_prefix
trim_append p t = rw (cut_append p t, trim_prefix) refl

-- The header that a client with a token sends.
abbrev pub authorization : Text → Text
authorization token = bearer ++ token

-- A header whose trimmed rest is the token is the client's, or the bare token.
trimmed_token :
    (token header : Text)
    → trim_prefix header bearer ≡ token
    → (header ≡ authorization token) ⊎ (header ≡ token)
trimmed_token token header h = elim (trim-cases header bearer) [
  | inl e ↦ inr (sym e ∙ h)
  | inr (rest, e, k) ↦ inl (cut_sound bearer header rest k ∙ ap authorization (sym e ∙ h))
]

-- A request whose header is `Bearer ` and the configured token reaches the handler, on any path.
-- One that reaches it all the same, or gets another answer than the 401 that leaves the database as
-- it was, comes to a server without a token, asks for the health check, or sends the bare token.
pub auth_outcome :
    (token path header : Text) (next : Handler) (db : Db)
    → (auth token path (authorization token) next db ≡ next db)
      × ((auth token path header next db
            ≡ (write_error 401 unauthorized (literal (text "invalid or missing bearer token")), db))
          ⊎ ((auth token path header next db ≡ next db)
              × ((token ≡ [])
                  ⊎ (path ≡ text "/healthz")
                  ⊎ (header ≡ authorization token)
                  ⊎ (header ≡ token))))
unfolding auth
auth_outcome token path header next db = (
  ground (arith, trim_append bearer token, text_eq_refl token),
  elim (Bool-cases (text_eq token [])) [
    | inl e ↦ inr (rw e refl, inl ((text_eq_iff token []).0 e))
    | inr n ↦ elim (Bool-cases (text_eq path (text "/healthz"))) [
      | inl e ↦ inr (rw (n, e) refl, inr (inl ((text_eq_iff path (text "/healthz")).0 e)))
      | inr m ↦ elim (Bool-cases (text_eq (trim_prefix header bearer) token)) [
        | inl e ↦ inr (
          rw (n, m, e) refl,
          inr (
              inr
                (trimmed_token token header ((text_eq_iff (trim_prefix header bearer) token).0 e))),
        )
        | inr e ↦ inl (rw (n, m, e) refl)
      ]
    ]
  ],
)
