-- ===== src/Http/Access.antt =====
-- Who may change anything through internal/http: a request that changes the tables, or publishes, has
-- the operator's token or is an accepted callback.
use ai_social_publisher.Common.{
  ℕ, ◌+◌, ◌≡◌, refl, ap, ◌∙◌, String, Bool, true, false, ◌||◌, Option, none, some, inl, inr, arith,
  Bool-cases, Option-cases, parse_id, one_of, str_eq, eq_iff, trim_space, cut_prefix, if◌then◌else◌,
}
use ai_social_publisher.Rows.{Db}
use ai_social_publisher.Errors.{Error}
use ai_social_publisher.Exec.{
  Env, State, M, Result, ok, err, on_option, on_result, query, pure, ask, ◌>>=◌,
}
use ai_social_publisher.Exec.Rules.{
  Any, Moves, IsStable, Moves-pure, Moves-attempt, Moves-bind, Moves-query, Moves-if,
}
use ai_social_publisher.News.{list_candidates}
use ai_social_publisher.Account.{list_accounts}
use ai_social_publisher.Post.Jobs.{list, get_by_id}
use ai_social_publisher.Post.Review.{list_variants}
use ai_social_publisher.Post.Logs.{status_counts}
use ai_social_publisher.Outbox.{counts}
use ai_social_publisher.Approval.Callback.{Callback}
use ai_social_publisher.Http.{
  Request, Web, Response, write_handler_error, reply, bearer, secure_equal, api_auth, is_authorized,
  is_fresh, signature_of, check_signature, telegram_callback_auth,
}
use ai_social_publisher.Http.Api.{
  Route, accounts_route, sync_route, candidates_route, posts_route, post_route, generate_route,
  approve_route, reject_route, publish_route, schedule_route, unschedule_route, analytics_route,
  is_read, get_post, analytics_posts, accounts_answer, candidates_answer, posts_answer,
  handle_route, serve_api, serve_callback, telegram_callback, accept_callback, telegram_actions,
  is_positive, telegram_user_allowed,
}

-- Nothing has changed but the counters.
pub record Unchanged (s t : State) : Type 0 where
  pub tables : t.db ≡ s.db
  pub publications : t.published ≡ s.published

abbrev u : IsStable Unchanged
u = record {
  refl_ticks = λ s n k. record { tables = refl; publications = refl };
  trans = λ s t v a b. record {
    tables = b.tables ∙ a.tables;
    publications = b.publications ∙ a.publications;
  };
}

same-pure : {A : Type 0} (a : A) → Moves Any Unchanged (pure a)
same-pure a = Moves-pure u a

same-if :
    {A : Type 0} (b : Bool) (m n : M A)
    → Moves Any Unchanged m
    → Moves Any Unchanged n
    → Moves Any Unchanged (if b then m else n)
same-if b m n km kn = Moves-if u b m n (λ _. km) (λ _. kn)

same-on_option :
    {A : Type 0} {B : Type 0} (o : Option A) (k : A → M B) (h : M B)
    → ((a : A) → Moves Any Unchanged (k a))
    → Moves Any Unchanged h
    → Moves Any Unchanged (on_option o k h)
same-on_option none k h kk kh = kh
same-on_option (some a) k h kk kh = kk a

write_handler_error-same : (e : Error) → Moves Any Unchanged (write_handler_error e)
unfolding write_handler_error
write_handler_error-same e = search (same-pure, same-if)

after_result-same :
    {A : Type 0} (x : Result A) (k : A → M Response)
    → ((a : A) → Moves Any Unchanged (k a))
    → Moves Any Unchanged (on_result x k write_handler_error)
after_result-same (ok a) k kk = kk a
after_result-same (err e) k kk = write_handler_error-same e

reply-same :
    {A : Type 0} (m : M A) (k : A → M Response)
    → Moves Any Unchanged m
    → ((a : A) → Moves Any Unchanged (k a))
    → Moves Any Unchanged (reply m k)
unfolding reply
reply-same m k km kk = Moves-bind u _ _ (Moves-attempt u m km) (λ x. after_result-same x k kk)

query-same : {A : Type 0} (f : Db → Result A) → Moves Any Unchanged (query f)
query-same f = Moves-query u f

ruleset same = (same-pure, same-if, same-on_option, reply-same, query-same)

read-Unchanged :
    (web : Web) (route : Route) (req : Request)
    → is_read route ≡ true
    → Moves Any Unchanged (handle_route web route req)
unfolding handle_route get_post analytics_posts accounts_answer candidates_answer posts_answer
    list_accounts list_candidates list get_by_id list_variants status_counts counts
read-Unchanged web accounts_route req h = search same
read-Unchanged web candidates_route req h = search same
read-Unchanged web posts_route req h = search same
read-Unchanged web post_route req h = search same
read-Unchanged web analytics_route req h = search same
read-Unchanged web sync_route req h = absurd (ground arith)
read-Unchanged web generate_route req h = absurd (ground arith)
read-Unchanged web approve_route req h = absurd (ground arith)
read-Unchanged web reject_route req h = absurd (ground arith)
read-Unchanged web publish_route req h = absurd (ground arith)
read-Unchanged web schedule_route req h = absurd (ground arith)
read-Unchanged web unschedule_route req h = absurd (ground arith)

-- The `Authorization` header carries the token.
abbrev pub Bears : Web → Request → Type 0
Bears web req =
    (rest : String) × (cut_prefix "Bearer " req.authorization ≡ some rest)
    × (trim_space rest ≡ web.api_token)

secure_equal-eq : (a b : String) → secure_equal a b ≡ true → a ≡ b
secure_equal-eq a b h = (eq_iff a b).0 (ground arith)

bearer-eq :
    (o : Option String) (token : String)
    → bearer o token ≡ true
    → (rest : String) × (o ≡ some rest) × (trim_space rest ≡ token)
bearer-eq none token h = absurd (ground arith)
bearer-eq (some rest) token h = (rest, refl, secure_equal-eq (trim_space rest) token h)

kept : (s : State) → Unchanged s s
kept s = record { tables = refl; publications = refl }

-- A request of the API that changes a table, or publishes, carries the API token, and is not one of
-- the GET routes.
pub serve_api-changes :
    (web : Web) (route : Route) (req : Request) (env : Env) (s : State)
    → ¬ Unchanged s (serve_api web route req env s).1
    → Bears web req × (is_read route ≡ false)
unfolding serve_api api_auth is_authorized pure
serve_api-changes web route req env s changed = elim (Bool-cases (is_authorized web req)) [
  | inr stranger ↦ absurd (changed (rw stranger (kept s)))
  | inl known ↦ elim (Bool-cases (is_read route)) [
    | inl reads ↦ absurd (changed (rw known ((read-Unchanged web route req reads).at env s tt)))
    | inr writes ↦ (bearer-eq (cut_prefix "Bearer " req.authorization) web.api_token known, writes)
  ]
]

-- What has been checked of a callback: its signature over the timestamp and the body, the time, the
-- action, the payload and the user.
pub record Accepted (web : Web) (req : Request) (now : ℕ) : Type 0 where
  pub body : String
  pub cb : Callback
  pub has_body : req.body ≡ some body
  pub signed : web.hex_decode req.signature ≡ some (signature_of web req.timestamp body)
  pub fresh : is_fresh now (parse_id req.timestamp) ≡ true
  pub decoded : web.decode_callback body ≡ some cb
  pub known_action : one_of cb.action telegram_actions ≡ true
  pub has_id : is_positive (parse_id cb.payload) ≡ true
  pub allowed : telegram_user_allowed web.allowed_users cb.user ≡ true

accept_callback-changes :
    (web : Web) (cb : Callback) (env : Env) (s : State)
    → ¬ Unchanged s (accept_callback web cb env s).1
    → (one_of cb.action telegram_actions ≡ true)
      × (is_positive (parse_id cb.payload) ≡ true)
      × (telegram_user_allowed web.allowed_users cb.user ≡ true)
unfolding accept_callback pure
accept_callback-changes web cb env s changed =
    elim (Bool-cases (str_eq cb.action "" || str_eq cb.payload "")) [
      | inl missing ↦ absurd (changed (rw missing (kept s)))
      | inr given ↦ elim (Bool-cases (one_of cb.action telegram_actions)) [
        | inr unknown ↦ absurd (changed (rw (given, unknown) (kept s)))
        | inl action ↦ elim (Bool-cases (is_positive (parse_id cb.payload))) [
          | inr no_id ↦ absurd (changed (rw (given, action, no_id) (kept s)))
          | inl id ↦ elim (Bool-cases (telegram_user_allowed web.allowed_users cb.user)) [
            | inr stranger ↦ absurd (changed (rw (given, action, id, stranger) (kept s)))
            | inl user ↦ (action, id, user)
          ]
        ]
      ]
    ]

-- The time was read in between.
kept_later : (s t : State) → Unchanged (record s { calls = s.calls + 1 }) t → Unchanged s t
kept_later s t k = record { tables = k.tables; publications = k.publications }

telegram_callback-changes :
    (web : Web) (req : Request) (body : String) (env : Env) (s : State)
    → req.body ≡ some body
    → ¬ Unchanged s (telegram_callback web req env s).1
    → (cb : Callback) × (web.decode_callback body ≡ some cb)
      × (¬ Unchanged s (accept_callback web cb env s).1)
unfolding telegram_callback pure
telegram_callback-changes web req body env s has changed =
    elim (Option-cases (web.decode_callback body)) [
      | inl bad ↦ absurd (changed (rw (has, bad) (kept s)))
      | inr (cb, good) ↦ (cb, good, λ same. changed (rw (has, good) same))
    ]

telegram_callback_auth-changes :
    (web : Web) (req : Request) (next : M Response) (env : Env) (s : State)
    → ¬ Unchanged s (telegram_callback_auth web req next env s).1
    → (body : String) × (req.body ≡ some body)
      × (web.hex_decode req.signature ≡ some (signature_of web req.timestamp body))
      × (is_fresh (env.clock s.calls) (parse_id req.timestamp) ≡ true)
      × (¬ Unchanged
          (record s { calls = s.calls + 1 })
          (next env (record s { calls = s.calls + 1 })).1)
unfolding telegram_callback_auth check_signature pure ask ◌>>=◌
telegram_callback_auth-changes web req next env s changed = elim (Option-cases req.body) [
  | inl no_body ↦ absurd (changed (rw no_body (kept s)))
  | inr (body, has) ↦ elim (Option-cases (web.hex_decode req.signature)) [
    | inl no_hex ↦ absurd (changed (rw (has, no_hex) (kept s)))
    | inr (provided, hex) ↦
        elim (Bool-cases (is_fresh (env.clock s.calls) (parse_id req.timestamp))) [
          | inr old ↦ absurd (changed (rw (has, hex, old) (kept_later s _ (kept _))))
          | inl fresh ↦ elim (Bool-cases (str_eq provided (signature_of web req.timestamp body))) [
            | inr forged ↦ absurd (changed (rw (has, hex, fresh, forged) (kept_later s _ (kept _))))
            | inl signed ↦
                let same = (eq_iff provided (signature_of web req.timestamp body)).0 signed in
                (
                  body,
                  has,
                  hex ∙ ap some same,
                  fresh,
                  λ k. changed (rw (has, hex, fresh, signed) (kept_later s _ k)),
                )
          ]
        ]
  ]
]

-- A callback that changes a table, or publishes, has a signature of its timestamp and body under the
-- shared secret, a timestamp at most five minutes away, a known action, a positive id and a user who
-- is on the list.
pub serve_callback-changes :
    (web : Web) (req : Request) (env : Env) (s : State)
    → ¬ Unchanged s (serve_callback web req env s).1
    → Accepted web req (env.clock s.calls)
unfolding serve_callback
serve_callback-changes web req env s changed =
    let (body, has, signed, fresh, acted) =
      telegram_callback_auth-changes web req (telegram_callback web req) env s changed in
    let later : State = record s { calls = s.calls + 1 } in
    let (cb, decoded, done) = telegram_callback-changes web req body env later has acted in
    let (action, id, user) = accept_callback-changes web cb env later done in
    record {
      body = body;
      cb = cb;
      has_body = has;
      signed = signed;
      fresh = fresh;
      decoded = decoded;
      known_action = action;
      has_id = id;
      allowed = user;
    }
