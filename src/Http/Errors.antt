-- ===== src/Http/Errors.antt =====
-- internal/http/handlers.go: every handler answers, and what a response tells of an error.
use ai_social_publisher.Common.{
  ℕ, ◌+◌, ◌≡◌, ◌⊎◌, refl, String, Bool, true, false, Option, none, some, inl, inr, arith, leb, ◌==◌,
  if◌then◌else◌,
}
use ai_social_publisher.Errors.{Error}
use ai_social_publisher.Exec.{
  Env, State, M, Result, ok, err, pure, attempt, ask, ◌>>=◌, on_result, on_option,
}
use ai_social_publisher.Http.{
  Request, Web, Response, Body, failure, write_json, write_error, status_for_repo_error,
  write_handler_error, reply, api_auth, telegram_callback_auth, check_signature,
}
use ai_social_publisher.Http.Api.{
  Route, accounts_route, sync_route, candidates_route, posts_route, post_route, generate_route,
  approve_route, reject_route, publish_route, schedule_route, unschedule_route, analytics_route,
  sync_answer, get_post, generate_post, approve_post, reject_post, publish_post, schedule_post,
  unschedule_post, accept_callback, telegram_callback, analytics_posts, accounts_answer,
  candidates_answer, posts_answer, handle_route, serve_api, serve_callback,
}
use ai_social_publisher.Approval.Callback.{Callback}

-- A response with code 500 says nothing of its cause.
abbrev pub IsDiscreet : Response → Type 0
IsDiscreet r = ((r.code == 500) ≡ false) ⊎ (r.body ≡ failure "internal server error")

-- An action that returns such a response, whatever happens.
record Answers (m : M Response) : Type 0 where
  at : (env : Env) (s : State) → (r : Response) × ((m env s).0 ≡ ok r) × IsDiscreet r

Answers-json : (code : ℕ) (body : Body) → (code == 500) ≡ false → Answers (write_json code body)
unfolding pure
Answers-json code body h = record {
  at = λ env s. (record { code = code; body = body }, refl, inl h);
}

status_for_repo_error-cases :
    (e : Error)
    → (leb 500 (status_for_repo_error e) ≡ true)
      ⊎ ((leb 500 (status_for_repo_error e) ≡ false) × ((status_for_repo_error e == 500) ≡ false))
unfolding status_for_repo_error
status_for_repo_error-cases e = ground arith

Answers-if : (b : Bool) (m n : M Response) → Answers m → Answers n → Answers (if b then m else n)
Answers-if true m n km kn = km
Answers-if false m n km kn = kn

Answers-on_option :
    {A : Type 0} (o : Option A) (k : A → M Response) (h : M Response)
    → ((a : A) → Answers (k a))
    → Answers h
    → Answers (on_option o k h)
Answers-on_option none k h kk kh = kh
Answers-on_option (some a) k h kk kh = kk a

Answers-ask :
    {A : Type 0} (f : Env → ℕ → A) (k : A → M Response)
    → ((a : A) → Answers (k a))
    → Answers (ask f >>= k)
unfolding ask ◌>>=◌
Answers-ask f k kk = record {
  at = λ env s. (kk (f env s.calls)).at env (record s { calls = s.calls + 1 });
}

Answers-error : (e : Error) → Answers (write_handler_error e)
unfolding write_handler_error pure
Answers-error e = record {
  at = λ env s. elim (status_for_repo_error-cases e) [
    | inl server ↦ rw server (_, refl, inr refl)
    | inr (client, code) ↦ rw client (_, refl, inl code)
  ];
}

after_result-Answers :
    {A : Type 0} (x : Result A) (k : A → M Response)
    → ((a : A) → Answers (k a))
    → Answers (on_result x k write_handler_error)
after_result-Answers (ok a) k kk = kk a
after_result-Answers (err e) k kk = Answers-error e

Answers-reply :
    {A : Type 0} (m : M A) (k : A → M Response) → ((a : A) → Answers (k a)) → Answers (reply m k)
unfolding reply attempt ◌>>=◌
Answers-reply m k kk = record {
  at = λ env s. (after_result-Answers (m env s).0 k kk).at env (m env s).1;
}

Answers-write : (code : ℕ) (text : String) → (code == 500) ≡ false → Answers (write_error code text)
Answers-write code text h = Answers-json code (failure text) h

ruleset answers = (Answers-json, Answers-if, Answers-on_option, Answers-ask, Answers-reply)

sync_answer-Answers : (a : ℕ × Option Error) → Answers (sync_answer a)
unfolding sync_answer
sync_answer-Answers (n, none) = Answers-json 200 _ refl
sync_answer-Answers (n, some e) =
    Answers-if _ _ _ (Answers-json 207 _ refl) (Answers-json 502 _ refl)

handle_route-Answers :
    (web : Web) (route : Route) (req : Request) → Answers (handle_route web route req)
unfolding handle_route get_post generate_post approve_post reject_post publish_post schedule_post
    unschedule_post analytics_posts accounts_answer candidates_answer posts_answer
handle_route-Answers web accounts_route req = search answers
handle_route-Answers web sync_route req = search (answers, sync_answer-Answers)
handle_route-Answers web candidates_route req = search answers
handle_route-Answers web posts_route req = search answers
handle_route-Answers web post_route req = search answers
handle_route-Answers web generate_route req = search answers
handle_route-Answers web approve_route req = search answers
handle_route-Answers web reject_route req = search answers
handle_route-Answers web publish_route req = search answers
handle_route-Answers web schedule_route req = search answers
handle_route-Answers web unschedule_route req = search answers
handle_route-Answers web analytics_route req = search answers

check_signature-Answers :
    (web : Web) (req : Request) (body provided : String) (now : ℕ) (next : M Response)
    → Answers next
    → Answers (check_signature web req body provided now next)
unfolding check_signature
check_signature-Answers web req body provided now next k = search answers

accept_callback-Answers : (web : Web) (cb : Callback) → Answers (accept_callback web cb)
unfolding accept_callback
accept_callback-Answers web cb = search answers depth 8

serve_callback-Answers : (web : Web) (req : Request) → Answers (serve_callback web req)
unfolding serve_callback telegram_callback telegram_callback_auth
serve_callback-Answers web req =
    search (answers, check_signature-Answers, accept_callback-Answers) depth 8

serve_api-Answers : (web : Web) (route : Route) (req : Request) → Answers (serve_api web route req)
unfolding serve_api api_auth
serve_api-Answers web route req = search (answers, handle_route-Answers)

-- Every request of the API and every callback is answered, whatever fails, and a response with code
-- 500 tells nothing of the error but "internal server error".
pub serve-Answers :
    (web : Web) (route : Route) (req : Request) (env : Env) (s : State)
    → ((r : Response) × ((serve_api web route req env s).0 ≡ ok r) × IsDiscreet r)
      × ((r : Response) × ((serve_callback web req env s).0 ≡ ok r) × IsDiscreet r)
serve-Answers web route req env s =
    ((serve_api-Answers web route req).at env s, (serve_callback-Answers web req).at env s)
