-- ===== src/Tests/Requests.antt =====
-- The theorems on requests, limits and sessions, on concrete requests.
use ai_social_publisher.Common.{
  ℕ, ◌*◌, ◌≤◌, ◌≡◌, refl, ap, sym, ◌∙◌, String, Bool, true, false, Option, none, some, List, [],
  ◌∷◌, inl, inr, arith, str_eq, if◌then◌else◌,
}
use Prim.Native.String.{◌++◌}
use ai_social_publisher.Status.{◌is◌, skipped, waiting_first_approval}
use ai_social_publisher.Rows.{Job}
use ai_social_publisher.Store.{find_job}
use ai_social_publisher.Exec.{Env, State, ok}
use ai_social_publisher.Approval.Callback.{Callback}
use ai_social_publisher.Limiter.{
  Net, serve, new_ip_rate_limiter, login_serve, new_login_limiter, rate_limit_key, minute,
}
use ai_social_publisher.Limiter.Table.{IsWellFormed, serve-IsWellFormed}
use ai_social_publisher.Limiter.Counters.{count_all, serve-refines_counters}
use ai_social_publisher.Limiter.Grants.{
  granted, with_key, serve-granted_le, login_serve-refines_counters,
}
use ai_social_publisher.Http.{Web, Request, Response}
use ai_social_publisher.Http.Api.{Route, reject_route, serve_api, serve_callback, is_read}
use ai_social_publisher.Http.Access.{
  Unchanged, Bears, Accepted, serve_api-changes, serve_callback-changes,
}
use ai_social_publisher.Http.Errors.{IsDiscreet, serve-Answers}
use ai_social_publisher.Admin.{Codec, SessionData, create, payload_of, verify}
use ai_social_publisher.Admin.Session.{Base64Laws, Genuine, verify-create, verify-Genuine}
use ai_social_publisher.Tests.{env, state}

abbrev skip : Callback
skip = record { action = "SKIP_NEWS"; payload = "7"; user = "me" }

abbrev web : Web
web = record {
  api_token = "secret";
  callback_secret = "s";
  allowed_users = "me" ∷ [];
  decode_approve = λ text. none;
  decode_schedule = λ text. none;
  decode_callback = λ text. some skip;
  parse_time = λ text. none;
  hex_decode = λ text. some text;
  hmac_sha256 = λ key text. key ++ text;
}

abbrev request : Request
request = record {
  path_id = "7";
  limit = "";
  authorization = "Bearer secret";
  signature = "s0.{}";
  timestamp = "0";
  body = some "{}";
}

abbrev after_skip : Option Job → Bool
after_skip none = false
after_skip (some j) = j.status is skipped

abbrev before : State
before = state waiting_first_approval

clash : true ≡ false → ⊥
clash h = ground (arith, h)

-- The job is skipped, which its status tells.
reject_skips : after_skip (find_job 7 (serve_api web reject_route request env before).1.db) ≡ true
unfolding ai_social_publisher.Table.find_by serve_api ai_social_publisher.Common.cut_prefix
    ai_social_publisher.Common.trim_space ai_social_publisher.Common.parse_id
    ai_social_publisher.Exec.◌>>=◌ ai_social_publisher.Approval.Queue.skip_job
    ai_social_publisher.Post.Jobs.update_status ai_social_publisher.Exec.transaction
    ai_social_publisher.Exec.query ai_social_publisher.Status.can_transition
    ai_social_publisher.Status.Status-discrete ai_social_publisher.Store.update_job
    ai_social_publisher.Store.job_fits ai_social_publisher.Store.variant_of_job
    ai_social_publisher.Table.put_by
reject_skips = refl

was_waiting : after_skip (find_job 7 before.db) ≡ false
unfolding ai_social_publisher.Table.find_by ai_social_publisher.Status.Status-discrete
was_waiting = refl

reject_changes : ¬ Unchanged before (serve_api web reject_route request env before).1
reject_changes k =
    let kept : after_skip (find_job 7 (serve_api web reject_route request env before).1.db)
        ≡ false =
      ap (λ d. after_skip (find_job 7 d)) k.tables ∙ was_waiting in
    clash (sym reject_skips ∙ kept)

serve_api-changes_example : Bears web request × (is_read reject_route ≡ false)
serve_api-changes_example = serve_api-changes web reject_route request env before reject_changes

callback_skips : after_skip (find_job 7 (serve_callback web request env before).1.db) ≡ true
unfolding ai_social_publisher.Table.find_by serve_callback ai_social_publisher.Exec.◌>>=◌
    ai_social_publisher.Common.parse_id ai_social_publisher.Common.concat
    ai_social_publisher.Http.Api.telegram_callback ai_social_publisher.Common.one_of
    ai_social_publisher.Approval.Callback.handle_callback
    ai_social_publisher.Approval.Queue.skip_job ai_social_publisher.Post.Jobs.update_status
    ai_social_publisher.Exec.transaction ai_social_publisher.Exec.query
    ai_social_publisher.Status.can_transition ai_social_publisher.Status.Status-discrete
    ai_social_publisher.Store.update_job ai_social_publisher.Store.job_fits
    ai_social_publisher.Store.variant_of_job ai_social_publisher.Table.put_by
callback_skips = refl

callback_changes : ¬ Unchanged before (serve_callback web request env before).1
callback_changes k =
    let kept : after_skip (find_job 7 (serve_callback web request env before).1.db) ≡ false =
      ap (λ d. after_skip (find_job 7 d)) k.tables ∙ was_waiting in
    clash (sym callback_skips ∙ kept)

serve_callback-changes_example : Accepted web request (env.clock before.calls)
serve_callback-changes_example = serve_callback-changes web request env before callback_changes

serve-Answers_example :
    ((r : Response) × ((serve_api web reject_route request env before).0 ≡ ok r) × IsDiscreet r)
    × ((r : Response) × ((serve_callback web request env before).0 ≡ ok r) × IsDiscreet r)
serve-Answers_example = serve-Answers web reject_route request env before

-- Two requests of one client and one of another.
abbrev asked : List (String × ℕ)
asked = ("a", 10) ∷ ("b", 11) ∷ ("a", 12) ∷ []

serve-refines_counters_example :
    (serve asked (new_ip_rate_limiter 1 minute)).0 ≡ count_all 1 minute asked (λ k. none)
serve-refines_counters_example =
    serve-refines_counters 1 minute 0 asked (omega arith, (omega arith, (omega arith, tt)))
      (omega arith)

empty_table : IsWellFormed []
empty_table = record { unique = tt; bounded = omega arith }

serve-granted_le_example : granted "a" asked (serve asked (new_ip_rate_limiter 1 minute)).0 ≤ 2 * 1
serve-granted_le_example =
    serve-granted_le (new_ip_rate_limiter 1 minute) 10 asked "a" empty_table (omega arith)
      (omega arith, (omega arith, (omega arith, tt)))
      ((omega arith, omega arith), ((omega arith, omega arith), ((omega arith, omega arith), tt)))

serve-IsWellFormed_example : IsWellFormed (serve asked (new_ip_rate_limiter 1 minute)).1.clients
serve-IsWellFormed_example = serve-IsWellFormed asked (new_ip_rate_limiter 1 minute) empty_table

abbrev net : Net String
net = record {
  split_host_port = λ s. none;
  parse_ip = λ s. none;
  to4 = λ s. none;
  mask64 = λ s. s;
  ip_string = λ s. s;
}

login_serve-refines_counters_example :
    (login_serve net asked new_login_limiter).0
    ≡ count_all 5 minute (with_key (rate_limit_key net) asked) (λ k. none)
login_serve-refines_counters_example =
    login_serve-refines_counters net 0 asked (omega arith, (omega arith, (omega arith, tt)))
      (omega arith)

-- Every signature is "mac".
abbrev codec : Codec
codec = record { hmac = λ s. "mac"; encode = λ s. "bWFj"; decode = λ s. some "mac" }

codec_laws : Base64Laws codec
codec_laws = record {
  dotless = λ s. (refl, (refl, (refl, (refl, tt))));
  signature_some = λ s. refl;
  round_trip = λ s. refl;
}

verify-create_example :
    verify codec (create codec 0 "n").0 7
    ≡ some (record { payload = payload_of codec 0 "n"; csrf = (create codec 0 "n").1 })
verify-create_example = verify-create codec 0 7 "n" codec_laws (omega arith) (omega arith)

abbrev session : SessionData
session = record { payload = payload_of codec 0 "n"; csrf = (create codec 0 "n").1 }

verify-Genuine_example : Genuine codec (create codec 0 "n").0 7 session
verify-Genuine_example = verify-Genuine codec (create codec 0 "n").0 7 session verify-create_example
