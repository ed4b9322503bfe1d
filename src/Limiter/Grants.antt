-- ===== src/Limiter/Grants.antt =====
-- How many requests of one client a limiter lets through, and the limiter of the log-in.
use ai_social_publisher.Common.{
  ℕ, suc, ◌+◌, ◌*◌, ◌-◌, ◌≤◌, ◌<◌, ◌≡◌, refl, String, Bool, ◌&&◌, Option, none, some, List, [], ◌∷◌,
  inl, inr, arith, str_eq, eq_iff, if◌then◌else◌, length, Bool-cases, leb, ap, subst, ◌∙◌,
}
use ai_social_publisher.Limiter.{
  Window, IpRateLimiter, LoginLimiter, Net, max_tracked_clients, find_client, rate_limit_key,
  allow_key, login_allow, current, counted, serve, minute, login_serve, new_login_limiter,
}
use ai_social_publisher.Limiter.Table.{IsWellFormed}
use ai_social_publisher.Limiter.Counters.{
  Counters, count_request, count_all, InOrder, serve-counts, serve-refines_counters,
}

-- The requests of a key that were let through.
abbrev pub granted : String → List (String × ℕ) → List Bool → ℕ
granted key [] answers = 0
granted key ((k, now) ∷ rest) [] = 0
granted key ((k, now) ∷ rest) (b ∷ bs) =
    let others = granted key rest bs in if str_eq k key && b then others + 1 else others

-- All requests are in the window that starts at `t`.
abbrev pub Within : (window t : ℕ) → List (String × ℕ) → Type 0
Within window t [] = Unit
Within window t ((key, now) ∷ rest) = ((t ≤ now) × (now < t + window)) × Within window t rest

-- How many more can be let through before `t + window`.
abbrev room_left : (limit t : ℕ) → Option Window → ℕ
room_left limit t none = limit
room_left limit t (some w) = if leb t w.started then limit - w.count else (limit - w.count) + limit

room_left-counted :
    (limit window t now : ℕ) (o : Option Window)
    → t ≤ now
    → now < t + window
    → (if leb (counted (current window now o)).count limit then 1 else 0)
        + room_left limit t (some (counted (current window now o)))
      ≤ room_left limit t o
room_left-counted limit window t now o early late = ground arith

room_left_le : (limit t : ℕ) (o : Option Window) → room_left limit t o ≤ 2 * limit
room_left_le limit t o = ground arith

granted_le :
    (limit window t : ℕ) (key : String) (rs : List (String × ℕ)) (c : Counters)
    → Within window t rs
    → granted key rs (count_all limit window rs c) ≤ room_left limit t (c key)
granted_le limit window t key [] c h = omega arith
granted_le limit window t key ((k, now) ∷ rest) c h =
    let entry = counted (current window now (c k)) in
    let others =
      granted key rest (count_all limit window rest (count_request limit window k now c).1) in
    let more : others ≤ room_left limit t (if str_eq k key then some entry else c key) =
      granted_le limit window t key rest (count_request limit window k now c).1 h.1 in
    elim (Bool-cases (str_eq k key)) [
      | inl own ↦
          let same = ap (λ i. room_left limit t (c i)) ((eq_iff k key).0 own) in
          let left =
            subst (λ b. others ≤ room_left limit t (if b then some entry else c key)) own more in
          let one = room_left-counted limit window t now (c k) h.0.0 h.0.1 in
          rw own (ground (arith, same, left, one))
      | inr other ↦
          let left =
            subst (λ b. others ≤ room_left limit t (if b then some entry else c key)) other more in
          rw other left
    ]

-- In any stretch of time as long as the window, a limiter whose table has room lets through at most
-- twice its limit of one client's requests, whatever the other clients send.
pub serve-granted_le :
    (l : IpRateLimiter) (t : ℕ) (rs : List (String × ℕ)) (key : String)
    → IsWellFormed l.clients
    → length l.clients + length rs ≤ max_tracked_clients
    → InOrder t rs
    → Within l.window t rs
    → granted key rs (serve rs l).0 ≤ 2 * l.limit
serve-granted_le l t rs key f room order within =
    let c : Counters = λ k. find_client k l.clients in
    let same = serve-counts rs l t c order f room (λ k. refl) in
    let all = granted_le l.limit l.window t key rs c within in
    omega (arith, ap (granted key rs) same, all, room_left_le l.limit t (c key))

abbrev as_ip : LoginLimiter → IpRateLimiter
as_ip l = record { limit = 5; window = minute; clients = l.clients; last_sweep = l.last_sweep }

abbrev pub with_key : (String → String) → List (String × ℕ) → List (String × ℕ)
with_key f [] = []
with_key f ((remote, now) ∷ rest) = (f remote, now) ∷ with_key f rest

login_serve-serve :
    {Ip : Type 0} (net : Net Ip) (rs : List (String × ℕ)) (l : LoginLimiter)
    → (login_serve net rs l).0 ≡ (serve (with_key (rate_limit_key net) rs) (as_ip l)).0
unfolding login_serve serve login_allow allow_key
login_serve-serve net [] l = refl
login_serve-serve net ((remote, now) ∷ rest) l =
    ap (λ bs. (login_allow net remote now l).0 ∷ bs)
      (login_serve-serve net rest (login_allow net remote now l).1)

InOrder-keys :
    (t : ℕ) (f : String → String) (rs : List (String × ℕ))
    → InOrder t rs
    → InOrder t (with_key f rs)
InOrder-keys t f [] h = tt
InOrder-keys t f ((k, now) ∷ rest) h = (h.0, InOrder-keys now f rest h.1)

length-with_key :
    (f : String → String) (rs : List (String × ℕ)) → length (with_key f rs) ≡ length rs
length-with_key f [] = refl
length-with_key f ((k, now) ∷ rest) = ap suc (length-with_key f rest)

-- The log-in form's limiter answers any attempts, in the order of their times and at most 50,000 of
-- them, as a counter for each address (an IPv6 address by its /64) would that allows five attempts
-- and starts again after a minute.
pub login_serve-refines_counters :
    {Ip : Type 0} (net : Net Ip) (t : ℕ) (rs : List (String × ℕ))
    → InOrder t rs
    → length rs ≤ max_tracked_clients
    → (login_serve net rs new_login_limiter).0
      ≡ count_all 5 minute (with_key (rate_limit_key net) rs) (λ k. none)
login_serve-refines_counters net t rs order few =
    let keys = with_key (rate_limit_key net) rs in
    login_serve-serve net rs new_login_limiter
    ∙ serve-refines_counters 5 minute t keys (InOrder-keys t _ rs order)
        (omega (arith, few, length-with_key (rate_limit_key net) rs))
