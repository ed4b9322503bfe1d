-- ===== src/Limiter/Counters.antt =====
-- What a limiter promises: a counter for each key that starts again when its window has passed. The
-- sweeps and the table are not seen, as long as the table has room.
use ai_social_publisher.Common.{
  ℕ, ◌+◌, ◌≤◌, ◌<◌, ◌≡◌, refl, String, Bool, not, Option, none, some, List, [], ◌∷◌, inl, inr,
  arith, str_eq, if◌then◌else◌, length, Bool-cases, Option-cases, eq_iff, leb, ap, ◌∙◌, sym,
}
use ai_social_publisher.Limiter.{
  Window, Clients, IpRateLimiter, max_tracked_clients, find_client, put_client, sweep, swept,
  tracked_in, allow_key, expired, due, current, counted, serve, new_ip_rate_limiter,
}
use ai_social_publisher.Limiter.Table.{
  length-swept, length-tracked_in_suc, Unique, IsWellFormed, step-IsWellFormed,
  find_client-put_same, find_client-put_other, find_client-filter, find_client-filter-none,
}

-- The counters of all keys.
abbrev pub Counters : Type 0
Counters = String → Option Window

-- A window that has not passed.
abbrev live : (window now : ℕ) → Option Window → Option Window
live window now none = none
live window now (some w) = if expired window now w.started then none else some w

-- The answer to one request, and the counters after it.
abbrev pub count_request : (limit window : ℕ) → String → ℕ → Counters → Bool × Counters
count_request limit window key now c =
    let entry = counted (current window now (c key)) in
    (leb entry.count limit, λ k. if str_eq key k then some entry else c k)

abbrev pub count_all : (limit window : ℕ) → List (String × ℕ) → Counters → List Bool
count_all limit window [] c = []
count_all limit window ((key, now) ∷ rest) c =
    let first = count_request limit window key now c in
    first.0 ∷ count_all limit window rest first.1

-- No request is earlier than the one before it.
abbrev pub InOrder : ℕ → List (String × ℕ) → Type 0
InOrder t [] = Unit
InOrder t ((key, now) ∷ rest) = (t ≤ now) × InOrder now rest

-- The table and the counters have the same windows that have not passed.
abbrev Agree : (window now : ℕ) → Clients → Counters → Type 0
Agree window now xs c = (k : String) → live window now (find_client k xs) ≡ live window now (c k)

live-later :
    (window now then' : ℕ) (o : Option Window)
    → now ≤ then'
    → live window then' (live window now o) ≡ live window then' o
live-later window now then' o h = ground arith

current-live :
    (window now : ℕ) (o : Option Window)
    → current window now (live window now o) ≡ current window now o
current-live window now o = ground arith

find_client-sweep :
    (window now : ℕ) (k : String) (xs : Clients)
    → Unique xs
    → find_client k (sweep window now xs) ≡ live window now (find_client k xs)
unfolding sweep
find_client-sweep window now k xs u = elim (Option-cases (find_client k xs)) [
  | inl e ↦ rw e (find_client-filter-none _ k xs e)
  | inr (w, e) ↦
      let kept = find_client-filter (λ v. not (expired window now v.started)) k xs w u e in
      rw e (kept ∙ ground arith)
]

find_client-swept :
    (window now : ℕ) (last : Option ℕ) (k : String) (xs : Clients)
    → Unique xs
    → live window now (find_client k (swept window now last xs))
      ≡ live window now (find_client k xs)
unfolding swept
find_client-swept window now last k xs u = elim (Bool-cases (due window now last)) [
  | inl t ↦ rw t (
      ap (live window now) (find_client-sweep window now k xs u)
      ∙ live-later window now now (find_client k xs) (omega arith))
  | inr f ↦ rw f refl
]

-- The window that a request finds is the counter's.
same_window :
    (window now : ℕ) (last : Option ℕ) (key : String) (xs : Clients) (c : Counters)
    → Unique xs
    → Agree window now xs c
    → current window now (find_client key (swept window now last xs)) ≡ current window now (c key)
same_window window now last key xs c u agree =
    let o = find_client key (swept window now last xs) in
    sym (current-live window now o)
    ∙ ap (current window now) (find_client-swept window now last key xs u ∙ agree key)
    ∙ current-live window now (c key)

-- With room in the table the request's window is written.
find_client-tracked_in :
    (key k : String) (w : Window) (xs : Clients)
    → length xs < max_tracked_clients
    → find_client k (tracked_in key w xs) ≡ (if str_eq key k then some w else find_client k xs)
unfolding tracked_in
find_client-tracked_in key k w xs room =
    let written : tracked_in key w xs ≡ put_client key w xs = ground arith in
    ap (find_client k) written ∙ elim (Bool-cases (str_eq key k)) [
      | inl t ↦
          let same : key ≡ k = (eq_iff key k).0 t in
          rw t (
            ap (λ i. find_client i (put_client key w xs)) (sym same)
            ∙ find_client-put_same key w xs)
      | inr f ↦ rw f (find_client-put_other key k w xs f)
    ]

-- After a request the windows that have not passed are again the counters'.
Agree-step :
    (limit window now : ℕ) (last : Option ℕ) (key : String) (xs : Clients) (c : Counters)
    → Unique xs
    → length xs < max_tracked_clients
    → Agree window now xs c
    → let ys = swept window now last xs in
      Agree window now
        (tracked_in key (counted (current window now (find_client key ys))) ys)
        (count_request limit window key now c).1
Agree-step limit window now last key xs c u room agree k =
    let ys = swept window now last xs in
    let w = counted (current window now (find_client key ys)) in
    let same : w ≡ counted (current window now (c key)) =
      ap counted (same_window window now last key xs c u agree) in
    let small : length ys < max_tracked_clients =
      omega (arith, length-swept window now last xs, room) in
    ap (live window now) (find_client-tracked_in key k w ys small)
    ∙ elim (Bool-cases (str_eq key k)) [
      | inl t ↦ rw t (ap (λ v. live window now (some v)) same)
      | inr f ↦ rw f (find_client-swept window now last k xs u ∙ agree k)
    ]

Agree-later :
    (window now then' : ℕ) (xs : Clients) (c : Counters)
    → now ≤ then'
    → Agree window now xs c
    → Agree window then' xs c
Agree-later window now then' xs c h agree k =
    sym (live-later window now then' (find_client k xs) h)
    ∙ ap (live window then') (agree k)
    ∙ live-later window now then' (c k) h

pub serve-counts :
    (rs : List (String × ℕ)) (l : IpRateLimiter) (t : ℕ) (c : Counters)
    → InOrder t rs
    → IsWellFormed l.clients
    → length l.clients + length rs ≤ max_tracked_clients
    → Agree l.window t l.clients c
    → (serve rs l).0 ≡ count_all l.limit l.window rs c
unfolding serve allow_key
serve-counts [] l t c order f room agree = refl
serve-counts ((key, now) ∷ rest) l t c order f room agree =
    let here = Agree-later l.window t now l.clients c order.0 agree in
    let ys = swept l.window now l.last_sweep l.clients in
    let w = counted (current l.window now (find_client key ys)) in
    let same = same_window l.window now l.last_sweep key l.clients c f.unique here in
    let first = ap (λ v. leb (counted v).count l.limit) same in
    let others =
      serve-counts rest (allow_key key now l).1 now (count_request l.limit l.window key now c).1
        order.1 (step-IsWellFormed l.window now l.last_sweep key w l.clients f)
        (omega (
          arith,
          room,
          length-swept l.window now l.last_sweep l.clients,
          length-tracked_in_suc key w ys,
        ))
        (Agree-step l.limit l.window now l.last_sweep key l.clients c f.unique (omega (arith, room))
          here) in
    ap (λ b. b ∷ (serve rest (allow_key key now l).1).0) first
    ∙ ap (λ bs. leb (counted (current l.window now (c key))).count l.limit ∷ bs) others

-- A new limiter answers any requests, in the order of their times and at most 50,000 of them, as a
-- counter for each key would that starts again when its window has passed: that expired windows are
-- swept, and when, is never seen in an answer.
pub serve-refines_counters :
    (limit window t : ℕ) (rs : List (String × ℕ))
    → InOrder t rs
    → length rs ≤ max_tracked_clients
    → (serve rs (new_ip_rate_limiter limit window)).0 ≡ count_all limit window rs (λ k. none)
unfolding find_client
serve-refines_counters limit window t rs order few =
    serve-counts rs (new_ip_rate_limiter limit window) t (λ k. none) order
      (record { unique = tt; bounded = omega arith }) (omega (arith, few)) (λ k. refl)
