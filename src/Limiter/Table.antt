-- ===== src/Limiter/Table.antt =====
-- The client table of a limiter: it has one entry for a key and never more than the maximum.
use ai_social_publisher.Common.{
  ℕ, ◌+◌, ◌≤◌, ◌≡◌, refl, String, Bool, false, Option, none, some, List, [], ◌∷◌, inl, inr, arith,
  str_eq, is_some, if◌then◌else◌, filter, length, Bool-cases, eq_iff, eq_refl, some_inj, subst, ◌∙◌,
}
use ai_social_publisher.Limiter.{
  Window, Clients, IpRateLimiter, max_tracked_clients, find_client, put_client, sweep, swept,
  tracked_in, allow_key, due, serve,
}

-- One entry for a key.
abbrev pub Unique : Clients → Type 0
Unique [] = Unit
Unique ((k, w) ∷ rest) = (find_client k rest ≡ none) × Unique rest

pub str_eq-flip : (a b : String) → str_eq a b ≡ false → str_eq b a ≡ false
str_eq-flip a b h = elim (Bool-cases (str_eq b a)) [
  | inl t ↦ absurd (grind (arith, eq_iff b a, eq_iff a b))
  | inr f ↦ f
]

pub find_client-put_same :
    (k : String) (w : Window) (xs : Clients) → find_client k (put_client k w xs) ≡ some w
unfolding find_client put_client
find_client-put_same k w [] = ground (arith, eq_refl k)
find_client-put_same k w ((k', v) ∷ xs) = ground (arith, find_client-put_same k w xs)

pub find_client-put_other :
    (k k' : String) (w : Window) (xs : Clients)
    → str_eq k k' ≡ false
    → find_client k' (put_client k w xs) ≡ find_client k' xs
unfolding find_client put_client
find_client-put_other k k' w [] h = ground arith
find_client-put_other k k' w ((j, v) ∷ xs) h =
    grind (arith, find_client-put_other k k' w xs h, eq_iff)

Unique-put : (k : String) (w : Window) (xs : Clients) → Unique xs → Unique (put_client k w xs)
unfolding find_client put_client
Unique-put k w [] u = (refl, tt)
Unique-put k w ((j, v) ∷ xs) u = elim (Bool-cases (str_eq j k)) [
  | inl t ↦ rw t (u.0, u.1)
  | inr f ↦ rw f (find_client-put_other k j w xs (str_eq-flip j k f) ∙ u.0, Unique-put k w xs u.1)
]

length-put :
    (k : String) (w : Window) (xs : Clients)
    → length (put_client k w xs) ≡ (if is_some (find_client k xs) then length xs else length xs + 1)
unfolding find_client put_client
length-put k w [] = refl
length-put k w ((j, v) ∷ xs) = ground (arith, length-put k w xs)

pub find_client-filter-none :
    (p : String × Window → Bool) (k : String) (xs : Clients)
    → find_client k xs ≡ none
    → find_client k (filter p xs) ≡ none
unfolding find_client filter
find_client-filter-none p k [] h = refl
find_client-filter-none p k (e ∷ xs) h = ground (arith, find_client-filter-none p k xs)

Unique-filter : (p : String × Window → Bool) (xs : Clients) → Unique xs → Unique (filter p xs)
unfolding filter
Unique-filter p [] u = tt
Unique-filter p (e ∷ xs) u = elim (Bool-cases (p e)) [
  | inl t ↦ rw t (find_client-filter-none p e.0 xs u.0, Unique-filter p xs u.1)
  | inr f ↦ rw f (Unique-filter p xs u.1)
]

pub find_client-filter :
    (q : Window → Bool) (k : String) (xs : Clients) (w : Window)
    → Unique xs
    → find_client k xs ≡ some w
    → find_client k (filter (λ e. q e.1) xs) ≡ (if q w then some w else none)
unfolding find_client filter
find_client-filter q k [] w u h = absurd (ground arith)
find_client-filter q k ((j, v) ∷ xs) w u h = elim (Bool-cases (str_eq j k)) [
  | inl t ↦
      let absent =
        find_client-filter-none (λ e. q e.1) k xs
          (subst (λ i. find_client i xs ≡ none) ((eq_iff j k).0 t) u.0) in
      let same : v ≡ w = some_inj v w (ground arith) in
      subst
        (λ x. find_client k (filter (λ e. q e.1) ((j, v) ∷ xs)) ≡ (if q x then some x else none))
        same
        (elim (Bool-cases (q v)) [ inl keeps ↦ rw (keeps, t) refl | inr drops ↦ rw drops absent ])
  | inr f ↦ let rest = find_client-filter q k xs w u.1 (ground arith) in ground arith
]

length-filter : (p : String × Window → Bool) (xs : Clients) → length (filter p xs) ≤ length xs
unfolding filter
length-filter p [] = omega arith
length-filter p (e ∷ xs) = ground (arith, length-filter p xs)

swept-Unique :
    (window now : ℕ) (last : Option ℕ) (xs : Clients)
    → Unique xs
    → Unique (swept window now last xs)
unfolding swept sweep
swept-Unique window now last xs u = elim (Bool-cases (due window now last)) [
  | inl t ↦ rw t (Unique-filter _ xs u)
  | inr f ↦ rw f u
]

pub length-swept :
    (window now : ℕ) (last : Option ℕ) (xs : Clients)
    → length (swept window now last xs) ≤ length xs
unfolding swept sweep
length-swept window now last xs = elim (Bool-cases (due window now last)) [
  | inl t ↦ rw t (length-filter _ xs)
  | inr f ↦ rw f (omega arith)
]

tracked_in-Unique :
    (key : String) (w : Window) (xs : Clients) → Unique xs → Unique (tracked_in key w xs)
unfolding tracked_in
tracked_in-Unique key w xs u = ground (arith, Unique-put key w xs u, u)

length-tracked_in :
    (key : String) (w : Window) (xs : Clients)
    → length xs ≤ max_tracked_clients
    → length (tracked_in key w xs) ≤ max_tracked_clients
unfolding tracked_in
length-tracked_in key w xs h = ground (arith, length-put key w xs)

pub length-tracked_in_suc :
    (key : String) (w : Window) (xs : Clients) → length (tracked_in key w xs) ≤ length xs + 1
unfolding tracked_in
length-tracked_in_suc key w xs = ground (arith, length-put key w xs)

-- One entry for a key, and at most 50,000 of them.
pub record IsWellFormed (clients : Clients) : Type 0 where
  pub unique : Unique clients
  pub bounded : length clients ≤ max_tracked_clients

-- What one request does to the table keeps it well-formed.
pub step-IsWellFormed :
    (window now : ℕ) (last : Option ℕ) (key : String) (w : Window) (xs : Clients)
    → IsWellFormed xs
    → IsWellFormed (tracked_in key w (swept window now last xs))
step-IsWellFormed window now last key w xs f =
    let ys = swept window now last xs in
    record {
      unique = tracked_in-Unique key w ys (swept-Unique window now last xs f.unique);
      bounded =
          length-tracked_in key w ys (omega (arith, length-swept window now last xs, f.bounded));
    }

-- Whatever requests come at whatever times, the table of a limiter keeps one entry for a key and at
-- most 50,000 entries.
pub serve-IsWellFormed :
    (rs : List (String × ℕ)) (l : IpRateLimiter)
    → IsWellFormed l.clients
    → IsWellFormed (serve rs l).1.clients
unfolding serve allow_key
serve-IsWellFormed [] l f = f
serve-IsWellFormed ((key, now) ∷ rest) l f =
    serve-IsWellFormed rest (allow_key key now l).1
      (step-IsWellFormed l.window now l.last_sweep key _ l.clients f)
