-- ===== src/Exec/Rules.antt =====
-- Relations between the state before and the state after an action, one rule for each way to build
-- an action.
use ai_social_publisher.Common.{
  String, ℕ, ◌+◌, Bool, true, false, ◌≡◌, refl, sym, subst, Option, none, some, List, [], ◌∷◌,
  arith, if◌then◌else◌,
}
use ai_social_publisher.Rows.{Db}
use ai_social_publisher.Exec.{
  Env, State, Result, ok, err, M, pure, raise, lift, ask, attempt, ◌>>=◌, exec, exec_now,
  exec_insert, query, transaction, for_each, continue, answer, unchanged, begin, finish, commit,
}

-- A relation that composes and does not look at the counters.
pub record IsStable (R : State → State → Type 0) : Type 0 where
  pub refl_ticks : (s : State) (n k : ℕ) → R s (record s { calls = n; seq = k })
  pub trans : (s t u : State) → R s t → R t u → R s u

-- A relation that a rollback of the tables keeps.
pub record IsAtomic (R : State → State → Type 0) : Type 0 where
  pub stable : IsStable R
  pub rolls_back : (s t : State) → R s t → R s (record t { db = s.db })

abbrev pub Any : Db → Type 0
Any db = Unit

-- From tables of which `P` holds, `m` leads along `R`, whether it returns or fails.
pub record Moves {ℓ} {A : Type ℓ} (P : Db → Type 0) (R : State → State → Type 0) (m : M A)
    : Type 0 where
  pub at : (env : Env) (s : State) → P s.db → R s (m env s).1

unchanged-eq {ℓ} :
    {A : Type ℓ} (before : Db) (x : Result A) (a : A) (db : Db)
    → unchanged before x ≡ ok (a, db)
    → (db ≡ before) × (x ≡ ok a)
unchanged-eq before (ok b) a db h = ground arith
unchanged-eq before (err e) a db h = ground arith

module _ {R : State → State → Type 0} (r : IsStable R) where
  Moves-settle {ℓ} :
      {A : Type ℓ} (t : State) (x : Result (A × Db)) (o : Option String)
      → ((a : A) (db : Db) → x ≡ ok (a, db) → R t (record t { db = db }))
      → R t (answer o x t).1
  Moves-settle t x (some e) h = r.refl_ticks t t.calls t.seq
  Moves-settle t (err e) none h = r.refl_ticks t t.calls t.seq
  Moves-settle t (ok (a, db)) none h = h a db refl

  module _ {ℓ} {A : Type ℓ} {P : Db → Type 0} where
    pub Moves-pure : (a : A) → Moves P R (pure a)
    unfolding pure
    Moves-pure a = record { at = λ env s h. r.refl_ticks s s.calls s.seq }

    pub Moves-raise : (e : _) → Moves P R (raise {A = A} e)
    unfolding raise
    Moves-raise e = record { at = λ env s h. r.refl_ticks s s.calls s.seq }

    pub Moves-lift : (a : Result A) → Moves P R (lift a)
    unfolding lift
    Moves-lift a = record { at = λ env s h. r.refl_ticks s s.calls s.seq }

    pub Moves-ask : (f : Env → ℕ → A) → Moves P R (ask f)
    unfolding ask
    Moves-ask f = record { at = λ env s h. r.refl_ticks s (s.calls + 1) s.seq }

    pub Moves-attempt : (m : M A) → Moves P R m → Moves P R (attempt m)
    unfolding attempt
    Moves-attempt m km = record { at = km.at }

    pub Moves-if :
        (b : Bool) (m n : M A)
        → (b ≡ true → Moves P R m)
        → (b ≡ false → Moves P R n)
        → Moves P R (if b then m else n)
    Moves-if true m n km kn = km refl
    Moves-if false m n km kn = kn refl

    -- A statement that changes the tables.
    pub Moves-exec :
        (f : Db → Result (A × Db))
        → ((s : State) (a : A) (db : Db)
            → P s.db
            → f s.db ≡ ok (a, db)
            → R s (record s { db = db }))
        → Moves P R (exec f)
    unfolding exec
    Moves-exec f h = record {
      at = λ env s p.
          let t : State = record s { calls = s.calls + 1 } in
          r.trans s t _ (r.refl_ticks s (s.calls + 1) s.seq)
            (Moves-settle t (f s.db) (env.db_fault s.calls) (λ a db e. h t a db p e));
    }

    pub Moves-exec_now :
        (f : ℕ → Db → Result (A × Db))
        → ((now : ℕ) (s : State) (a : A) (db : Db)
            → P s.db
            → f now s.db ≡ ok (a, db)
            → R s (record s { db = db }))
        → Moves P R (exec_now f)
    unfolding exec_now
    Moves-exec_now f h = record {
      at = λ env s p. (Moves-exec (f (env.clock s.calls)) (h (env.clock s.calls))).at env s p;
    }

    pub Moves-exec_insert :
        (f : ℕ → ℕ → Db → Result (A × Db))
        → ((seq now : ℕ) (s : State) (a : A) (db : Db)
            → P s.db
            → f seq now s.db ≡ ok (a, db)
            → R s (record s { db = db }))
        → Moves P R (exec_insert f)
    unfolding exec_insert
    Moves-exec_insert f h = record {
      at = λ env s p.
          let t : State = record s { seq = s.seq + 1 } in
          r.trans s t _ (r.refl_ticks s s.calls (s.seq + 1))
            ((Moves-exec (f s.seq (env.clock s.calls)) (h s.seq (env.clock s.calls))).at env t p);
    }

    -- A statement that only reads.
    pub Moves-query : (f : Db → Result A) → Moves P R (query f)
    unfolding query
    Moves-query f =
        Moves-exec (λ db. unchanged db (f db))
          λ s a db p e.
            subst (λ d. R s (record s { db = d })) (sym (unchanged-eq s.db (f s.db) a db e).0)
              (r.refl_ticks s s.calls s.seq)

  module _ {ℓ κ} {A : Type ℓ} {B : Type κ} where
    Moves-continue :
        (env : Env) (s t : State) (x : Result A) (f : A → M B)
        → R s t
        → ((a : A) → R t (f a env t).1)
        → R s (continue x f env t).1
    Moves-continue env s t (ok a) f h k = r.trans s t _ h (k a)
    Moves-continue env s t (err e) f h k = h

    Moves-query-answer :
        (env : Env) (s : State) (t : State) (x : Result A) (f : A → M B) (o : Option String)
        → R s t
        → ((a : A) → x ≡ ok a → R t (f a env t).1)
        → R s (continue (answer o (unchanged t.db x) t).0 f env (answer o (unchanged t.db x) t).1).1
    Moves-query-answer env s t x f (some e) h k = h
    Moves-query-answer env s t (err e) f none h k = h
    Moves-query-answer env s t (ok a) f none h k = r.trans s t _ h (k a refl)

  module _ {ℓ κ} {A : Type ℓ} {B : Type κ} {P : Db → Type 0} where
    -- What follows a change may start from any tables.
    pub Moves-bind :
        (m : M A) (f : A → M B) → Moves P R m → ((a : A) → Moves Any R (f a)) → Moves P R (m >>= f)
    unfolding ◌>>=◌
    Moves-bind m f km kf = record {
      at = λ env s p.
          Moves-continue env s (m env s).1 (m env s).0 f (km.at env s p)
            (λ a. (kf a).at env (m env s).1 tt);
    }

    pub Moves-ask-bind :
        (g : Env → ℕ → A) (f : A → M B) → ((a : A) → Moves P R (f a)) → Moves P R (ask g >>= f)
    unfolding ◌>>=◌
    Moves-ask-bind g f kf = record {
      at = λ env s p.
          let t : State = record s { calls = s.calls + 1 } in
          r.trans s t _ (r.refl_ticks s (s.calls + 1) s.seq) ((kf (g env s.calls)).at env t p);
    }

  module _ {κ} {A : Type 0} {B : Type κ} {P : Db → Type 0} where
    -- What follows a reading knows what was read.
    pub Moves-query-bind :
        (g : Db → Result A) (f : A → M B)
        → ((a : A) → Moves (λ db. P db × (g db ≡ ok a)) R (f a))
        → Moves P R (query g >>= f)
    unfolding ◌>>=◌ query exec
    Moves-query-bind g f kf = record {
      at = λ env s p.
          let t : State = record s { calls = s.calls + 1 } in
          Moves-query-answer env s t (g s.db) f (env.db_fault s.calls)
            (r.refl_ticks s (s.calls + 1) s.seq) (λ a e. (kf a).at env t (p, e));
    }

  pub Moves-for_each {ℓ} :
      {A : Type ℓ} (xs : List A) (f : A → M (Unit {0}))
      → ((a : A) → Moves Any R (f a))
      → Moves Any R (for_each xs f)
  unfolding for_each
  Moves-for_each [] f k = Moves-pure tt
  Moves-for_each (x ∷ xs) f k = Moves-bind (f x) _ (k x) (λ _. Moves-for_each xs f k)

module _ {R : State → State → Type 0} (r : IsAtomic R) where
  module _ {ℓ} {A : Type ℓ} where
    Moves-commit :
        (s t : State) (a : A) (o : Option String)
        → R s t
        → R s (commit s.db a o (record t { calls = t.calls + 1 })).1
    Moves-commit s t a none h = r.stable.trans s t _ h (r.stable.refl_ticks t (t.calls + 1) t.seq)
    Moves-commit s t a (some e) h =
        let u : State = record t { calls = t.calls + 1 } in
        r.rolls_back s u (r.stable.trans s t u h (r.stable.refl_ticks t (t.calls + 1) t.seq))

    Moves-finish : (env : Env) (s t : State) (x : Result A) → R s t → R s (finish s.db env (x, t)).1
    Moves-finish env s t (err e) h = r.rolls_back s t h
    Moves-finish env s t (ok a) h = Moves-commit s t a (env.db_fault t.calls) h

    Moves-begin :
        {P : Db → Type 0} (env : Env) (s : State) (body : ℕ → M A) (o : Option String)
        → P s.db
        → ((now : ℕ) → Moves P R (body now))
        → R s (begin o body env s).1
    Moves-begin env s body (some e) p k = r.stable.refl_ticks s s.calls s.seq
    Moves-begin env s body none p k =
        let now = env.clock s.calls in
        Moves-finish env s (body now env s).1 (body now env s).0 ((k now).at env s p)

    -- A transaction: its body may be rolled back.
    pub Moves-transaction :
        {P : Db → Type 0} (body : ℕ → M A)
        → ((now : ℕ) → Moves P R (body now))
        → Moves P R (transaction body)
    unfolding transaction
    Moves-transaction {P} body k = record {
      at = λ env s p.
          let t : State = record s { calls = s.calls + 1 } in
          r.stable.trans s t _ (r.stable.refl_ticks s (s.calls + 1) s.seq)
            (Moves-begin {P = P} env t body (env.db_fault s.calls) p k);
    }

-- Less is known of a longer way, and more may be assumed at its start.
pub Moves-mono {ℓ} :
    {A : Type ℓ} {P Q : Db → Type 0} {R T : State → State → Type 0} {m : M A}
    → ((db : Db) → P db → Q db)
    → ((s t : State) → R s t → T s t)
    → Moves Q R m
    → Moves P T m
Moves-mono {m} p r k = record { at = λ env s h. r s (m env s).1 (k.at env s (p s.db h)) }
