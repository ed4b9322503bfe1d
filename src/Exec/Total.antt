-- ===== src/Exec/Total.antt =====
-- What an action achieves where the database answers every statement: it returns a value, and the
-- tables are as its steps say.
use ai_social_publisher.Common.{ℕ, ◌+◌, ◌≡◌, refl, sym, subst, Option, none, some, String, arith}
use ai_social_publisher.Rows.{Db}
use ai_social_publisher.Errors.{Error}
use ai_social_publisher.Exec.{
  Env, State, Result, ok, err, M, pure, attempt, on_result, exec, exec_insert, continue, answer,
  ◌>>=◌, transaction, begin, finish,
}
use ai_social_publisher.Exec.Atomic.{ok_inj}

-- No statement is failed by the driver or the server.
abbrev pub Reliable : Env → Type 0
Reliable env = (n : ℕ) → env.db_fault n ≡ none

-- A run that has returned a value.
abbrev pub Returned {ℓ} : {A : Type ℓ} → (A → Db → Type 0) → Result A × State → Type ℓ
Returned {A} Q (r, s) = (a : A) × (r ≡ ok a) × Q a s.db

-- From tables of which `P` holds, `m` returns a value and tables of which `Q` holds.
pub record Achieves {ℓ} {A : Type ℓ} (P : Db → Type 0) (m : M A) (Q : A → Db → Type 0)
    : Type ℓ where
  pub at : (env : Env) (s : State) → Reliable env → P s.db → Returned Q (m env s)

module _ {ℓ} {A : Type ℓ} (P : Db → Type 0) (Q : A → Db → Type 0) where
  pub Achieves-pure : (a : A) → ((db : Db) → P db → Q a db) → Achieves P (pure a) Q
  unfolding pure
  Achieves-pure a q = record { at = λ env s up p. (a, refl, q s.db p) }

  answer-Returned :
      (o : Option String) (t : State) (x : Result (A × Db)) (a : A) (db : Db)
      → o ≡ none
      → x ≡ ok (a, db)
      → Q a db
      → Returned Q (answer o x t)
  answer-Returned o t x a db up e q = rw (up, e) (a, refl, q)

  pub Achieves-exec :
      (f : Db → Result (A × Db))
      → ((db : Db) → P db → (a : A) × (db' : Db) × (f db ≡ ok (a, db')) × Q a db')
      → Achieves P (exec f) Q
  unfolding exec
  Achieves-exec f k = record {
    at = λ env s up p.
        let (a, db', e, q) = k s.db p in
        answer-Returned (env.db_fault s.calls) (record s { calls = s.calls + 1 }) (f s.db) a db'
          (up s.calls) e q;
  }

  finish-Returned :
      (before : Db) (env : Env) (x : Result A × State)
      → Reliable env
      → Returned Q x
      → Returned Q (finish before env x)
  finish-Returned before env (err e, s) up (a, r, q) = absurd (ground arith)
  finish-Returned before env (ok b, s) up (a, r, q) =
      rw (up s.calls) (b, refl, subst (λ c. Q c s.db) (sym (ok_inj b a r)) q)

  begin-Returned :
      (o : Option String) (body : ℕ → M A) (env : Env) (s : State)
      → Reliable env
      → o ≡ none
      → Returned Q (body (env.clock s.calls) env s)
      → Returned Q (begin o body env s)
  begin-Returned none body env s up e q =
      finish-Returned s.db env (body (env.clock s.calls) env s) up q
  begin-Returned (some x) body env s up e q = absurd (ground arith)

  pub Achieves-transaction :
      (body : ℕ → M A) → ((now : ℕ) → Achieves P (body now) Q) → Achieves P (transaction body) Q
  unfolding transaction
  Achieves-transaction body k = record {
    at = λ env s up p.
        let t : State = record s { calls = s.calls + 1 } in
        begin-Returned (env.db_fault s.calls) body env t up (up s.calls)
          ((k (env.clock t.calls)).at env t up p);
  }

module _ {ℓ} {A : Type ℓ} (P : Db → Type 0) (Q : A → Db → Type 0) where
  pub Achieves-exec_insert :
      (f : ℕ → ℕ → Db → Result (A × Db))
      → ((id now : ℕ) (db : Db)
          → P db
          → (a : A) × (db' : Db) × (f id now db ≡ ok (a, db')) × Q a db')
      → Achieves P (exec_insert f) Q
  unfolding exec_insert
  Achieves-exec_insert f k = record {
    at = λ env s up p.
        (Achieves-exec P Q (f s.seq (env.clock s.calls)) (k s.seq (env.clock s.calls))).at env
          (record s { seq = s.seq + 1 }) up p;
  }

module _ {ℓ κ} {A : Type ℓ} {B : Type κ} (P : Db → Type 0) (R : A → Db → Type 0)
    (Q : B → Db → Type 0) where
  pub Achieves-bind :
      (m : M A) (f : A → M B)
      → Achieves P m R
      → ((a : A) → Achieves (R a) (f a) Q)
      → Achieves P (m >>= f) Q
  unfolding ◌>>=◌
  Achieves-bind m f km kf = record {
    at = λ env s up p.
        let (a, e, r) = km.at env s up p in
        let t = (m env s).1 in
        subst (λ x. Returned Q (continue x f env t)) (sym e) ((kf a).at env t up r);
  }

  -- `if err := …; err != nil { return … }` of an action that does not fail.
  pub Achieves-checked :
      (m : M A) (f : A → M B) (h : Error → M B)
      → Achieves P m R
      → ((a : A) → Achieves (R a) (f a) Q)
      → Achieves P (attempt m >>= λ x. on_result x f h) Q
  unfolding ◌>>=◌ attempt
  Achieves-checked m f h km kf = record {
    at = λ env s up p.
        let (a, e, r) = km.at env s up p in
        let t = (m env s).1 in
        subst (λ x. Returned Q (on_result x f h env t)) (sym e) ((kf a).at env t up r);
  }

pub Achieves-mono {ℓ} :
    {A : Type ℓ} {P : Db → Type 0} {Q : A → Db → Type 0} (R : A → Db → Type 0) (m : M A)
    → ((a : A) (db : Db) → Q a db → R a db)
    → Achieves P m Q
    → Achieves P m R
Achieves-mono R m k h = record {
  at = λ env s up p. let (a, e, q) = h.at env s up p in (a, e, k a (m env s).1.db q);
}
