-- ===== src/Exec/Atomic.antt =====
-- What an action leaves in the tables where it returns: what the conditions of its steps say.
use ai_social_publisher.Common.{
  ℕ, ◌+◌, ◌≡◌, refl, sym, subst, ◌∙◌, String, Bool, true, false, Option, none, some, arith,
  if◌then◌else◌,
}
use ai_social_publisher.Rows.{Db}
use ai_social_publisher.Errors.{Error}
use ai_social_publisher.Exec.{
  Env, State, Result, ok, err, M, pure, raise, ask, attempt, exec, exec_now, exec_insert, query,
  continue, answer, unchanged, ◌>>=◌, transaction, begin, finish, commit,
}

-- From tables of which `P` holds, `m` fails or returns a value and tables of which `Q` holds.
pub record Ensures {ℓ} {A : Type ℓ} (P : Db → Type 0) (m : M A) (Q : A → Db → Type 0) : Type ℓ where
  pub at : (env : Env) (s : State) → P s.db → (a : A) → (m env s).0 ≡ ok a → Q a (m env s).1.db

-- The same in one environment, whose clock `P` and `Q` may mention.
pub record EnsuresIn {ℓ} {A : Type ℓ} (env : Env) (P : Db → Type 0) (m : M A) (Q : A → Db → Type 0)
    : Type ℓ where
  pub at : (s : State) → P s.db → (a : A) → (m env s).0 ≡ ok a → Q a (m env s).1.db

pub ok_inj {ℓ} : {A : Type ℓ} (a b : A) → ok a ≡ ok b → a ≡ b
ok_inj a b h = ground arith

module _ {ℓ} {A : Type ℓ} where
  module _ (Q : A → Db → Type 0) where
    commit-ensures :
        (before : Db) (a : A) (o : Option String) (s : State) (b : A)
        → Q a s.db
        → (commit before a o s).0 ≡ ok b
        → Q b (commit before a o s).1.db
    commit-ensures before a (some x) s b q h = absurd (ground arith)
    commit-ensures before a none s b q h = subst (λ c. Q c s.db) (ok_inj a b h) q

    finish-ensures :
        (before : Db) (env : Env) (x : Result A) (s : State) (b : A)
        → ((a : A) → x ≡ ok a → Q a s.db)
        → (finish before env (x, s)).0 ≡ ok b
        → Q b (finish before env (x, s)).1.db
    finish-ensures before env (err x) s b q h = absurd (ground arith)
    finish-ensures before env (ok a) s b q h =
        let t : State = record s { calls = s.calls + 1 } in
        commit-ensures before a (env.db_fault s.calls) t b (q a refl) h

    pub begin-ensures :
        (P : Db → Type 0) (o : Option String) (body : ℕ → M A) (env : Env) (s : State) (b : A)
        → ((now : ℕ) → EnsuresIn env P (body now) Q)
        → P s.db
        → (begin o body env s).0 ≡ ok b
        → Q b (begin o body env s).1.db
    begin-ensures P (some x) body env s b q p h = absurd (ground arith)
    begin-ensures P none body env s b q p h =
        let now = env.clock s.calls in
        finish-ensures s.db env (body now env s).0 (body now env s).1 b (λ a e. (q now).at s p a e)
          h

    answer-ensures :
        (t : State) (o : Option String) (x : Result (A × Db)) (b : A)
        → ((a : A) (db : Db) → x ≡ ok (a, db) → Q a db)
        → (answer o x t).0 ≡ ok b
        → Q b (answer o x t).1.db
    answer-ensures t (some e) x b k h = absurd (ground arith)
    answer-ensures t none (err e) b k h = absurd (ground arith)
    answer-ensures t none (ok (a, db)) b k h = subst (λ c. Q c db) (ok_inj a b h) (k a db refl)

  unchanged-ok :
      (before : Db) (x : Result A) (a : A) (db : Db)
      → unchanged before x ≡ ok (a, db)
      → (db ≡ before) × (x ≡ ok a)
  unchanged-ok before (ok b) a db h = ground arith
  unchanged-ok before (err e) a db h = ground arith

  module _ {P : Db → Type 0} {Q : A → Db → Type 0} where
    pub Ensures-pure : (a : A) → ((db : Db) → P db → Q a db) → Ensures P (pure a) Q
    unfolding pure
    Ensures-pure a q = record {
      at = λ env s p b h. subst (λ c. Q c s.db) (ok_inj a b h) (q s.db p);
    }

    pub Ensures-raise : (e : Error) → Ensures P (raise e) Q
    unfolding raise
    Ensures-raise e = record { at = λ env s p a h. absurd (ground arith) }

    pub Ensures-ask : (f : Env → ℕ → A) → ((a : A) (db : Db) → P db → Q a db) → Ensures P (ask f) Q
    unfolding ask
    Ensures-ask f q = record {
      at =
          λ env s p b h. let a = f env s.calls in subst (λ c. Q c s.db) (ok_inj a b h) (q a s.db p);
    }

    pub Ensures-if :
        (b : Bool) (m n : M A)
        → (b ≡ true → Ensures P m Q)
        → (b ≡ false → Ensures P n Q)
        → Ensures P (if b then m else n) Q
    Ensures-if true m n km kn = km refl
    Ensures-if false m n km kn = kn refl

    pub Ensures-exec :
        (f : Db → Result (A × Db))
        → ((db db' : Db) (a : A) → P db → f db ≡ ok (a, db') → Q a db')
        → Ensures P (exec f) Q
    unfolding exec
    Ensures-exec f k = record {
      at = λ env s p b h.
          let t : State = record s { calls = s.calls + 1 } in
          answer-ensures Q t (env.db_fault s.calls) (f s.db) b (λ a db e. k s.db db a p e) h;
    }

    pub Ensures-exec_now :
        (f : ℕ → Db → Result (A × Db))
        → ((now : ℕ) (db db' : Db) (a : A) → P db → f now db ≡ ok (a, db') → Q a db')
        → Ensures P (exec_now f) Q
    unfolding exec_now
    Ensures-exec_now f k = record {
      at = λ env s. (Ensures-exec (f (env.clock s.calls)) (k (env.clock s.calls))).at env s;
    }

    pub Ensures-exec_insert :
        (f : ℕ → ℕ → Db → Result (A × Db))
        → ((id now : ℕ) (db db' : Db) (a : A) → P db → f id now db ≡ ok (a, db') → Q a db')
        → Ensures P (exec_insert f) Q
    unfolding exec_insert
    Ensures-exec_insert f k = record {
      at = λ env s.
          (Ensures-exec (f s.seq (env.clock s.calls)) (k s.seq (env.clock s.calls))).at env
            (record s { seq = s.seq + 1 });
    }

    pub Ensures-query :
        (f : Db → Result A)
        → ((db : Db) (a : A) → P db → f db ≡ ok a → Q a db)
        → Ensures P (query f) Q
    unfolding query
    Ensures-query f k =
        Ensures-exec (λ db. unchanged db (f db))
          λ db db' a p h.
            let (same, found) = unchanged-ok db (f db) a db' h in
            subst (Q a) (sym same) (k db a p found)

    -- What a transaction has done when it returns, its body has done.
    pub Ensures-transaction :
        (body : ℕ → M A) → ((now : ℕ) → Ensures P (body now) Q) → Ensures P (transaction body) Q
    unfolding transaction
    Ensures-transaction body q = record {
      at = λ env s p b h.
          let t : State = record s { calls = s.calls + 1 } in
          begin-ensures Q P (env.db_fault s.calls) body env t b
            (λ now. record { at = (q now).at env }) p h;
    }

module _ {ℓ κ} {A : Type ℓ} {B : Type κ} where
  pub continue-ensures :
      (Q : B → Db → Type 0) (env : Env) (t : State) (x : Result A) (f : A → M B) (b : B)
      → ((a : A) → x ≡ ok a → (f a env t).0 ≡ ok b → Q b (f a env t).1.db)
      → (continue x f env t).0 ≡ ok b
      → Q b (continue x f env t).1.db
  continue-ensures Q env t (err e) f b k h = absurd (ground arith)
  continue-ensures Q env t (ok a) f b k h = k a refl h

  pub Ensures-bind :
      {P : Db → Type 0} {Q : B → Db → Type 0} (R : A → Db → Type 0) (m : M A) (f : A → M B)
      → Ensures P m R
      → ((a : A) → Ensures (R a) (f a) Q)
      → Ensures P (m >>= f) Q
  unfolding ◌>>=◌
  Ensures-bind {Q} R m f km kf = record {
    at = λ env s p b h.
        let t : State = (m env s).1 in
        continue-ensures Q env t (m env s).0 f b (λ a e. (kf a).at env t (km.at env s p a e) b) h;
  }

pub Ensures-mono {ℓ} :
    {A : Type ℓ} {P : Db → Type 0} {Q R : A → Db → Type 0} {m : M A}
    → ((a : A) (db : Db) → Q a db → R a db)
    → Ensures P m Q
    → Ensures P m R
Ensures-mono {m} q k = record { at = λ env s p a h. q a (m env s).1.db (k.at env s p a h) }

-- An error that is caught has its own tables, of which nothing is said.
pub Ensures-attempt :
    {A : Type 0} {P : Db → Type 0} {Q : A → Db → Type 0} (m : M A)
    → Ensures P m Q
    → Ensures P (attempt m) (λ x db. (a : A) → x ≡ ok a → Q a db)
unfolding attempt
Ensures-attempt {Q} m km = record {
  at = λ env s p x h a e. km.at env s p a (ok_inj (m env s).0 x h ∙ e);
}
