-- ===== src/Exec/Clock.antt =====
-- What an action leaves in the tables, where it depends on the environment's clock.
use ai_social_publisher.Common.{ℕ, ◌+◌, ◌≡◌, refl, subst, Bool, true, false, if◌then◌else◌}
use ai_social_publisher.Rows.{Db}
use ai_social_publisher.Exec.{Env, State, M, ask, time_now, ◌>>=◌, transaction}
use ai_social_publisher.Exec.Atomic.{Ensures, EnsuresIn, ok_inj, begin-ensures, continue-ensures}

pub Ensures-in {ℓ} :
    {A : Type ℓ} {P : Db → Type 0} {Q : A → Db → Type 0} {m : M A} (env : Env)
    → Ensures P m Q
    → EnsuresIn env P m Q
Ensures-in env k = record { at = k.at env }

-- `time.Now()` is a reading of the environment's clock.
pub EnsuresIn-time_now :
    {P : Db → Type 0} {Q : ℕ → Db → Type 0} (env : Env)
    → ((n : ℕ) (db : Db) → P db → Q (env.clock n) db)
    → EnsuresIn env P time_now Q
unfolding ask
EnsuresIn-time_now {Q} env k = record {
  at = λ s p b h. subst (λ c. Q c s.db) (ok_inj (env.clock s.calls) b h) (k s.calls s.db p);
}

module _ {ℓ} {A : Type ℓ} (env : Env) {P : Db → Type 0} {Q : A → Db → Type 0} where
  pub EnsuresIn-if :
      (b : Bool) (m n : M A)
      → (b ≡ true → EnsuresIn env P m Q)
      → (b ≡ false → EnsuresIn env P n Q)
      → EnsuresIn env P (if b then m else n) Q
  EnsuresIn-if true m n km kn = km refl
  EnsuresIn-if false m n km kn = kn refl

  pub EnsuresIn-transaction :
      (body : ℕ → M A)
      → ((now : ℕ) → EnsuresIn env P (body now) Q)
      → EnsuresIn env P (transaction body) Q
  unfolding transaction
  EnsuresIn-transaction body q = record {
    at = λ s p b h.
        begin-ensures Q P (env.db_fault s.calls) body env (record s { calls = s.calls + 1 }) b q p
          h;
  }

module _ {ℓ κ} {A : Type ℓ} {B : Type κ} (env : Env) where
  pub EnsuresIn-bind :
      {P : Db → Type 0} {Q : B → Db → Type 0} (R : A → Db → Type 0) (m : M A) (f : A → M B)
      → EnsuresIn env P m R
      → ((a : A) → EnsuresIn env (R a) (f a) Q)
      → EnsuresIn env P (m >>= f) Q
  unfolding ◌>>=◌
  EnsuresIn-bind {Q} R m f km kf = record {
    at = λ s p b h.
        let t : State = (m env s).1 in
        continue-ensures Q env t (m env s).0 f b (λ a e. (kf a).at t (km.at s p a e) b) h;
  }
