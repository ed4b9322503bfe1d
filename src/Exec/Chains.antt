-- ===== src/Exec/Chains.antt =====
-- Actions whose parts move along different relations.
use ai_social_publisher.Common.{Bool, true, false, ◌≡◌, refl}
use ai_social_publisher.Exec.{Env, State, Result, ok, err, M, ◌>>=◌, continue}
use ai_social_publisher.Exec.Rules.{Any, Moves, IsStable}

Moves-then_continue {ℓ κ} :
    {A : Type ℓ} {B : Type κ} {S : State → State → Type 0} (T : State → Type 0) (env : Env)
    (t : State) (x : Result A) (f : A → M B)
    → ((u : State) → S t u → T u)
    → T t
    → ((a : A) → x ≡ ok a → Moves Any S (f a))
    → T (continue x f env t).1
Moves-then_continue T env t (ok a) f k stop kf = k _ ((kf a refl).at env t tt)
Moves-then_continue T env t (err e) f k stop kf = stop

-- An action that moves along one relation, and what follows along another.
module _ {ℓ κ} {A : Type ℓ} {B : Type κ} {R S T : State → State → Type 0} where
  pub Moves-then :
      (m : M A) (f : A → M B)
      → ((s t u : State) → R s t → S t u → T s u)
      → ((s t : State) → R s t → T s t)
      → Moves Any R m
      → ((a : A) → Moves Any S (f a))
      → Moves Any T (m >>= f)
  unfolding ◌>>=◌
  Moves-then m f compose stop km kf = record {
    at = λ env s p.
        let t : State = (m env s).1 in
        let step : R s t = km.at env s p in
        Moves-then_continue {S = S} (T s) env t (m env s).0 f (λ u. compose s t u step)
          (stop s t step) (λ a _. kf a);
  }

-- A test whose success is more than its failure: the success moves along `C`.
module _ {κ} {B : Type κ} (C S T : State → State → Type 0) where
  Moves-test_continue :
      (env : Env) (s t : State) (x : Result Bool) (f : Bool → M B)
      → (x ≡ ok true → C s t)
      → T s t
      → ((u : State) → C s t → S t u → T s u)
      → ((u : State) → T t u → T s u)
      → Moves Any S (f true)
      → Moves Any T (f false)
      → T s (continue x f env t).1
  Moves-test_continue env s t (ok true) f c stop ks kt yes' no' = ks _ (c refl) (yes'.at env t tt)
  Moves-test_continue env s t (ok false) f c stop ks kt yes' no' = kt _ (no'.at env t tt)
  Moves-test_continue env s t (err e) f c stop ks kt yes' no' = stop

  pub Moves-test :
      (m : M Bool) (f : Bool → M B)
      → IsStable T
      → ((s t u : State) → C s t → S t u → T s u)
      → ((env : Env) (s : State) → (m env s).0 ≡ ok true → C s (m env s).1)
      → Moves Any T m
      → Moves Any S (f true)
      → Moves Any T (f false)
      → Moves Any T (m >>= f)
  unfolding ◌>>=◌
  Moves-test m f stable compose succeeds km yes' no' = record {
    at = λ env s p.
        let t : State = (m env s).1 in
        let step : T s t = km.at env s p in
        Moves-test_continue env s t (m env s).0 f (succeeds env s) step (λ u. compose s t u)
          (λ u. stable.trans s t u step) yes' no';
  }
