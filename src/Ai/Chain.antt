-- ===== src/Ai/Chain.antt =====
-- internal/ai/service.go: what the chain of providers promises its callers.
use ai_social_publisher.Common.{
  ℕ, ◌≡◌, refl, sym, subst, true, List, [], ◌∷◌, arith, length, Bool-cases, inl, inr, ◌≢◌, ◌++◌,
  All, ◌+◌,
}
use ai_social_publisher.Errors.{Error, sentinel, all_providers_failed}
use ai_social_publisher.Exec.{
  Env, State, Result, ok, err, M, pure, raise, ask, ◌>>=◌, Provider, NewsView, NewsScore,
  PostVariant, GenerateRequest,
}
use ai_social_publisher.Exec.Atomic.{
  Ensures, Ensures-pure, Ensures-raise, Ensures-ask, Ensures-if, Ensures-bind,
}
use ai_social_publisher.Ai.{
  VariantsResult, model_of, right_count, variants_or, generate_with, generate_post_variants,
  score_or, score_with, score_news,
}

abbrev Complete : ℕ → VariantsResult → Type 0
Complete count r = (length r.variants ≡ count) × (r.variants ≢ [])

right_count-Complete :
    (variants : List PostVariant) (count : ℕ)
    → right_count variants count ≡ true
    → (length variants ≡ count) × (variants ≢ [])
right_count-Complete [] count h = absurd (ground arith)
right_count-Complete (v ∷ vs) count h = (ground arith, λ e. ground arith)

variants_or-Complete :
    (p : Provider) (count : ℕ) (a : Result (List PostVariant)) (rest : M VariantsResult)
    → Ensures (λ _. Unit {0}) rest (λ r _. Complete count r)
    → Ensures (λ _. Unit {0}) (variants_or p count a rest) (λ r _. Complete count r)
unfolding variants_or
variants_or-Complete p count (ok variants) rest k =
    Ensures-if (right_count variants count) _ _
      (λ t. Ensures-pure _ (λ _ _. right_count-Complete variants count t)) (λ _. k)
variants_or-Complete p count (err e) rest k = k

generate_with-Complete :
    (ps : List Provider) (req : GenerateRequest)
    → Ensures (λ _. Unit {0}) (generate_with ps req) (λ r _. Complete req.variant_count r)
unfolding generate_with
generate_with-Complete [] req = Ensures-raise _
generate_with-Complete (p ∷ ps) req =
    let rest = generate_with-Complete ps req in
    Ensures-bind (λ _ _. Unit {0}) _ _ (Ensures-ask _ (λ _ _ _. tt))
      λ available.
        Ensures-if available _ _
          (λ _.
            Ensures-bind (λ _ _. Unit {0}) _ _ (Ensures-ask _ (λ _ _ _. tt))
              (λ a. variants_or-Complete p req.variant_count a _ rest))
          (λ _. rest)

-- Whatever the providers answer, when `GeneratePostVariants` returns no error, the result has exactly
-- the requested number of variants, and at least one.
pub generate_post_variants-Complete :
    (req : GenerateRequest) (env : Env) (s : State) (r : VariantsResult)
    → (generate_post_variants req env s).0 ≡ ok r
    → (length r.variants ≡ req.variant_count) × (r.variants ≢ [])
unfolding generate_post_variants
generate_post_variants-Complete req env s r h =
    (Ensures-bind {P = λ _. Unit {0}} {Q = λ r _. Complete req.variant_count r} (λ _ _. Unit {0}) _
        _ (Ensures-ask _ (λ _ _ _. tt)) (λ ps. generate_with-Complete ps req)).at
      env s tt r h

-- A provider fails a request if, whenever it is available, the request sent next is an error.
unfoldable pub Fails : NewsView → Provider → Type 0
Fails news p = (n : ℕ) → p.is_available n ≡ true → (e : Error) × (p.score_news (n + 1) news ≡ err e)

-- A failing provider is passed over, whatever its failure.
score_with-skip :
    (p : Provider) (ps : List Provider) (news : NewsView) (env : Env) (s : State)
    → Fails news p
    → (n : ℕ) × (score_with (p ∷ ps) news env s ≡ score_with ps news env (record s { calls = n }))
unfolding score_with ◌>>=◌ ask score_or Fails
score_with-skip p ps news env s fails = elim (Bool-cases (p.is_available s.calls)) [
  | inr absent ↦ (s.calls + 1, rw absent refl)
  | inl here ↦ let (e, wrong) = fails s.calls here in (s.calls + 1 + 1, rw (here, wrong) refl)
]

-- Providers that fail are passed over, and the first that is available and answers is the one whose
-- score is returned, under its own name.
score_with-first :
    (failing : List Provider) (p : Provider) (rest : List Provider) (news : NewsView)
    (score : NewsScore) (env : Env) (s : State)
    → All (Fails news) failing
    → ((n : ℕ) → p.is_available n ≡ true)
    → ((n : ℕ) → p.score_news n news ≡ ok score)
    → (score_with (failing ++ p ∷ rest) news env s).0
      ≡ ok (record { score = score; provider = p.name; model = model_of p })
unfolding score_with ◌>>=◌ ask score_or pure
score_with-first [] p rest news score env s fails up answers =
    rw (up s.calls, answers (s.calls + 1)) refl
score_with-first (q ∷ qs) p rest news score env s fails up answers =
    let (n, skip) = score_with-skip q (qs ++ p ∷ rest) news env s fails.0 in
    rw skip (score_with-first qs p rest news score env (record s { calls = n }) fails.1 up answers)

-- If every provider fails the request, `ScoreNews` returns ErrAllProvidersFailed and has changed
-- nothing.
score_with-none :
    (ps : List Provider) (news : NewsView) (env : Env) (s : State)
    → All (Fails news) ps
    → ((score_with ps news env s).0 ≡ err (sentinel all_providers_failed))
      × ((score_with ps news env s).1.db ≡ s.db)
unfolding score_with raise
score_with-none [] news env s fails = (refl, refl)
score_with-none (p ∷ ps) news env s fails =
    let (n, skip) = score_with-skip p ps news env s fails.0 in
    rw skip (score_with-none ps news env (record s { calls = n }) fails.1)

-- `ScoreNews` asks the providers in their order: those that fail the request are passed over, and the
-- first that is available and answers is the one whose score is returned, under its own name and
-- model.
pub score_news-first :
    (failing : List Provider) (p : Provider) (rest : List Provider) (news : NewsView)
    (score : NewsScore) (env : Env) (s : State)
    → env.providers ≡ failing ++ p ∷ rest
    → All (Fails news) failing
    → ((n : ℕ) → p.is_available n ≡ true)
    → ((n : ℕ) → p.score_news n news ≡ ok score)
    → (score_news news env s).0
      ≡ ok (record { score = score; provider = p.name; model = model_of p })
unfolding score_news ◌>>=◌ ask
score_news-first failing p rest news score env s providers fails up answers =
    subst
      (λ ps.
        (score_with ps news env (record s { calls = s.calls + 1 })).0
        ≡ ok (record { score = score; provider = p.name; model = model_of p }))
      (sym providers)
      (score_with-first failing p rest news score env (record s { calls = s.calls + 1 }) fails up
        answers)

-- If every provider fails the request, `ScoreNews` returns ErrAllProvidersFailed.
pub score_news-none :
    (news : NewsView) (env : Env) (s : State)
    → All (Fails news) env.providers
    → (score_news news env s).0 ≡ err (sentinel all_providers_failed)
unfolding score_news ◌>>=◌ ask
score_news-none news env s fails =
    (score_with-none env.providers news env (record s { calls = s.calls + 1 }) fails).0
