-- ===== src/Ai.antt =====
-- internal/ai/service.go: the chain of providers, tried in order.
pub mod Chain
pub mod Parse
pub mod Prompts
pub mod Clients
pub mod Storable
pub mod Scores
pub mod Documents
use ai_social_publisher.Common.{
  ℕ, String, Bool, false, Option, none, some, List, [], ◌∷◌, ◌==◌, if◌then◌else◌, length,
}
use ai_social_publisher.Errors.{Error, sentinel, all_providers_failed}
use ai_social_publisher.Exec.{
  Env, Result, ok, err, M, pure, raise, ask, ◌>>=◌, ◌>>◌, Provider, NewsView, NewsScore,
  PostVariant, GenerateRequest,
}

-- `ScoreResult`
pub record ScoreResult : Type 0 where
  pub score : NewsScore
  pub provider : String
  pub model : String

-- `VariantsResult`
pub record VariantsResult : Type 0 where
  pub variants : List PostVariant
  pub provider : String
  pub model : String

-- `modelOf`
unfoldable pub model_of : Provider → String
model_of p = elim p.model [ none ↦ p.name | some m ↦ m ]

-- What a provider answered to a scoring request, or the next providers' answer.
unfoldable pub score_or : Provider → Result NewsScore → M ScoreResult → M ScoreResult
score_or p (ok score) rest = pure (record { score = score; provider = p.name; model = model_of p })
score_or p (err e) rest = rest

unfoldable pub score_with : List Provider → NewsView → M ScoreResult
unfolding score_or
score_with [] news = raise (sentinel all_providers_failed)
score_with (p ∷ ps) news =
    let rest = score_with ps news in
    ask (λ env n. p.is_available n) >>= λ available.
    if available
    then (do answer ← ask (λ env n. p.score_news n news); score_or p answer rest)
    else rest

-- `ScoreNews`
unfoldable pub score_news : NewsView → M ScoreResult
unfolding score_with
score_news news = do providers ← ask (λ env n. env.providers); score_with providers news

-- Zero variants are a special case of the wrong number only if some were asked for.
abbrev pub right_count : List PostVariant → ℕ → Bool
right_count variants count = if length variants == 0 then false else length variants == count

unfoldable pub variants_or :
    Provider → ℕ → Result (List PostVariant) → M VariantsResult → M VariantsResult
unfolding model_of
variants_or p count (ok variants) rest =
    if right_count variants count
    then pure (record { variants = variants; provider = p.name; model = model_of p })
    else rest
variants_or p count (err e) rest = rest

unfoldable pub generate_with : List Provider → GenerateRequest → M VariantsResult
unfolding variants_or
generate_with [] req = raise (sentinel all_providers_failed)
generate_with (p ∷ ps) req =
    let rest = generate_with ps req in
    ask (λ env n. p.is_available n) >>= λ available.
    if available
    then (do
      answer ← ask (λ env n. p.generate_post_variants n req)
      variants_or p req.variant_count answer rest)
    else rest

-- `GeneratePostVariants`
unfoldable pub generate_post_variants : GenerateRequest → M VariantsResult
unfolding generate_with
generate_post_variants req = do
  providers ← ask (λ env n. env.providers)
  generate_with providers req
