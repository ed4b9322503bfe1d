-- ===== src/Ai/Storable.antt =====
-- About internal/ai/service.go over the two providers of internal/ai/tgpt.go and internal/ai/ollama.go.
use ai_social_publisher.Common.{
  ℕ, ◌+◌, ◌≡◌, refl, sym, subst, String, List, [], ◌∷◌, arith, length, All,
}
use ai_social_publisher.Rows.{Db}
use ai_social_publisher.Exec.{
  Env, State, Result, ok, err, M, ask, ◌>>=◌, Provider, PostVariant, GenerateRequest,
}
use ai_social_publisher.Exec.Atomic.{
  ok_inj, Ensures, Ensures-pure, Ensures-raise, Ensures-ask, Ensures-if, Ensures-bind,
}
use ai_social_publisher.Settings.{TgptConfig, OllamaConfig}
use ai_social_publisher.Ai.{
  VariantsResult, right_count, variants_or, generate_with, generate_post_variants,
}
use ai_social_publisher.Ai.Parse.{Json, parse_variants}
use ai_social_publisher.Ai.Chain.{generate_post_variants-Complete}
use ai_social_publisher.Ai.Scores.{Numbered, parse_variants-Numbered}
use ai_social_publisher.Ai.Clients.{Shell, OllamaServer, parsed, tgpt_provider, ollama_provider}

abbrev Any : Db → Type 0
Any _ = Unit

-- An answer whose variants, if it has any, are numbered.
abbrev Answers : Result (List PostVariant) → Type 0
Answers a = (vs : List PostVariant) → a ≡ ok vs → Numbered 0 vs

abbrev Careful : Provider → Type 0
Careful p = (n : ℕ) (req : GenerateRequest) → Answers (p.generate_post_variants n req)

parsed-Answers : (json : Json) (out : Result String) → Answers (parsed (parse_variants json) out)
parsed-Answers json (ok out) vs h = parse_variants-Numbered json out vs h
parsed-Answers json (err e) vs h = absurd (ground arith)

-- A question whose answer has a property, whatever the number of the call.
asked-Ensures {ℓ} :
    {A : Type ℓ} (R : A → Type 0) (f : Env → ℕ → A)
    → ((env : Env) (n : ℕ) → R (f env n))
    → Ensures Any (ask f) (λ a _. R a)
unfolding ask
asked-Ensures R f k = record {
  at = λ env s p a h. subst R (ok_inj (f env s.calls) a h) (k env s.calls);
}

variants_or-Numbered :
    (p : Provider) (count : ℕ) (a : Result (List PostVariant)) (rest : M VariantsResult)
    → Answers a
    → Ensures Any rest (λ r _. Numbered 0 r.variants)
    → Ensures Any (variants_or p count a rest) (λ r _. Numbered 0 r.variants)
unfolding variants_or
variants_or-Numbered p count (ok variants) rest answers k =
    Ensures-if (right_count variants count) _ _ (λ _. Ensures-pure _ (λ _ _. answers variants refl))
      (λ _. k)
variants_or-Numbered p count (err e) rest answers k = k

-- A precondition that says nothing of the state is a hypothesis.
given-Ensures {ℓ} :
    {A : Type ℓ} {Q : A → Db → Type 0} (R : Type 0) (m : M A)
    → (R → Ensures Any m Q)
    → Ensures (λ _. R) m Q
given-Ensures R m k = record { at = λ env s r a h. (k r).at env s tt a h }

generate_with-Numbered :
    (ps : List Provider) (req : GenerateRequest)
    → All Careful ps
    → Ensures Any (generate_with ps req) (λ r _. Numbered 0 r.variants)
unfolding generate_with
generate_with-Numbered [] req careful = Ensures-raise _
generate_with-Numbered (p ∷ ps) req careful =
    let rest = generate_with-Numbered ps req careful.1 in
    Ensures-bind (λ _ _. Unit {0}) _ _ (Ensures-ask _ (λ _ _ _. tt))
      λ available.
        Ensures-if available _ _
          (λ _.
            Ensures-bind (λ a _. Answers a) _ _ (asked-Ensures Answers _ (λ env n. careful.0 n req))
              (λ a.
                given-Ensures (Answers a) _
                  (λ answers. variants_or-Numbered p req.variant_count a _ answers rest)))
          (λ _. rest)

-- With the two providers of the program, whatever the command writes and the server answers: when
-- `GeneratePostVariants` returns no error, the result has exactly the requested number of variants,
-- numbered 1, 2, 3 and so on, and each caption has 1 to 2200 characters, as the tables' CHECKs ask.
pub generate_post_variants-Numbered :
    (tgpt : TgptConfig) (shell : Shell) (ollama : OllamaConfig) (server : OllamaServer)
    (json : Json) (req : GenerateRequest) (env : Env) (s : State) (r : VariantsResult)
    → env.providers ≡ tgpt_provider tgpt shell json ∷ ollama_provider ollama server json ∷ []
    → (generate_post_variants req env s).0 ≡ ok r
    → (length r.variants ≡ req.variant_count) × Numbered 0 r.variants
unfolding generate_post_variants ◌>>=◌ ask tgpt_provider ollama_provider
generate_post_variants-Numbered tgpt shell ollama server json req env s r providers h =
    let both : All Careful env.providers =
      subst (All Careful) (sym providers)
        ((λ n q. parsed-Answers json _), ((λ n q. parsed-Answers json _), tt)) in
    (
      (generate_post_variants-Complete req env s r h).0,
      (generate_with-Numbered env.providers req both).at env (record s { calls = s.calls + 1 }) tt r
          h,
    )
