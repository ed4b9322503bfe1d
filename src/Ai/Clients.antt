-- ===== src/Ai/Clients.antt =====
-- internal/ai/tgpt.go and internal/ai/ollama.go: the two providers. Starting the process and the HTTP
-- requests are parameters; the logger is left out.
use ai_social_publisher.Common.{
  ℕ, String, Bool, false, ◌&&◌, Option, none, some, List, [], ◌∷◌, ◌==◌, str_eq, if◌then◌else◌,
  concat, format_int, trim_space, one_of,
}
use ai_social_publisher.Errors.{Error, message, wrapped}
use ai_social_publisher.Exec.{Result, ok, err, Provider}
use ai_social_publisher.Settings.{TgptConfig, OllamaConfig}
use ai_social_publisher.Ai.Parse.{Json, parse_score, parse_variants}
use ai_social_publisher.Ai.Prompts.{build_score_prompt, build_variants_prompt}

-- How a command ends: what it has written, the deadline, or an error.
pub data Outcome (A : Type 0) : Type 0 where
  finished : A → Outcome A
  timed_out : Outcome A
  failed : Error → Outcome A

-- `exec.LookPath` (whether the command is found), `os.LookupEnv`, the command with an environment and a
-- prompt (a finished one with what the buffer of 2 MiB holds of its output), and the timeout's text.
pub record Shell : Type 0 where
  pub look_path : ℕ → String → Bool
  pub lookup_env : String → Option String
  pub run_command :
      ℕ → (command : String) → (env : List String) → (prompt : String) → Outcome String
  pub timeout_text : String

abbrev pub setting_of : String → Option String → List String → List String
setting_of name none env = env
setting_of name (some value) env = concat (name ∷ "=" ∷ value ∷ []) ∷ env

-- The loop of `allowedEnvironment`, after the names `seen`
unfoldable pub allowed_from : Shell → (seen names : List String) → List String
allowed_from shell seen [] = []
allowed_from shell seen (raw ∷ names) =
    let name = trim_space raw in
    let skipped = allowed_from shell seen names in
    let env = setting_of name (shell.lookup_env name) (allowed_from shell (name ∷ seen) names) in
    if str_eq name "" then skipped else if one_of name seen then skipped else env

unfoldable pub allowed_environment : Shell → (names : List String) → List String
unfolding allowed_from
allowed_environment shell names = allowed_from shell [] names

abbrev pub some_text : String → String → Result String
some_text empty s = if str_eq s "" then err (message empty) else ok s

-- `(*TgptProvider).run`
unfoldable pub tgpt_run : Shell → Outcome String → Result String
tgpt_run shell (finished out) = some_text "tgpt returned empty output" (trim_space out)
tgpt_run shell timed_out =
    err (message (concat ("tgpt timed out after " ∷ shell.timeout_text ∷ [])))
tgpt_run shell (failed e) = err (wrapped "tgpt run: " e "")

-- `if err != nil { return nil, err }; return parse…(out)`
abbrev pub parsed {ℓ} : {A : Type ℓ} → (String → Result A) → Result String → Result A
parsed parse (ok out) = parse out
parsed parse (err e) = err e

-- `TgptProvider`
unfoldable pub tgpt_provider : TgptConfig → Shell → Json → Provider
tgpt_provider cfg shell json = record {
  name = "tgpt";
  model = some cfg.command;
  is_available = λ n. cfg.enabled && shell.look_path n cfg.command;
  score_news = λ n news. parsed (parse_score json) (
      tgpt_run shell (
        shell.run_command n cfg.command (allowed_environment shell cfg.allowed_env)
          (build_score_prompt news)));
  generate_post_variants = λ n req. parsed (parse_variants json) (
      tgpt_run shell (
        shell.run_command n cfg.command (allowed_environment shell cfg.allowed_env)
          (build_variants_prompt req)));
}

-- A reply of the Ollama server: its status, and the text of its body or the decoder's error.
pub record Reply : Type 0 where
  pub status : ℕ
  pub response : Result String

-- The status of GET /api/tags (`none` where the request fails), POST /api/generate with a model and a
-- prompt, and the timeout's text.
pub record OllamaServer : Type 0 where
  pub tags : ℕ → (base_url : String) → Option ℕ
  pub generate : ℕ → (base_url model prompt : String) → Outcome Reply
  pub timeout_text : String

abbrev pub not_blank : Result String → Result String
not_blank (err e) = err (wrapped "decode ollama response: " e "")
not_blank (ok text) =
    if str_eq (trim_space text) "" then err (message "ollama returned empty response") else ok text

-- `(*OllamaProvider).generate` after the request
unfoldable pub ollama_generate : OllamaServer → Outcome Reply → Result String
ollama_generate server (finished reply) =
    if reply.status == 200
    then not_blank reply.response
    else err (message (concat ("ollama returned status " ∷ format_int reply.status ∷ [])))
ollama_generate server timed_out =
    err (message (concat ("ollama timed out after " ∷ server.timeout_text ∷ [])))
ollama_generate server (failed e) = err (wrapped "ollama request: " e "")

abbrev pub is_ok : Option ℕ → Bool
is_ok none = false
is_ok (some status) = status == 200

-- `OllamaProvider`
unfoldable pub ollama_provider : OllamaConfig → OllamaServer → Json → Provider
ollama_provider cfg server json = record {
  name = "ollama";
  model = some cfg.model;
  is_available = λ n. cfg.enabled && is_ok (server.tags n cfg.base_url);
  score_news = λ n news.
      parsed (parse_score json) (
        ollama_generate server
          (server.generate n cfg.base_url cfg.model (build_score_prompt news)));
  generate_post_variants = λ n req. parsed (parse_variants json) (
      ollama_generate server
        (server.generate n cfg.base_url cfg.model (build_variants_prompt req)));
}
