-- ===== src/Instagram/DryRun.antt =====
-- internal/instagram/instagram.go: when the Graph API is contacted.
use ai_social_publisher.Common.{
  ℕ, ◌≡◌, ◌⊎◌, ◌↔◌, refl, String, true, false, none, some, List, arith, str_eq, inl, inr,
  Bool-cases, ◌+◌,
}
use ai_social_publisher.Rows.{Payload, malformed, object}
use ai_social_publisher.Exec.{Env, State, Result, ok, pure, raise, ask, ◌>>=◌}
use ai_social_publisher.Instagram.{
  PublishRequest, PublishResult, dry_run_result, publish_image, reply_id,
}

-- With publishing disabled (a dry run), or with no user id or no access token, `PublishImage` has the
-- same result and leaves the same state whatever the Graph API would answer.
pub publish_image-offline :
    (req : PublishRequest) (env : Env) (s : State)
    → (graph : ℕ → String → String → List (String × String) → Result Payload)
    → (env.cfg.publish_enabled ≡ false)
      ⊎ (str_eq req.instagram_user_id "" ≡ true)
      ⊎ (str_eq env.cfg.access_token "" ≡ true)
    → publish_image req (record env { graph_post = graph }) s ≡ publish_image req env s
unfolding publish_image ◌>>=◌ ask pure raise
publish_image-offline req env s graph h = elim (Bool-cases env.cfg.publish_enabled) [
  | inr off ↦ rw off refl
  | inl on ↦ elim (Bool-cases (str_eq req.instagram_user_id "")) [
    | inl empty ↦ rw (on, empty) refl
    | inr named ↦ elim (Bool-cases (str_eq env.cfg.access_token "")) [
      | inl empty ↦ rw (on, named, empty) refl
      | inr token ↦ absurd (ground arith)
    ]
  ]
]

-- A dry run returns no error and a result marked as such.
publish_image-dry_run :
    (req : PublishRequest) (env : Env) (s : State)
    → env.cfg.publish_enabled ≡ false
    → (r : PublishResult) × ((publish_image req env s).0 ≡ ok r) × (r.dry_run ≡ true)
unfolding publish_image ◌>>=◌ ask pure dry_run_result
publish_image-dry_run req env s off =
    (dry_run_result (env.clock (s.calls + 1)) (env.clock (s.calls + 1 + 1)), rw off refl, refl)

-- A reply of the Graph API is taken as an id exactly when it is JSON with an id that is not empty and
-- with no error.
pub reply_id_iff :
    (decode graph empty : String) (body : Payload) (id : String)
    → (reply_id decode graph empty body ≡ ok id)
      ↔ ((media_id : String) × (body ≡ object id media_id none) × (str_eq id "" ≡ false))
unfolding reply_id
reply_id_iff decode graph empty malformed id =
    (λ h. absurd (ground arith), λ h. absurd (ground (arith, h.1)))
reply_id_iff decode graph empty (object i media_id (some m)) id =
    (λ h. absurd (ground arith), λ h. absurd (ground (arith, h.1)))
reply_id_iff decode graph empty (object i media_id none) id = elim (Bool-cases (str_eq i "")) [
  | inl t ↦ (λ h. absurd (ground arith), λ h. absurd (ground (arith, h.1, h.2)))
  | inr t ↦ (λ h. (media_id, ground arith, ground arith), λ h. ground (arith, h.1))
]
