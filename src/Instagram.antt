-- ===== src/Instagram.antt =====
-- internal/instagram/instagram.go: the two-step publication of one image. The transport (`postForm`)
-- is a parameter of the environment, and so are the bodies that it returns.
pub mod DryRun
use ai_social_publisher.Common.{
  ℕ, String, Bool, true, false, Option, none, some, List, [], ◌∷◌, str_eq, if◌then◌else◌, concat,
  format_int,
}
use ai_social_publisher.Rows.{Payload, malformed, object}
use ai_social_publisher.Errors.{Error, message, wrapped}
use ai_social_publisher.Exec.{
  Env, Result, ok, err, M, pure, raise, lift, ask, time_now, attempt, ◌>>=◌, ◌>>◌, on_result,
  Config,
}

-- `PublishRequest`
pub record PublishRequest : Type 0 where
  pub instagram_user_id : String
  pub image_url : String
  pub caption : String

-- `PublishResult`, less the request dump
pub record PublishResult : Type 0 where
  pub media_id : String
  pub creation_id : String
  pub dry_run : Bool
  pub response_dump : Payload

-- The id of a reply of the Graph API, or the error that it stands for.
unfoldable pub reply_id : String → String → String → Payload → Result String
reply_id decode graph empty malformed = err (message decode)
reply_id decode graph empty (object id media_id (some m)) = err (message (concat (graph ∷ m ∷ [])))
reply_id decode graph empty (object id media_id none) =
    if str_eq id "" then err (message empty) else ok id

-- `postForm`
unfoldable pub post_form : String → String → String → List (String × String) → M Payload
post_form what user endpoint form = do
  reply ← ask (λ env n. env.graph_post n user endpoint form)
  on_result reply pure (λ e. raise (wrapped what e ""))

-- `createMediaContainer`
unfoldable pub create_media_container : Config → PublishRequest → M String
unfolding post_form reply_id
create_media_container cfg req = do
  body ← post_form "create media container: " req.instagram_user_id "media" (
      ("image_url", req.image_url)
      ∷ ("caption", req.caption)
      ∷ ("access_token", cfg.access_token)
      ∷ [])
  lift (
      reply_id "decode media container response" "graph error creating container: "
        "graph returned empty creation_id" body)

-- `publishMedia`
unfoldable pub publish_media : Config → String → String → M (String × Payload)
unfolding post_form reply_id
publish_media cfg user creation_id = do
  body ←
      post_form "publish media: " user "media_publish"
        (("creation_id", creation_id) ∷ ("access_token", cfg.access_token) ∷ [])
  id ← lift (
      reply_id "decode publish response" "graph error publishing: " "graph returned empty media id"
        body)
  pure (id, body)

unfoldable pub dry_run_result : ℕ → ℕ → PublishResult
dry_run_result a b =
    let media_id = concat ("dryrun_media_" ∷ format_int a ∷ []) in
    record {
      media_id = media_id;
      creation_id = concat ("dryrun_creation_" ∷ format_int b ∷ []);
      dry_run = true;
      response_dump = object "" media_id none;
    }

-- `PublishImage`
unfoldable pub publish_image : PublishRequest → M PublishResult
unfolding create_media_container publish_media dry_run_result
publish_image req = do
  cfg ← ask (λ env n. env.cfg)
  if cfg.publish_enabled
      then if str_eq req.instagram_user_id ""
        then raise (message "instagram user id is empty")
        else if str_eq cfg.access_token ""
        then raise (message "instagram access token is not configured")
        else (do
          creation_id ← create_media_container cfg req
          published ← publish_media cfg req.instagram_user_id creation_id
          pure (record {
            media_id = published.0;
            creation_id = creation_id;
            dry_run = false;
            response_dump = published.1;
          }))
      else (do a ← time_now; b ← time_now; pure (dry_run_result a b))
