-- ===== src/News.antt =====
-- internal/news/news.go and internal/account/account.go: candidates, scores and accounts.
use ai_social_publisher.Common.{
  ℕ, String, Bool, true, false, ◌&&◌, Option, none, some, List, [], ◌∷◌, ◌++◌, leb, ◌==◌, str_eq,
  ◌||◌, take, ltb, rune_count, one_of, if◌then◌else◌, filter, sort_by, is_some, last?,
}
use mathlib.Core.List.{reverse}
use ai_social_publisher.Rows.{Candidate, Score, Account, Db}
use ai_social_publisher.Errors.{check_violation, candidate_not_found, account_not_found}
use ai_social_publisher.Exec.{Result, ok, err, M, pure, ◌>>=◌, exec_insert, query}
use ai_social_publisher.Table.{put_by}
use ai_social_publisher.Store.{find_candidate, or_missing}

-- `news.Repository.GetByID`
unfoldable pub get_candidate : ℕ → M Candidate
get_candidate id = query (λ db. or_missing candidate_not_found (find_candidate id db))

abbrev pub with_external : String → List Candidate → Option Candidate
with_external x [] = none
with_external x (c ∷ cs) =
    let rest = with_external x cs in if str_eq c.external_news_id x then some c else rest

-- `GetByExternalID`
unfoldable pub get_by_external_id : String → M Candidate
get_by_external_id x = query (λ db. or_missing candidate_not_found (with_external x db.candidates))

-- chk_news_candidates_external_id, …_title, …_summary, …_source and …_source_url
unfoldable pub candidate_fits : Candidate → Bool
candidate_fits c =
    ltb 0 (rune_count c.external_news_id)
    && (leb (rune_count c.external_news_id) 500
        && (ltb 0 (rune_count c.title)
            && (leb (rune_count c.title) 500
                && (leb (rune_count c.summary) 4000
                    && (leb (rune_count c.source) 200 && leb (rune_count c.source_url) 2000)))))

-- `INSERT … ON CONFLICT (external_news_id) DO NOTHING RETURNING …`; `none` is `sql.ErrNoRows`.
unfoldable pub insert_candidate : Candidate → ℕ → ℕ → Db → Result (Option Candidate × Db)
insert_candidate c id now db =
    let row : Candidate = record c { id = id; created_at = now } in
    if candidate_fits c
    then if is_some (with_external c.external_news_id db.candidates)
      then ok (none, db)
      else ok (some row, record db { candidates = db.candidates ++ row ∷ [] })
    else err check_violation

unfoldable pub stored_or_existing : String → Option Candidate → M (Candidate × Bool)
stored_or_existing x (some c) = pure (c, true)
stored_or_existing x none = do c ← get_by_external_id x; pure (c, false)

-- `Upsert`
unfoldable pub upsert : Candidate → M (Candidate × Bool)
unfolding stored_or_existing
upsert c = do
  inserted ← exec_insert (insert_candidate c)
  stored_or_existing c.external_news_id inserted

abbrev pub score_of : ℕ → List Score → Option Score
score_of cid [] = none
score_of cid (s ∷ ss) =
    let rest = score_of cid ss in if s.news_candidate_id == cid then some s else rest

abbrev pub account_fits : List String
account_fits = "technology" ∷ "cinema" ∷ "news" ∷ "economy" ∷ "skip" ∷ []

abbrev pub risk_levels : List String
risk_levels = "low" ∷ "medium" ∷ "high" ∷ []

-- chk_news_scores_importance, …_virality, …_account_fit and …_risk
unfoldable pub score_fits : Score → Bool
score_fits s =
    leb s.importance_score 100
    && (leb s.virality_score 100
        && (one_of s.account_fit account_fits && one_of s.risk_level risk_levels))

abbrev pub written_score : Score → ℕ → ℕ → Option Score → Db → Score × Db
written_score s id now none db =
    let row : Score = record s { id = id; created_at = now } in
    (row, record db { scores = db.scores ++ row ∷ [] })
written_score s id now (some old) db =
    let row : Score = record s { id = old.id; created_at = now } in
    (row, record db { scores = put_by (λ (x : Score). x.id) row db.scores })

-- `INSERT INTO news_scores … ON CONFLICT … DO UPDATE … RETURNING`; the candidate is a foreign key.
unfoldable pub write_score : Score → ℕ → ℕ → Db → Result (Score × Db)
write_score s id now db =
    if score_fits s && is_some (find_candidate s.news_candidate_id db)
    then ok (written_score s id now (score_of s.news_candidate_id db.scores) db)
    else err check_violation

-- `SaveScore`: one row for a candidate.
unfoldable pub save_score : Score → M Score
save_score s = exec_insert (write_score s)

-- `GetLatestScore`
unfoldable pub get_latest_score : ℕ → M Score
get_latest_score cid = query (λ db. or_missing candidate_not_found (
    last? (
      sort_by (λ (s : Score). s.id)
        (filter (λ (s : Score). s.news_candidate_id == cid) db.scores))))

-- `account.Repository.getBy`: the first active account that fits.
abbrev pub first_active : (Account → Bool) → List Account → Option Account
first_active test [] = none
first_active test (a ∷ as') =
    let rest = first_active test as' in if test a && a.is_active then some a else rest

unfoldable pub get_account : ℕ → M Account
get_account id =
    query
      (λ db. or_missing account_not_found (first_active (λ (a : Account). a.id == id) db.accounts))

unfoldable pub get_account_by_category : String → M Account
get_account_by_category category = query (λ db.
    or_missing account_not_found
      (first_active (λ (a : Account). str_eq a.category category) db.accounts))

-- `news.Repository.List`
unfoldable pub list_candidates : ℕ → M (List Candidate)
list_candidates limit = query (λ db. ok (
    take (if leb limit 0 || ltb 200 limit then 50 else limit)
      (reverse (sort_by (λ (c : Candidate). c.id) db.candidates))))
