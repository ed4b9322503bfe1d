-- ===== src/Ai/Scores.antt =====
-- About internal/ai/parse.go: what it lets through.
use ai_social_publisher.Common.{
  ℕ, suc, ◌+◌, ◌≤◌, ◌<◌, ◌≡◌, refl, sym, subst, ◌∙◌, ℤ, pos, negsuc, pos_part, String, true, false,
  List, [], ◌∷◌, inl, inr, arith, some, str_eq, trim_space, rune_count, one_of, Bool-cases,
}
use ai_social_publisher.Rows.{Candidate, Score, Db}
use ai_social_publisher.Store.{find_candidate}
use ai_social_publisher.Errors.{message}
use ai_social_publisher.Exec.{Result, ok, err, NewsScore, PostVariant}
use ai_social_publisher.Exec.Atomic.{ok_inj}
use ai_social_publisher.News.{
  score_fits, write_score, written_score, score_of, account_fits, risk_levels,
}
use ai_social_publisher.Ai.{ScoreResult}
use ai_social_publisher.Ai.Parse.{
  RawScore, RawVariant, Json, clamp, fits, risks, or_default, checked_score, score_value,
  decoded_score, clean_json, parse_score, keeps, normalize_from, normalize_variants, found_or,
  parse_variants,
}
use ai_social_publisher.Approval.Intake.{score_row}

clamp_le : (v : ℤ) → pos_part (clamp v (pos 0) (pos 100)) ≤ 100
clamp_le (pos n) = ground arith
clamp_le (negsuc n) = ground arith

-- A score that the tables accept.
abbrev Fits : NewsScore → Type 0
Fits v =
    (v.importance_score ≤ 100)
    × (v.virality_score ≤ 100)
    × (one_of v.account_fit account_fits ≡ true)
    × (one_of v.risk_level risk_levels ≡ true)

checked_score-Fits : (r : RawScore) (v : NewsScore) → checked_score r ≡ ok v → Fits v
unfolding checked_score
checked_score-Fits r v h = elim (Bool-cases (one_of (or_default r.account_fit "skip") fits)) [
  | inr no_fit ↦ absurd (ground arith)
  | inl fit ↦ elim (Bool-cases (one_of (or_default r.risk_level "low") risks)) [
    | inr no_risk ↦ absurd (ground arith)
    | inl risk ↦
        let made : checked_score r ≡ ok (score_value r) = rw (fit, risk) refl in
        subst Fits (ok_inj (score_value r) v (sym made ∙ h))
          (clamp_le r.importance_score, clamp_le r.virality_score, fit, risk)
  ]
]

decoded_score-Fits : (o : Result RawScore) (v : NewsScore) → decoded_score o ≡ ok v → Fits v
decoded_score-Fits (ok r) v h = checked_score-Fits r v h
decoded_score-Fits (err e) v h = absurd (ground arith)

parse_score-Fits :
    (json : Json) (raw : String) (v : NewsScore) → parse_score json raw ≡ ok v → Fits v
unfolding parse_score
parse_score-Fits json raw v h = elim (Bool-cases (str_eq (clean_json raw) "")) [
  | inl empty ↦ absurd (ground arith)
  | inr some_text ↦ decoded_score-Fits (json.score (clean_json raw)) v (ground arith)
]

-- Whatever text a model answers with, and whatever the decoder makes of it: a score that `parseScore`
-- returns is one that `SaveScore` can store for a candidate that has a row, since neither the table's
-- CHECKs nor its foreign key rejects it.
pub parse_score-write_score :
    (json : Json) (raw : String) (c row : Candidate) (r : ScoreResult) (id now : ℕ) (db : Db)
    → find_candidate c.id db ≡ some row
    → parse_score json raw ≡ ok r.score
    → (saved : Score × Db) × (write_score (score_row c r) id now db ≡ ok saved)
unfolding write_score score_fits score_row
parse_score-write_score json raw c stored r id now db found h =
    let (i, w, fit, risk) = parse_score-Fits json raw r.score h in
    let row = score_row c r in
    let accepted : score_fits row ≡ true = rw (fit, risk) (ground arith) in
    (written_score row id now (score_of c.id db.scores) db, rw (accepted, found) refl)

-- Numbered from `n + 1`, with captions that the tables accept.
abbrev pub Numbered : ℕ → List PostVariant → Type 0
Numbered n [] = Unit
Numbered n (v ∷ vs) =
    (v.variant_no ≡ n + 1)
    × (0 < rune_count v.caption)
    × (rune_count v.caption ≤ 2200)
    × Numbered (suc n) vs

rune_count-pos : (s : String) → str_eq (trim_space s) "" ≡ false → 0 < rune_count s
unfolding rune_count trim_space
rune_count-pos String.[] h = absurd (ground arith)
rune_count-pos (String.◌∷◌ c s) h = omega arith

keeps-caption :
    (v : RawVariant) → keeps v ≡ true → (0 < rune_count v.caption) × (rune_count v.caption ≤ 2200)
keeps-caption v h = elim (Bool-cases (str_eq (trim_space v.caption) "")) [
  | inl blank ↦ absurd (ground arith)
  | inr text ↦ (rune_count-pos v.caption text, ground arith)
]

normalize_from-Numbered : (n : ℕ) (vs : List RawVariant) → Numbered n (normalize_from n vs)
unfolding normalize_from
normalize_from-Numbered n [] = tt
normalize_from-Numbered n (v ∷ vs) = elim (Bool-cases (keeps v)) [
  | inl kept ↦
      let (some_text, short) = keeps-caption v kept in
      rw kept (refl, some_text, short, normalize_from-Numbered (suc n) vs)
  | inr dropped ↦ rw dropped (normalize_from-Numbered n vs)
]

found_or-Numbered :
    (o : Result (List RawVariant)) (rest : Result (List PostVariant)) (vs : List PostVariant)
    → ((ws : List PostVariant) → rest ≡ ok ws → Numbered 0 ws)
    → found_or o rest ≡ ok vs
    → Numbered 0 vs
unfolding normalize_variants
found_or-Numbered (ok []) rest vs k h = k vs h
found_or-Numbered (ok (v ∷ ws)) rest vs k h =
    subst (Numbered 0) (ok_inj (normalize_from 0 (v ∷ ws)) vs h)
      (normalize_from-Numbered 0 (v ∷ ws))
found_or-Numbered (err e) rest vs k h = k vs h

-- Whatever text a model answers with, and whatever the decoder makes of it: the variants that
-- `parseVariants` returns are numbered 1, 2, 3 and so on without a gap, and each caption has 1 to 2200
-- characters, as the table's CHECKs ask.
pub parse_variants-Numbered :
    (json : Json) (raw : String) (vs : List PostVariant)
    → parse_variants json raw ≡ ok vs
    → Numbered 0 vs
unfolding parse_variants
parse_variants-Numbered json raw vs h = elim (Bool-cases (str_eq (clean_json raw) "")) [
  | inl empty ↦ absurd (ground arith)
  | inr some_text ↦
      let cleaned = clean_json raw in
      let nothing : Result (List PostVariant) =
        err (message "parse variants JSON: no variants found") in
      found_or-Numbered (json.envelope cleaned) (found_or (json.array cleaned) nothing) vs
        (λ ws e.
          found_or-Numbered (json.array cleaned) nothing ws (λ us f. absurd (ground arith)) e)
        (ground arith)
]
