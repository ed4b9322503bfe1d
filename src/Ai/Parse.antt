-- ===== src/Ai/Parse.antt =====
-- internal/ai/parse.go: the JSON document in a model's answer, the score and the variants that are
-- read from it. `json.Unmarshal` is a parameter.
use ai_social_publisher.Common.{
  ℕ, suc, ◌+◌, ℤ, pos, pos_part, ltb_ℤ, String, Bool, false, ◌||◌, not, Option, none, some, List,
  [], ◌∷◌, ◌==◌, ltb, str_eq, if◌then◌else◌, trim_space, rune_count, take_runes, concat, one_of,
  cut_prefix, cut, ◌≡◌, refl,
}
use Prim.Native.Char.{Char, code}
use ai_social_publisher.Errors.{message, wrapped}
use ai_social_publisher.Exec.{Result, ok, err, NewsScore, PostVariant}

-- `\s` of a regular expression
abbrev pub re_space : Char → Bool
re_space c = let n = code c in n == 9 || (n == 10 || (n == 12 || (n == 13 || n == 32)))

unfoldable pub skip_spaces : String → String
skip_spaces String.[] = String.[]
skip_spaces (String.◌∷◌ c s) =
    let rest = skip_spaces s in if re_space c then rest else String.◌∷◌ c s

abbrev pub or_else : String → Option String → String
or_else s none = s
or_else s (some t) = t

abbrev pub fence : String
fence = "```"

abbrev pub contents : Option (String × String) → Option String
contents none = none
contents (some (inside, _)) = some inside

abbrev pub opened : Option (String × String) → Option String
opened none = none
opened (some (_, after)) =
    contents (cut fence (skip_spaces (or_else after (cut_prefix "json" after))))

-- The group of `codeBlockRe` in its leftmost match: fences, an optional "json", spaces, and what
-- stands before the next fences.
unfoldable pub fenced : String → Option String
unfolding skip_spaces
fenced s = opened (cut fence s)

abbrev pub is_open : Char → Bool
is_open c = code c == 123 || code c == 91

abbrev pub is_close : Char → Bool
is_close c = code c == 125 || code c == 93

-- `HasPrefix` of one of the opening characters
abbrev pub starts_open : String → Bool
starts_open String.[] = false
starts_open (String.◌∷◌ c s) = is_open c

-- `s[strings.IndexAny(s, "{["):]`
unfoldable pub from_open : String → Option String
from_open String.[] = none
from_open (String.◌∷◌ c s) =
    let rest = from_open s in if is_open c then some (String.◌∷◌ c s) else rest

abbrev pub closed : Char → Option String → Option String
closed c (some t) = some (String.◌∷◌ c t)
closed c none = if is_close c then some (String.◌∷◌ c String.[]) else none

-- `s[:strings.LastIndexAny(s, "}]")+1]`
unfoldable pub to_close : String → Option String
to_close String.[] = none
to_close (String.◌∷◌ c s) = closed c (to_close s)

abbrev pub unfenced : String → Option String → String
unfenced s none = s
unfenced s (some inside) = trim_space inside

-- The document of a text without fences.
unfoldable pub sliced : String → String
unfolding from_open to_close
sliced s =
    let t = if starts_open s then s else or_else s (from_open s) in
    trim_space (or_else t (to_close t))

-- `cleanJSON`
unfoldable pub clean_json : String → String
unfolding fenced sliced
clean_json raw = let s = trim_space raw in sliced (unfenced s (fenced s))

-- A `NewsScore` as it is decoded, before its numbers are in range.
pub record RawScore : Type 0 where
  pub importance_score : ℤ
  pub virality_score : ℤ
  pub account_fit : String
  pub should_notify : Bool
  pub risk_level : String
  pub reason : String

-- A `PostVariant` as it is decoded; its number is not read.
pub record RawVariant : Type 0 where
  pub style : String
  pub caption : String

-- `json.Unmarshal` into a `NewsScore`, into a `variantsEnvelope` and into a `[]PostVariant`.
pub record Json : Type 0 where
  pub score : String → Result RawScore
  pub envelope : String → Result (List RawVariant)
  pub array : String → Result (List RawVariant)

-- `clamp`
abbrev pub clamp : ℤ → (lo hi : ℤ) → ℤ
clamp v lo hi = if ltb_ℤ v lo then lo else if ltb_ℤ hi v then hi else v

-- `oneOf`
abbrev pub fits : List String
fits = "technology" ∷ "cinema" ∷ "news" ∷ "economy" ∷ "skip" ∷ []

abbrev pub risks : List String
risks = "low" ∷ "medium" ∷ "high" ∷ []

abbrev pub or_default : String → String → String
or_default s d = if str_eq s "" then d else s

abbrev pub shortened : String → String
shortened reason = if ltb 1000 (rune_count reason) then take_runes 1000 reason else reason

-- The score with its numbers clamped, its defaults, and a reason of at most 1000 characters.
abbrev pub score_value : RawScore → NewsScore
score_value r = record {
  importance_score = pos_part (clamp r.importance_score (pos 0) (pos 100));
  virality_score = pos_part (clamp r.virality_score (pos 0) (pos 100));
  account_fit = or_default r.account_fit "skip";
  should_notify = r.should_notify;
  risk_level = or_default r.risk_level "low";
  reason = shortened r.reason;
}

-- `parseScore` after the decoding
unfoldable pub checked_score : RawScore → Result NewsScore
unfolding one_of
checked_score r =
    let v = score_value r in
    if one_of v.account_fit fits
    then if one_of v.risk_level risks
      then ok v
      else err (message (concat ("invalid riskLevel \"" ∷ v.risk_level ∷ "\"" ∷ [])))
    else err (message (concat ("invalid accountFit \"" ∷ v.account_fit ∷ "\"" ∷ [])))

abbrev pub decoded_score : Result RawScore → Result NewsScore
decoded_score (ok r) = checked_score r
decoded_score (err e) = err (wrapped "parse score JSON: " e "")

-- `parseScore`
unfoldable pub parse_score : Json → String → Result NewsScore
unfolding checked_score clean_json
parse_score json raw =
    let cleaned = clean_json raw in
    if str_eq cleaned ""
    then err (message "empty AI response")
    else decoded_score (json.score cleaned)

abbrev pub keeps : RawVariant → Bool
keeps v = if str_eq (trim_space v.caption) "" then false else not (ltb 2200 (rune_count v.caption))

abbrev pub numbered : ℕ → RawVariant → PostVariant
numbered n v = record { variant_no = n; style = v.style; caption = v.caption }

-- `normalizeVariants`, where `n` variants stand in `out` already
unfoldable pub normalize_from : ℕ → List RawVariant → List PostVariant
normalize_from n [] = []
normalize_from n (v ∷ vs) =
    let kept = normalize_from (suc n) vs in
    let dropped = normalize_from n vs in if keeps v then numbered (n + 1) v ∷ kept else dropped

unfoldable pub normalize_variants : List RawVariant → List PostVariant
unfolding normalize_from
normalize_variants vs = normalize_from 0 vs

abbrev pub found_or :
    Result (List RawVariant) → Result (List PostVariant) → Result (List PostVariant)
found_or (ok []) rest = rest
found_or (ok (v ∷ vs)) rest = ok (normalize_variants (v ∷ vs))
found_or (err e) rest = rest

-- `parseVariants`
unfoldable pub parse_variants : Json → String → Result (List PostVariant)
unfolding clean_json normalize_variants
parse_variants json raw =
    let cleaned = clean_json raw in
    if str_eq cleaned ""
    then err (message "empty AI response")
    else found_or (json.envelope cleaned)
        (found_or (json.array cleaned) (err (message "parse variants JSON: no variants found")))

clean_json_test :
    (clean_json "Here you are:\n```json\n{\"a\": [1]}\n```\nDone." ≡ "{\"a\": [1]}")
    × (clean_json "Sure! [1, 2] :)" ≡ "[1, 2]")
    × (clean_json "  {\"a\": 1}  " ≡ "{\"a\": 1}")
unfolding clean_json trim_space cut
clean_json_test = (refl, refl, refl)
