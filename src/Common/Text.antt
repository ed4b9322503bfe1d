-- ===== src/Common/Text.antt =====
-- What the code uses of Go's `strings`, `strconv` and `utf8`, over the native `String`, a list of
-- characters. Where Go counts runes, the model counts characters.
use Prim.Native.Nat.{ℕ, zero, suc, ◌+◌, ◌/◌, ◌%◌, ◌^◌, ◌-◌, ◌*◌}
use Prim.Native.Char.{Char, code}
use Prim.Native.String.{String, ◌++◌, len, slice}
use mathlib.Core.Path.{◌≡◌, refl}
use mathlib.Core.Bool.{Bool, true, false, ◌&&◌, ◌||◌}
use mathlib.Core.Option.{Option, none, some}
use mathlib.Core.List.{List, [], ◌∷◌}
use ai_social_publisher.Common.Tests.{leb, ltb, ◌==◌, str_eq, if◌then◌else◌}

-- `unicode.IsSpace`
unfoldable pub is_space : Char → Bool
is_space c =
    let n = code c in
    (leb 9 n && leb n 13)
    || n == 32
    || n == 133
    || n == 160
    || n == 5760
    || (leb 8192 n && leb n 8202)
    || n == 8232
    || n == 8233
    || n == 8239
    || n == 8287
    || n == 12288

unfoldable pub trim_left : String → String
trim_left String.[] = String.[]
trim_left (String.◌∷◌ c s) = let rest = trim_left s in if is_space c then rest else String.◌∷◌ c s

unfoldable pub trim_right : String → String
trim_right String.[] = String.[]
trim_right (String.◌∷◌ c s) =
    let rest = trim_right s in if is_space c && str_eq rest "" then String.[] else String.◌∷◌ c rest

-- `strings.TrimSpace`
unfoldable pub trim_space : String → String
unfolding is_space trim_left trim_right
trim_space s = trim_right (trim_left s)

-- `utf8.RuneCountInString` and `len([]rune(s))`
unfoldable pub rune_count : String → ℕ
rune_count String.[] = 0
rune_count (String.◌∷◌ c s) = suc (rune_count s)

-- `string([]rune(s)[:n])`, for n at most the number of runes
unfoldable pub take_runes : ℕ → String → String
take_runes zero s = String.[]
take_runes (suc n) String.[] = String.[]
take_runes (suc n) (String.◌∷◌ c s) = String.◌∷◌ c (take_runes n s)

-- The pieces of a `fmt.Sprintf`, joined.
unfoldable pub concat : List String → String
concat [] = ""
concat (s ∷ rest) = s ++ concat rest

unfoldable pub digit : ℕ → String
digit zero = "0"
digit (suc zero) = "1"
digit (suc (suc zero)) = "2"
digit (suc (suc (suc zero))) = "3"
digit (suc (suc (suc (suc zero)))) = "4"
digit (suc (suc (suc (suc (suc zero))))) = "5"
digit (suc (suc (suc (suc (suc (suc zero)))))) = "6"
digit (suc (suc (suc (suc (suc (suc (suc zero))))))) = "7"
digit (suc (suc (suc (suc (suc (suc (suc (suc zero)))))))) = "8"
digit _ = "9"

-- The fuel bounds the number of digits; an int64 has at most 19.
unfoldable pub digits : ℕ → ℕ → String
digits zero n = ""
digits (suc fuel) n =
    let rest = digits fuel (n / 10) in if ltb n 10 then digit n else rest ++ digit (n % 10)

-- `strconv.FormatInt(n, 10)` and the verb %d
unfoldable pub format_int : ℕ → String
unfolding digit digits
format_int n = digits 20 n

unfoldable pub scan_digits : String → ℕ → Option ℕ
scan_digits String.[] n = some n
scan_digits (String.◌∷◌ c s) n =
    let d = code c in
    let rest = scan_digits s (n * 10 + (d - 48)) in if leb 48 d && leb d 57 then rest else none

unfoldable pub unsigned : String → Option ℕ
unsigned s = if str_eq s "" then none else scan_digits s 0

abbrev pub within : ℕ → Option ℕ → Option ℕ
within limit none = none
within limit (some n) = if leb n limit then some n else none

abbrev negated : Option ℕ → Option ℕ
negated none = none
negated (some n) = some 0

unfoldable pub signed : ℕ → String → String → Option ℕ
signed c rest s =
    if c == 43
    then within (2 ^ 63 - 1) (unsigned rest)
    else if c == 45
    then negated (within (2 ^ 63) (unsigned rest))
    else within (2 ^ 63 - 1) (unsigned s)

-- `strconv.ParseInt(s, 10, 64)` for an id. Ids start at 1, so no row has a negative one: it is read
-- as 0, which no row has either.
unfoldable pub parse_id : String → Option ℕ
unfolding scan_digits unsigned signed
parse_id String.[] = none
parse_id (String.◌∷◌ c s) = signed (code c) s (String.◌∷◌ c s)

-- `msg[:n]` of a longer text, where the cut falls between two characters
unfoldable pub truncate_bytes : ℕ → String → String
truncate_bytes n s = if ltb n (len s) then slice s 0 n else s

-- `strings.CutPrefix`
unfoldable pub cut_prefix : String → String → Option String
cut_prefix String.[] s = some s
cut_prefix (String.◌∷◌ c p) String.[] = none
cut_prefix (String.◌∷◌ c p) (String.◌∷◌ d s) =
    let rest = cut_prefix p s in if code c == code d then rest else none

abbrev pub behind : Char → Option (String × String) → Option (String × String)
behind c none = none
behind c (some (before, after)) = some (String.◌∷◌ c before, after)

abbrev pub cut_here : Option String → Option (String × String) → Option (String × String)
cut_here none rest = rest
cut_here (some after) rest = some (String.[], after)

-- `strings.Cut`: what stands before and after the first occurrence.
unfoldable pub cut : String → String → Option (String × String)
unfolding cut_prefix
cut sep String.[] = cut_here (cut_prefix sep String.[]) none
cut sep (String.◌∷◌ c s) =
    let rest = cut sep s in cut_here (cut_prefix sep (String.◌∷◌ c s)) (behind c rest)

parse_id_test : (parse_id "42" ≡ some 42) × (parse_id "-42" ≡ some 0) × (parse_id "4x" ≡ none)
unfolding parse_id
parse_id_test = (refl, refl, refl)

format_int_test : format_int 9223372036854775807 ≡ "9223372036854775807"
unfolding format_int
format_int_test = refl

trim_space_test : trim_space "  a b\n " ≡ "a b"
unfolding trim_space
trim_space_test = refl

concat_test : concat ("a:" ∷ format_int 7 ∷ []) ≡ "a:7"
unfolding concat format_int
concat_test = refl

-- Whether a text is one of some texts: `oneOf`, `oneOfString`, and `IN (…)`.
unfoldable pub one_of : String → List String → Bool
one_of value [] = false
one_of value (s ∷ rest) = let more = one_of value rest in if str_eq value s then true else more
