-- ===== src/Admin.antt =====
-- internal/admin/auth.go: the operator's session cookie and its CSRF token. The rest of the console is
-- not modelled.
pub mod Session
use ai_social_publisher.Common.{
  ℕ, ◌+◌, ◌*◌, ◌/◌, String, Bool, true, false, Option, none, some, List, [], ◌∷◌, ltb, ◌==◌, str_eq,
  if◌then◌else◌, concat, format_int, parse_id, cut,
}
use Prim.Native.Char.{Char, code}

-- What the codec uses of Go's library, bytes given as texts: HMAC-SHA256 under the codec's key, and
-- base64.RawURLEncoding.
pub record Codec : Type 0 where
  pub hmac : String → String
  pub encode : String → String
  pub decode : String → Option String

-- `sessionData`
pub record SessionData : Type 0 where
  pub payload : String
  pub csrf : String

-- `sessionLifetime`, in nanoseconds
abbrev pub session_lifetime : ℕ
session_lifetime = 8 * 3600 * 1000000000

-- `(sessionCodec).sign`
unfoldable pub sign : Codec → String → String
sign c payload =
    concat (payload ∷ "." ∷ c.encode (c.hmac (concat ("session\0" ∷ payload ∷ []))) ∷ [])

-- `(sessionCodec).csrf`
unfoldable pub csrf : Codec → String → String
csrf c payload = c.encode (c.hmac (concat ("csrf\0" ∷ payload ∷ [])))

-- The payload of `create`: the second at which the session ends, and the nonce that has been drawn.
unfoldable pub payload_of : Codec → (now : ℕ) → (nonce : String) → String
payload_of c now nonce =
    concat (format_int ((now + session_lifetime) / 1000000000) ∷ "." ∷ c.encode nonce ∷ [])

-- `(sessionCodec).create`
unfoldable pub create : Codec → (now : ℕ) → (nonce : String) → String × String
unfolding sign csrf payload_of
create c now nonce = let payload = payload_of c now nonce in (sign c payload, csrf c payload)

abbrev pub after_dot : Char → String → Option (String × String) → Option (String × String)
after_dot d s (some (before, after)) = some (String.◌∷◌ d before, after)
after_dot d s none = if code d == 46 then some (String.[], s) else none

-- What stands before and after `strings.LastIndexByte(value, '.')`.
unfoldable pub last_cut : String → Option (String × String)
last_cut String.[] = none
last_cut (String.◌∷◌ d s) = after_dot d s (last_cut s)

abbrev pub unexpired : (now : ℕ) → Option ℕ → Bool
unexpired now none = false
unexpired now (some expiry) = ltb now (expiry * 1000000000)

-- The expiry of a payload, whose signature has been checked: a negative number is no time after now.
abbrev pub live_payload : (now : ℕ) → Option (String × String) → Bool
live_payload now none = false
live_payload now (some (expiry, _)) = unexpired now (parse_id expiry)

-- `hmac.Equal`
abbrev pub signed_by : Codec → (payload : String) → Option String → Bool
signed_by c payload none = false
signed_by c payload (some provided) = str_eq provided (c.hmac (concat ("session\0" ∷ payload ∷ [])))

unfoldable pub verify_parts : Codec → (now : ℕ) → (payload encoded : String) → Option SessionData
unfolding csrf
verify_parts c now payload encoded =
    if str_eq payload ""
    then none
    else if str_eq encoded ""
    then none
    else if signed_by c payload (c.decode encoded)
    then if live_payload now (cut "." payload)
      then some (record { payload = payload; csrf = csrf c payload })
      else none
    else none

abbrev pub verify_cut : Codec → (now : ℕ) → Option (String × String) → Option SessionData
verify_cut c now none = none
verify_cut c now (some (payload, encoded)) = verify_parts c now payload encoded

-- `(sessionCodec).verify`
unfoldable pub verify : Codec → String → (now : ℕ) → Option SessionData
unfolding last_cut verify_parts
verify c value now = verify_cut c now (last_cut value)
