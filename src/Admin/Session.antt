-- ===== src/Admin/Session.antt =====
-- internal/admin/auth.go: the cookie that `create` gives is the one that `verify` takes, for the time
-- of the session, and no other is taken.
use ai_social_publisher.Common.{
  ℕ, ◌+◌, ◌*◌, ◌/◌, ◌^◌, ◌<◌, ◌≡◌, refl, sym, ap, subst, ◌∙◌, String, true, false, Option, none,
  some, [], ◌∷◌, inl, inr, arith, ltb, ◌==◌, str_eq, eq_iff, eq_refl, Bool-cases, some_inj, concat,
  format_int, digit, digits, cut, cut_prefix, zero, suc, ◌%◌,
}
use ai_social_publisher.Common.Numbers.{parse_id-format_int, append-some, cons_some}
use Prim.Native.Char.{code}
use Prim.Native.String.{◌++◌}
use Prim.Native.String.append
use text.Mathlib.TextLemmas.{append-nil}
use ai_social_publisher.Admin.{
  Codec, SessionData, session_lifetime, sign, csrf, payload_of, create, last_cut, live_payload,
  signed_by, verify_parts, verify_cut, verify,
}

-- No dot.
abbrev pub Dotless : String → Type 0
Dotless String.[] = Unit
Dotless (String.◌∷◌ d s) = ((code d == 46) ≡ false) × Dotless s

-- What base64.RawURLEncoding does: its alphabet has no dot, a signature that it encodes it decodes,
-- and the 32 bytes of a signature are not encoded as the empty text.
pub record Base64Laws (c : Codec) : Type 0 where
  pub dotless : (s : String) → Dotless (c.encode s)
  pub signature_some : (s : String) → str_eq (c.encode (c.hmac s)) "" ≡ false
  pub round_trip : (s : String) → c.decode (c.encode (c.hmac s)) ≡ some (c.hmac s)

last_cut-Dotless : (s : String) → Dotless s → last_cut s ≡ none
unfolding last_cut
last_cut-Dotless String.[] h = refl
last_cut-Dotless (String.◌∷◌ d s) h = rw (last_cut-Dotless s h.1, h.0) refl

last_cut-append : (p s : String) → Dotless s → last_cut (p ++ ("." ++ s)) ≡ some (p, s)
unfolding last_cut
last_cut-append String.[] s h = rw (append.nil, append.cons, append.nil, last_cut-Dotless s h) refl
last_cut-append (String.◌∷◌ d p) s h = rw (append.cons d p, last_cut-append p s h) refl

-- The first dot is after a number.
cut-append : (p s : String) → Dotless p → cut "." (p ++ ("." ++ s)) ≡ some (p, s)
unfolding cut cut_prefix
cut-append String.[] s h = rw (append.nil, append.cons, append.nil) refl
cut-append (String.◌∷◌ d p) s h = rw (append.cons d p, cut-append p s h.1) (ground (arith, h.0))

Dotless-append : (s t : String) → Dotless s → Dotless t → Dotless (s ++ t)
Dotless-append String.[] t h k = rw (append.nil t) k
Dotless-append (String.◌∷◌ d s) t h k = rw (append.cons d s t) (h.0, Dotless-append s t h.1 k)

digit-Dotless : (d : ℕ) → Dotless (digit d)
unfolding digit
digit-Dotless zero = (refl, tt)
digit-Dotless (suc zero) = (refl, tt)
digit-Dotless (suc (suc zero)) = (refl, tt)
digit-Dotless (suc (suc (suc zero))) = (refl, tt)
digit-Dotless (suc (suc (suc (suc zero)))) = (refl, tt)
digit-Dotless (suc (suc (suc (suc (suc zero))))) = (refl, tt)
digit-Dotless (suc (suc (suc (suc (suc (suc zero)))))) = (refl, tt)
digit-Dotless (suc (suc (suc (suc (suc (suc (suc zero))))))) = (refl, tt)
digit-Dotless (suc (suc (suc (suc (suc (suc (suc (suc zero)))))))) = (refl, tt)
digit-Dotless (suc (suc (suc (suc (suc (suc (suc (suc (suc d))))))))) = (refl, tt)

digits-Dotless : (fuel n : ℕ) → Dotless (digits fuel n)
unfolding digits
digits-Dotless zero n = tt
digits-Dotless (suc fuel) n = elim (Bool-cases (ltb n 10)) [
  | inl small ↦ rw small (digit-Dotless n)
  | inr large ↦
      rw large (Dotless-append _ _ (digits-Dotless fuel (n / 10)) (digit-Dotless (n % 10)))
]

format_int-Dotless : (n : ℕ) → Dotless (format_int n)
unfolding format_int
format_int-Dotless n = digits-Dotless 20 n

concat_lem : (a b : String) → concat (a ∷ "." ∷ b ∷ []) ≡ a ++ ("." ++ b)
unfolding concat
concat_lem a b = ap (λ s. a ++ ("." ++ s)) (append-nil b)

verify_parts-accepts :
    (c : Codec) (now : ℕ) (payload : String)
    → Base64Laws c
    → str_eq payload "" ≡ false
    → live_payload now (cut "." payload) ≡ true
    → verify_parts c now payload (c.encode (c.hmac (concat ("session\0" ∷ payload ∷ []))))
      ≡ some (record { payload = payload; csrf = csrf c payload })
unfolding verify_parts
verify_parts-accepts c now payload laws named live =
    let text = concat ("session\0" ∷ payload ∷ []) in
    rw (named, laws.signature_some text, laws.round_trip text, eq_refl (c.hmac text), live) refl

last_cut-sign :
    (c : Codec) (payload : String)
    → Base64Laws c
    → last_cut (sign c payload)
      ≡ some (payload, c.encode (c.hmac (concat ("session\0" ∷ payload ∷ []))))
unfolding sign
last_cut-sign c payload laws =
    let text = c.hmac (concat ("session\0" ∷ payload ∷ [])) in
    ap last_cut (concat_lem payload (c.encode text))
    ∙ last_cut-append payload (c.encode text) (laws.dotless text)

payload-some : (a b : String) → str_eq (concat (a ∷ "." ∷ b ∷ [])) "" ≡ false
payload-some a b =
    let dot : str_eq ("." ++ b) "" ≡ false = rw (append.cons, append.nil) (cons_some "." b) in
    rw (concat_lem a b) (append-some a ("." ++ b) dot)

live_payload-format_int :
    (later n : ℕ) (b : String)
    → n < 2 ^ 63
    → later < n * 1000000000
    → live_payload later (cut "." (concat (format_int n ∷ "." ∷ b ∷ []))) ≡ true
live_payload-format_int later n b small before =
    let parts =
      ap (cut ".") (concat_lem (format_int n) b)
      ∙ cut-append (format_int n) b (format_int-Dotless n) in
    rw (parts, parse_id-format_int n small) (ground (arith, before))

-- A session that `create` starts is accepted, with its CSRF token, at any time before the second at
-- which it ends, eight hours later; base64 is a parameter that decodes a signature
-- that it has encoded, and writes no dot.
pub verify-create :
    (c : Codec) (now later : ℕ) (nonce : String)
    → Base64Laws c
    → (now + session_lifetime) / 1000000000 < 2 ^ 63
    → later < (now + session_lifetime) / 1000000000 * 1000000000
    → verify c (create c now nonce).0 later
      ≡ some (record { payload = payload_of c now nonce; csrf = (create c now nonce).1 })
unfolding verify create payload_of
verify-create c now later nonce laws small before =
    let n = (now + session_lifetime) / 1000000000 in
    let payload = payload_of c now nonce in
    ap (verify_cut c later) (last_cut-sign c payload laws)
    ∙ verify_parts-accepts c later payload laws (payload-some (format_int n) (c.encode nonce))
        (live_payload-format_int later n (c.encode nonce) small before)

-- A cookie that `verify` accepts is a payload, a dot and a text that decodes to the codec's signature
-- of that payload, whose expiry, read up to the payload's first dot, is not reached; the session has
-- this payload and its CSRF token.
pub record Genuine (c : Codec) (value : String) (now : ℕ) (session : SessionData) : Type 0 where
  pub encoded : String
  pub parts : last_cut value ≡ some (session.payload, encoded)
  pub signed : c.decode encoded ≡ some (c.hmac (concat ("session\0" ∷ session.payload ∷ [])))
  pub live : live_payload now (cut "." session.payload) ≡ true
  pub token : session.csrf ≡ csrf c session.payload

signed_by-eq :
    (c : Codec) (payload : String) (o : Option String)
    → signed_by c payload o ≡ true
    → o ≡ some (c.hmac (concat ("session\0" ∷ payload ∷ [])))
signed_by-eq c payload none h = absurd (ground arith)
signed_by-eq c payload (some s) h = ap some ((eq_iff s _).0 h)

verify_cut-Genuine :
    (c : Codec) (value : String) (now : ℕ) (o : Option (String × String)) (session : SessionData)
    → last_cut value ≡ o
    → verify_cut c now o ≡ some session
    → Genuine c value now session
unfolding verify_parts
verify_cut-Genuine c value now none session e h = absurd (ground arith)
verify_cut-Genuine c value now (some (payload, encoded)) session e h =
    elim (Bool-cases (str_eq payload "")) [
      | inl empty ↦ absurd (ground arith)
      | inr named ↦ elim (Bool-cases (str_eq encoded "")) [
        | inl empty ↦ absurd (ground arith)
        | inr given ↦ elim (Bool-cases (signed_by c payload (c.decode encoded))) [
          | inr forged ↦ absurd (ground arith)
          | inl signed ↦ elim (Bool-cases (live_payload now (cut "." payload))) [
            | inr over ↦ absurd (ground arith)
            | inl live ↦
                let made : SessionData = record { payload = payload; csrf = csrf c payload } in
                let same : verify_parts c now payload encoded ≡ some made =
                  rw (named, given, signed, live) refl in
                subst (Genuine c value now) (some_inj made session (sym same ∙ h)) (record {
                  encoded = encoded;
                  parts = e;
                  signed = signed_by-eq c payload (c.decode encoded) signed;
                  live = live;
                  token = refl;
                })
          ]
        ]
      ]
    ]

-- No cookie is accepted but one whose signature is the codec's own of its payload, before the expiry
-- that the payload names; the session then has that payload and its CSRF token.
pub verify-Genuine :
    (c : Codec) (value : String) (now : ℕ) (session : SessionData)
    → verify c value now ≡ some session
    → Genuine c value now session
unfolding verify
verify-Genuine c value now session h =
    verify_cut-Genuine c value now (last_cut value) session refl h
