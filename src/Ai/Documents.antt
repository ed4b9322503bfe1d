-- ===== src/Ai/Documents.antt =====
-- internal/ai/parse.go: `cleanJSON` recovers the document that a model has put between fences.
use ai_social_publisher.Common.{
  ◌≡◌, refl, sym, ap, ◌∙◌, String, true, false, ◌||◌, some, arith, str_eq, ◌==◌, cut_prefix, cut,
  trim_space, trim_left, trim_right, is_space,
}
use Prim.Native.Char.{Char, code}
use Prim.Native.String.{◌++◌}
use Prim.Native.String.append
use ai_social_publisher.Common.Numbers.{cons_some, append-some}
use ai_social_publisher.Ai.Parse.{
  skip_spaces, fence, fenced, re_space, is_open, is_close, to_close, contents, sliced, unfenced,
  clean_json,
}

-- No backtick.
abbrev pub Plain : String → Type 0
Plain String.[] = Unit
Plain (String.◌∷◌ c s) = ((96 == code c) ≡ false) × Plain s

cut-append :
    (m t b a : String) → Plain m → cut fence t ≡ some (b, a) → cut fence (m ++ t) ≡ some (m ++ b, a)
unfolding cut cut_prefix
cut-append String.[] t b a p h = rw (append.nil t, append.nil b) h
cut-append (String.◌∷◌ c m) t b a p h =
    let rest = cut-append m t b a p.1 h in
    rw (append.cons c m t, append.cons c m b) rw rest (ground (arith, p.0))

to_close-append : (m t u : String) → to_close t ≡ some u → to_close (m ++ t) ≡ some (m ++ u)
unfolding to_close
to_close-append String.[] t u h = rw (append.nil t, append.nil u) h
to_close-append (String.◌∷◌ c m) t u h =
    let rest = to_close-append m t u h in rw (append.cons c m t, append.cons c m u) rw rest refl

trim_right-append :
    (m t : String) → str_eq (trim_right t) "" ≡ false → trim_right (m ++ t) ≡ m ++ trim_right t
unfolding trim_right
trim_right-append String.[] t h = rw (append.nil t, append.nil (trim_right t)) refl
trim_right-append (String.◌∷◌ c m) t h =
    let rest = trim_right-append m t h in
    rw (append.cons c m t, append.cons c m (trim_right t)) rw (rest, append-some m (trim_right t) h)
      (ground arith)

-- A text whose end is not trimmed is not trimmed.
trim_right-keeps :
    (m t whole : String)
    → m ++ t ≡ whole
    → trim_right t ≡ t
    → str_eq t "" ≡ false
    → trim_right whole ≡ whole
trim_right-keeps m t whole h kept ends =
    sym (ap trim_right h) ∙ trim_right-append m t (rw kept ends) ∙ ap (λ s. m ++ s) kept ∙ h

opened_lem :
    (t : String)
    → "```json\n" ++ t
      ≡ String.◌∷◌ "`" (
          String.◌∷◌ "`" (
            String.◌∷◌ "`" (
              String.◌∷◌ "j"
                (String.◌∷◌ "s" (String.◌∷◌ "o" (String.◌∷◌ "n" (String.◌∷◌ "\n" t)))))))
opened_lem t =
    rw
      (
        append.cons, append.cons, append.cons, append.cons, append.cons, append.cons, append.cons,
        append.cons, append.nil,
      )
      refl

visible :
    (c : Char)
    → is_open c || is_close c ≡ true
    → (is_space c ≡ false) × ((96 == code c) ≡ false) × (re_space c ≡ false)
unfolding is_space
visible c h = (ground arith, ground arith, ground arith)

trim_right-last :
    (e : Char) (s : String)
    → is_space e ≡ false
    → trim_right s ≡ ""
    → trim_right (String.◌∷◌ e s) ≡ String.◌∷◌ e ""
unfolding trim_right
trim_right-last e s h z = rw (h, z) refl

-- A document that begins with an opening brace or bracket and ends with a closing one, with no
-- backtick between.
module _ (c e : Char) (m : String) (first : is_open c ≡ true) (end : is_close e ≡ true)
    (plain : Plain m) where
  abbrev doc : String
  doc = String.◌∷◌ c (m ++ String.◌∷◌ e "")

  c_visible : (is_space c ≡ false) × ((96 == code c) ≡ false) × (re_space c ≡ false)
  c_visible = visible c (ground (arith, first))

  e_visible : (is_space e ≡ false) × ((96 == code e) ≡ false) × (re_space e ≡ false)
  e_visible = visible e (ground (arith, end))

  -- Trimming stops at the last character.
  trim_right-tail :
      (s : String) → trim_right s ≡ "" → trim_right (String.◌∷◌ c (m ++ String.◌∷◌ e s)) ≡ doc
  trim_right-tail s h =
      let at_end : trim_right (String.◌∷◌ e s) ≡ String.◌∷◌ e "" =
        trim_right-last e s e_visible.0 h in
      let kept = trim_right-append (String.◌∷◌ c m) (String.◌∷◌ e s) (rw at_end (cons_some e "")) in
      sym (ap trim_right (append.cons c m (String.◌∷◌ e s)))
      ∙ kept
      ∙ ap (λ t. String.◌∷◌ c m ++ t) at_end
      ∙ append.cons c m (String.◌∷◌ e "")

  trim_space-doc : trim_space doc ≡ doc
  unfolding trim_space trim_left
  trim_space-doc = rw (c_visible.0) (trim_right-tail "" refl)

  sliced-doc : sliced doc ≡ doc
  unfolding sliced to_close
  sliced-doc =
      let ends = to_close-append m (String.◌∷◌ e "") (String.◌∷◌ e "") (rw end refl) in
      rw (first, ends) trim_space-doc

  cut-doc :
      cut fence (String.◌∷◌ c (m ++ String.◌∷◌ e "\n```"))
      ≡ some (String.◌∷◌ c (m ++ String.◌∷◌ e "\n"), "")
  unfolding cut cut_prefix
  cut-doc =
      let at_end : cut fence (String.◌∷◌ e "\n```") ≡ some (String.◌∷◌ e "\n", "") =
        rw (e_visible.1) refl in
      let inside = cut-append m (String.◌∷◌ e "\n```") (String.◌∷◌ e "\n") "" plain at_end in
      rw (inside, c_visible.1) refl

  -- The answer of a model that has put the document between fences.
  abbrev answer : String
  answer = "```json\n" ++ String.◌∷◌ c (m ++ String.◌∷◌ e "\n```")

  fenced-answer : fenced answer ≡ some (String.◌∷◌ c (m ++ String.◌∷◌ e "\n"))
  unfolding fenced cut cut_prefix skip_spaces
  fenced-answer =
      rw (opened_lem (String.◌∷◌ c (m ++ String.◌∷◌ e "\n```")), c_visible.2) (ap contents cut-doc)

  trim_space-answer : trim_space answer ≡ answer
  unfolding trim_space trim_left
  trim_space-answer =
      let tail : trim_right (String.◌∷◌ e "\n```") ≡ String.◌∷◌ e "\n```" = rw (e_visible.0) refl in
      let line = String.◌∷◌ c (m ++ String.◌∷◌ e "\n```") in
      let left : trim_left answer ≡ answer = rw (opened_lem line) refl in
      let kept : trim_right line ≡ line =
        trim_right-keeps (String.◌∷◌ c m) (String.◌∷◌ e "\n```") line (append.cons c m _) tail
          (cons_some e "\n```") in
      ap trim_right left
      ∙ trim_right-keeps "```json\n" line answer refl kept (cons_some c (m ++ String.◌∷◌ e "\n```"))

  -- A document that begins with an opening brace or bracket, ends with a closing brace or bracket and has no
  -- backtick between them: when a model has put it between fences marked "json", it is what `cleanJSON`
  -- returns.
  pub clean_json-fenced : clean_json answer ≡ doc
  unfolding clean_json trim_space trim_left
  clean_json-fenced =
      let inside : trim_space (String.◌∷◌ c (m ++ String.◌∷◌ e "\n")) ≡ doc =
        rw (c_visible.0) (trim_right-tail "\n" refl) in
      ap (λ s. sliced (unfenced s (fenced s))) trim_space-answer
      ∙ ap (λ o. sliced (unfenced answer o)) fenced-answer
      ∙ ap sliced inside
      ∙ sliced-doc
