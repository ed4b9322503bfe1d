-- ===== src/Common/Numbers.antt =====
-- A number that is printed is read back: `strconv.FormatInt` and `strconv.ParseInt`.
use Prim.Native.Nat.{ℕ, zero, suc, ◌+◌, ◌*◌, ◌/◌, ◌%◌, ◌^◌, ◌-◌, ◌≤◌, ◌<◌}
use Prim.Native.Char.{Char, code}
use Prim.Native.String.{String, ◌++◌}
use Prim.Native.String.append
use Prim.Native.String.compare
use text.Mathlib.TextLemmas.{append-nil, append_assoc}
use mathlib.Core.Path.{◌≡◌, refl, sym, ap, ◌∙◌}
use mathlib.Core.Logic.{inl, inr}
use mathlib.Core.Bool.{true, false}
use mathlib.Core.Option.{some}
use native.Mathlib.Omega.{arith}
use ai_social_publisher.Common.Tests.{ltb, str_eq, Bool-cases}
use ai_social_publisher.Common.Text.{
  digit, digits, format_int, scan_digits, unsigned, within, signed, parse_id,
}

digit_lem :
    (d : ℕ) (t : String) (a : ℕ)
    → d < 10
    → scan_digits (digit d ++ t) a ≡ scan_digits t (a * 10 + d)
unfolding digit scan_digits
digit_lem zero t a h = rw (append.cons, append.nil) refl
digit_lem (suc zero) t a h = rw (append.cons, append.nil) refl
digit_lem (suc (suc zero)) t a h = rw (append.cons, append.nil) refl
digit_lem (suc (suc (suc zero))) t a h = rw (append.cons, append.nil) refl
digit_lem (suc (suc (suc (suc zero)))) t a h = rw (append.cons, append.nil) refl
digit_lem (suc (suc (suc (suc (suc zero))))) t a h = rw (append.cons, append.nil) refl
digit_lem (suc (suc (suc (suc (suc (suc zero)))))) t a h = rw (append.cons, append.nil) refl
digit_lem (suc (suc (suc (suc (suc (suc (suc zero))))))) t a h = rw (append.cons, append.nil) refl
digit_lem (suc (suc (suc (suc (suc (suc (suc (suc zero)))))))) t a h =
    rw (append.cons, append.nil) refl
digit_lem (suc (suc (suc (suc (suc (suc (suc (suc (suc zero))))))))) t a h =
    rw (append.cons, append.nil) refl
digit_lem (suc (suc (suc (suc (suc (suc (suc (suc (suc (suc d)))))))))) t a h =
    absurd (omega (arith, h))

digits_lem :
    (fuel n : ℕ) (t : String) → n < 10 ^ fuel → scan_digits (digits fuel n ++ t) 0 ≡ scan_digits t n
unfolding digits
digits_lem zero n t h = rw (append.nil t) (ap (scan_digits t) (omega (arith, h)))
digits_lem (suc fuel) n t h = elim (Bool-cases (ltb n 10)) [
  | inl small ↦
      rw small (digit_lem n t 0 (ground (arith, small)) ∙ ap (scan_digits t) (omega arith))
  | inr large ↦
      let rest = digits_lem fuel (n / 10) (digit (n % 10) ++ t) (omega (arith, h)) in
      rw large (
        ap (λ s. scan_digits s 0) (append_assoc (digits fuel (n / 10)) (digit (n % 10)) t)
        ∙ rest
        ∙ digit_lem (n % 10) t (n / 10) (omega arith)
        ∙ ap (scan_digits t) (omega arith))
]

pub cons_some : (c : Char) (s : String) → str_eq (String.◌∷◌ c s) "" ≡ false
cons_some c s = ground (arith, compare.cons-nil c s)

pub append-some : (m t : String) → str_eq t "" ≡ false → str_eq (m ++ t) "" ≡ false
append-some String.[] t h = rw (append.nil t) h
append-some (String.◌∷◌ c m) t h = rw (append.cons c m t) (cons_some c (m ++ t))

-- A text that begins with a digit.
abbrev pub IsDigit : Char → Type 0
IsDigit c = (48 ≤ code c) × (code c ≤ 57)

abbrev pub Leads : String → Type 0
Leads s = (c : Char) × (rest : String) × (s ≡ String.◌∷◌ c rest) × IsDigit c

digit-Leads : (d : ℕ) → Leads (digit d)
unfolding digit
digit-Leads zero = ("0", "", refl, (omega arith, omega arith))
digit-Leads (suc zero) = ("1", "", refl, (omega arith, omega arith))
digit-Leads (suc (suc zero)) = ("2", "", refl, (omega arith, omega arith))
digit-Leads (suc (suc (suc zero))) = ("3", "", refl, (omega arith, omega arith))
digit-Leads (suc (suc (suc (suc zero)))) = ("4", "", refl, (omega arith, omega arith))
digit-Leads (suc (suc (suc (suc (suc zero))))) = ("5", "", refl, (omega arith, omega arith))
digit-Leads (suc (suc (suc (suc (suc (suc zero)))))) = ("6", "", refl, (omega arith, omega arith))
digit-Leads (suc (suc (suc (suc (suc (suc (suc zero))))))) =
    ("7", "", refl, (omega arith, omega arith))
digit-Leads (suc (suc (suc (suc (suc (suc (suc (suc zero)))))))) =
    ("8", "", refl, (omega arith, omega arith))
digit-Leads (suc (suc (suc (suc (suc (suc (suc (suc (suc d))))))))) =
    ("9", "", refl, (omega arith, omega arith))

below : (n : ℕ) → n < 10 ^ 1 → ltb n 10 ≡ true
below n h = ground (arith, h)

digits-Leads : (fuel n : ℕ) → n < 10 ^ suc fuel → Leads (digits (suc fuel) n)
unfolding digits
digits-Leads zero n h = rw (below n h) (digit-Leads n)
digits-Leads (suc fuel) n h = elim (Bool-cases (ltb n 10)) [
  | inl small ↦ rw small (digit-Leads n)
  | inr large ↦
      let (c, rest, same, is_digit) = digits-Leads fuel (n / 10) (omega (arith, h)) in
      rw large (
        c,
        rest ++ digit (n % 10),
        ap (λ s. s ++ digit (n % 10)) same ∙ append.cons c rest (digit (n % 10)),
        is_digit,
      )
]

signed-digit :
    (c : Char) (rest s : String)
    → IsDigit c
    → signed (code c) rest s ≡ within (2 ^ 63 - 1) (unsigned s)
unfolding signed
signed-digit c rest s h = ground (arith, h)

parse_id-digits :
    (s : String) (n : ℕ) → Leads s → scan_digits s 0 ≡ some n → n < 2 ^ 63 → parse_id s ≡ some n
unfolding parse_id unsigned
parse_id-digits s n (c, rest, same, is_digit) read small =
    let whole : unsigned (String.◌∷◌ c rest) ≡ some n =
      rw (cons_some c rest) (ap (λ t. scan_digits t 0) (sym same) ∙ read) in
    let bounded : within (2 ^ 63 - 1) (some n) ≡ some n = ground (arith, small) in
    ap parse_id same
    ∙ signed-digit c rest (String.◌∷◌ c rest) is_digit
    ∙ ap (within (2 ^ 63 - 1)) whole
    ∙ bounded

scan_digits-digits : (fuel n : ℕ) → n < 10 ^ fuel → scan_digits (digits fuel n) 0 ≡ some n
unfolding scan_digits
scan_digits-digits fuel n h =
    ap (λ s. scan_digits s 0) (sym (append-nil (digits fuel n))) ∙ digits_lem fuel n "" h

-- Every id, and every time in seconds, that `FormatInt` prints is read back by `ParseInt`: a number up
-- to the largest of an int64.
pub parse_id-format_int : (n : ℕ) → n < 2 ^ 63 → parse_id (format_int n) ≡ some n
unfolding format_int
parse_id-format_int n h =
    let big : n < 10 ^ 20 = omega (arith, h) in
    parse_id-digits (digits 20 n) n (digits-Leads 19 n big) (scan_digits-digits 20 n big) h
