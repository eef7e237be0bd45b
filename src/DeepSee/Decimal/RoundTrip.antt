-- ===== src/DeepSee/Decimal/RoundTrip.antt =====
-- `int_of_text` on the texts that `zero_padded` prints.
use Prim.Native.Char.{code}
use mathlib.Core.Option
use contextql_server.Prelude.{
  ℕ, zero, suc, ◌+◌, ◌-◌, ◌*◌, ◌/◌, ◌%◌, ◌≤◌, ◌<◌, String, ◌≡◌, refl, sym, ap, ◌∙◌, Bool, true,
  false, ◌&&◌, some, List, [], ◌∷◌, arith, ◌==◌, Bool-cases, inl, inr,
}
use contextql_server.Prelude.Int.{pos}
use contextql_server.DeepSee.Decimal.{
  codes, is_digit, is_space, digits, int_of_codes, int_of_text, digit_char, emit, zero_padded,
  str_of_ℤ,
}

code-digit_char : (d : ℕ) → d < 10 → code (digit_char d) ≡ 48 + d
unfolding digit_char
code-digit_char zero h = refl
code-digit_char (suc zero) h = refl
code-digit_char (suc (suc zero)) h = refl
code-digit_char (suc (suc (suc zero))) h = refl
code-digit_char (suc (suc (suc (suc zero)))) h = refl
code-digit_char (suc (suc (suc (suc (suc zero))))) h = refl
code-digit_char (suc (suc (suc (suc (suc (suc zero)))))) h = refl
code-digit_char (suc (suc (suc (suc (suc (suc (suc zero))))))) h = refl
code-digit_char (suc (suc (suc (suc (suc (suc (suc (suc zero)))))))) h = refl
code-digit_char (suc (suc (suc (suc (suc (suc (suc (suc (suc d))))))))) h = omega arith

digit_step :
    (need : Bool) (n d : ℕ) (cs : List ℕ)
    → d < 10
    → digits need n ((48 + d) ∷ cs) ≡ digits false (n * 10 + d) cs
unfolding digits
digit_step need n d cs h =
    let e : is_digit (48 + d) ≡ true = ground arith in
    let v : 48 + d - 48 ≡ d = omega arith in rw (e, v)

-- A digit is read whether or not it has to come next.
digits-digit_char :
    (need : Bool) (n d : ℕ) (cs : List ℕ)
    → d < 10
    → digits need n (code (digit_char d) ∷ cs) ≡ digits false (n * 10 + d) cs
unfolding digits
digits-digit_char need n d cs h = rw (code-digit_char d h) (digit_step need n d cs h)

zero_lead :
    (n d : ℕ) (acc : String)
    → n ≡ 0
    → digits false (0 * 10 + d) (codes acc) ≡ digits false (n * 10 + d) (codes acc)
zero_lead n d acc h = ap (λ m. digits false (m * 10 + d) (codes acc)) (sym h)

whole : (n : ℕ) → n / 10 * 10 + n % 10 ≡ n
whole n = omega arith

digits-emit :
    (f w n d : ℕ) (acc : String)
    → w + n ≤ f
    → d < 10
    → digits true 0 (codes (emit f w n (String.◌∷◌ (digit_char d) acc)))
      ≡ digits false (n * 10 + d) (codes acc)
unfolding emit
digits-emit zero w n d acc h k =
    digits-digit_char true 0 d (codes acc) k ∙ zero_lead n d acc (omega arith)
digits-emit (suc f) w n d acc h k = elim (Bool-cases (w == 0 && n == 0)) [
  | inl done ↦ rw done (digits-digit_char true 0 d (codes acc) k ∙ zero_lead n d acc (ground arith))
  | inr more ↦ rw more (
      digits-emit f (w - 1) (n / 10) (n % 10) (String.◌∷◌ (digit_char d) acc) (ground arith)
        (omega arith)
      ∙ digits-digit_char false (n / 10 * 10 + n % 10) d (codes acc) k
      ∙ ap (λ m. digits false (m * 10 + d) (codes acc)) (whole n))
]

-- The text begins with a digit.
abbrev StartsWithDigit : String → Type 0
StartsWithDigit s = (e : ℕ) × (rest : String) × (e < 10) × (s ≡ String.◌∷◌ (digit_char e) rest)

emit-StartsWithDigit :
    (f w n d : ℕ) (acc : String)
    → d < 10
    → StartsWithDigit (emit f w n (String.◌∷◌ (digit_char d) acc))
unfolding emit
emit-StartsWithDigit zero w n d acc k = (d, acc, k, refl)
emit-StartsWithDigit (suc f) w n d acc k = elim (Bool-cases (w == 0 && n == 0)) [
  | inl done ↦ rw done (d, acc, k, refl)
  | inr more ↦ rw more (
      emit-StartsWithDigit f (w - 1) (n / 10) (n % 10) (String.◌∷◌ (digit_char d) acc)
        (omega arith))
]

-- Neither a space nor a sign: the digits are read from the first character on.
int_of_codes-digit :
    (e : ℕ) (cs : List ℕ)
    → e < 10
    → int_of_codes ((48 + e) ∷ cs) ≡ Option.map pos (digits true 0 ((48 + e) ∷ cs))
unfolding int_of_codes
int_of_codes-digit e cs h =
    let sp : is_space (48 + e) ≡ false = unfold is_space in ground arith in
    let minus : (48 + e == b'-') ≡ false = ground arith in
    let plus : (48 + e == b'+') ≡ false = ground arith in rw (sp, minus, plus)

int_of_text-StartsWithDigit :
    (s : String) → StartsWithDigit s → int_of_text s ≡ Option.map pos (digits true 0 (codes s))
unfolding int_of_text
int_of_text-StartsWithDigit s (e, rest, h, p) =
    rw (p, code-digit_char e h) (int_of_codes-digit e (codes rest) h)

emit_first :
    (w n : ℕ)
    → zero_padded (suc w) n ≡ emit (w + n) w (n / 10) (String.◌∷◌ (digit_char (n % 10)) String.[])
unfolding zero_padded emit
emit_first w n =
    let e : suc w + n ≡ suc (w + n) = omega arith in
    let p : suc w - 1 ≡ w = omega arith in rw (e, p) (ground arith)

read_all : (n : ℕ) → digits false (n / 10 * 10 + n % 10) [] ≡ some n
unfolding digits
read_all n = ap some (whole n)

-- For every width of one digit or more, `int` reads a zero-padded number back as that number: so
-- the watermarks, cursors and sequence numbers that the mock prints are ordered as their numbers.
pub int_of_text-zero_padded : (w n : ℕ) → 0 < w → int_of_text (zero_padded w n) ≡ some (pos n)
int_of_text-zero_padded zero n h = elim h [ ]
int_of_text-zero_padded (suc w) n h = rw (emit_first w n) (
    int_of_text-StartsWithDigit _
      (emit-StartsWithDigit (w + n) w (n / 10) (n % 10) String.[] (omega arith))
    ∙ ap (Option.map pos) (
        digits-emit (w + n) w (n / 10) (n % 10) String.[] (omega arith) (omega arith) ∙ read_all n))

-- likewise for `str(n)`
pub int_of_text-str_of_ℤ : (n : ℕ) → int_of_text (str_of_ℤ (pos n)) ≡ some (pos n)
unfolding str_of_ℤ
int_of_text-str_of_ℤ n = int_of_text-zero_padded 1 n (omega arith)
