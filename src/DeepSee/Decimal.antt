-- ===== src/DeepSee/Decimal.antt =====
-- Decimal texts: Python's `int(text)` over ASCII, and `f"{n:0wd}"`, as the mock and the
-- synchronizer use them for watermarks, cursors and event ids.
pub mod RoundTrip
use Prim.Native.Char.{Char, code}
use contextql_server.Prelude.{
  ℕ, zero, suc, ◌+◌, ◌-◌, ◌*◌, ◌/◌, ◌%◌, String, Bool, true, not, ◌&&◌, ◌||◌, Option, none, some,
  List, [], ◌∷◌, leb, ◌==◌, all, if◌then◌else◌,
}
use contextql_server.Prelude.Int.{ℤ, pos, negsuc, negate}
use mathlib.Core.Option

abbrev pub codes : String → List ℕ
codes String.[] = []
codes (String.◌∷◌ c s) = code c ∷ codes s

is_digit : ℕ → Bool
is_digit c = leb 48 c && leb c 57

-- `str.isspace` for ASCII
unfoldable pub is_space : ℕ → Bool
is_space c = c == 32 || (leb 9 c && leb c 13) || (leb 28 c && leb c 31)

-- The digits that are left, `_` allowed between two of them, then spaces. `need` says that a digit
-- has to come next.
digits : Bool → ℕ → List ℕ → Option ℕ
unfolding is_digit is_space
digits need n [] = if need then none else some n
digits need n (c ∷ cs) =
    let rest = digits (not (is_digit c)) (if is_digit c then n * 10 + (c - 48) else n) cs in
    if is_digit c
    then rest
    else if need
    then none
    else if c == b'_'
    then rest
    else if all is_space (c ∷ cs)
    then some n
    else none

signed : ℕ → List ℕ → Option ℤ
unfolding digits
signed c cs =
    if c == b'-'
    then Option.map negate (digits true 0 cs)
    else if c == b'+'
    then Option.map pos (digits true 0 cs)
    else Option.map pos (digits true 0 (c ∷ cs))

int_of_codes : List ℕ → Option ℤ
unfolding signed
int_of_codes [] = none
int_of_codes (c ∷ cs) = let rest = int_of_codes cs in if is_space c then rest else signed c cs

-- `int(text)`, where `none` is a `ValueError`
unfoldable pub int_of_text : String → Option ℤ
unfolding int_of_codes
int_of_text s = int_of_codes (codes s)

digit_char : ℕ → Char
digit_char zero = "0"
digit_char (suc zero) = "1"
digit_char (suc (suc zero)) = "2"
digit_char (suc (suc (suc zero))) = "3"
digit_char (suc (suc (suc (suc zero)))) = "4"
digit_char (suc (suc (suc (suc (suc zero))))) = "5"
digit_char (suc (suc (suc (suc (suc (suc zero)))))) = "6"
digit_char (suc (suc (suc (suc (suc (suc (suc zero))))))) = "7"
digit_char (suc (suc (suc (suc (suc (suc (suc (suc zero)))))))) = "8"
digit_char _ = "9"

-- The digits of `n` before `acc`, at least `w` of them. The fuel `w + n` is enough.
emit : ℕ → ℕ → ℕ → String → String
unfolding digit_char
emit zero w n acc = acc
emit (suc f) w n acc =
    let more = emit f (w - 1) (n / 10) (String.◌∷◌ (digit_char (n % 10)) acc) in
    if w == 0 && n == 0 then acc else more

-- `f"{n:0wd}"`
unfoldable pub zero_padded : ℕ → ℕ → String
unfolding emit
zero_padded w n = emit (w + n) w n String.[]

-- `str(n)`
unfoldable pub str_of : ℕ → String
unfolding zero_padded
str_of n = zero_padded 1 n

-- `str(z)`, for an integer
unfoldable pub str_of_ℤ : ℤ → String
unfolding str_of
str_of_ℤ (pos n) = str_of n
str_of_ℤ (negsuc n) = String.◌∷◌ "-" (str_of (n + 1))
