-- ===== src/Prelude/Text.antt =====
-- Texts: the order that Python's `sorted` uses on them (by code points), and the decimal text of a
-- number, as an f-string prints it.
use Prim.Native.Nat.{Ordering}
use Prim.Native.Char.{Char, code}
use Prim.Native.String.{compare, char_at, ◌++◌ as append}
use Prim.Native.String.compare
use python_backend_manager.Prelude.Base.{
  ℕ, zero, suc, ◌/◌, ◌%◌, String, ◌≡◌, refl, Bool, true, false, arith, ltb, leb, ◌==◌, ◌&&◌, ◌||◌,
  ◌-◌, str_eq, if◌then◌else◌,
}

abbrev is_le : Ordering → Bool
is_le Ordering.gt = false
is_le _ = true

-- `s <= t`
abbrev pub text_leb : String → String → Bool
text_leb s t = is_le (compare s t)

-- Two texts are in order one way or the other.
pub text_leb_total : (s t : String) → text_leb s t ≡ false → text_leb t s ≡ true
text_leb_total String.[] String.[] h = refl
text_leb_total String.[] (String.◌∷◌ d t) h = ground (arith, compare.nil-cons d t)
text_leb_total (String.◌∷◌ c s) String.[] h = ground (arith, compare.nil-cons c s)
text_leb_total (String.◌∷◌ c s) (String.◌∷◌ d t) h =
    ground (arith, compare.cons-cons c d s t, compare.cons-cons d c t s, text_leb_total s t)

pub text_leb_trans :
    (s t u : String) → text_leb s t ≡ true → text_leb t u ≡ true → text_leb s u ≡ true
text_leb_trans String.[] t String.[] h k = refl
text_leb_trans String.[] t (String.◌∷◌ e u) h k = ground (arith, compare.nil-cons e u)
text_leb_trans (String.◌∷◌ c s) String.[] u h k = ground (arith, compare.cons-nil c s)
text_leb_trans (String.◌∷◌ c s) (String.◌∷◌ d t) String.[] h k =
    ground (arith, compare.cons-nil d t)
text_leb_trans (String.◌∷◌ c s) (String.◌∷◌ d t) (String.◌∷◌ e u) h k = ground (
  arith,
  compare.cons-cons c d s t,
  compare.cons-cons d e t u,
  compare.cons-cons c e s u,
  text_leb_trans s t u,
)

-- `str.lower()` on the ASCII letters.
lower_char : Char → Char
lower_char c =
    if leb b'A' (code c) && leb (code c) b'Z'
    then char_at "abcdefghijklmnopqrstuvwxyz" (code c - b'A')
    else c

unfoldable pub lower_text : String → String
unfolding lower_char
lower_text String.[] = ""
lower_text (String.◌∷◌ c s) = String.◌∷◌ (lower_char c) (lower_text s)

is_blank : Char → Bool
is_blank c = code c == 32 || (leb 9 (code c) && leb (code c) 13)

-- `text.lstrip()` on the ASCII blanks.
lstrip : String → String
unfolding is_blank
lstrip String.[] = ""
lstrip (String.◌∷◌ c s) = let rest = lstrip s in if is_blank c then rest else String.◌∷◌ c s

-- `text.rstrip()`: a blank stays where something else follows it.
rstrip : String → String
unfolding is_blank
rstrip String.[] = ""
rstrip (String.◌∷◌ c s) =
    let rest = rstrip s in if is_blank c && str_eq rest "" then "" else String.◌∷◌ c rest

-- `text.strip()`
unfoldable pub strip : String → String
unfolding lstrip rstrip
strip text = rstrip (lstrip text)

strip_blanks : strip " a b " ≡ "a b"
unfolding strip
strip_blanks = refl

digit : ℕ → String
digit zero = "0"
digit (suc zero) = "1"
digit (suc (suc zero)) = "2"
digit (suc (suc (suc zero))) = "3"
digit (suc (suc (suc (suc zero)))) = "4"
digit (suc (suc (suc (suc (suc zero))))) = "5"
digit (suc (suc (suc (suc (suc (suc zero)))))) = "6"
digit (suc (suc (suc (suc (suc (suc (suc zero))))))) = "7"
digit (suc (suc (suc (suc (suc (suc (suc (suc zero)))))))) = "8"
digit _ = "9"

-- The digits of `n` in front of `tail`; the fuel is at least the number of digits.
decimal_from : ℕ → ℕ → String → String
unfolding digit
decimal_from zero n tail = tail
decimal_from (suc fuel) n tail =
    let more = decimal_from fuel (n / 10) (append (digit (n % 10)) tail) in
    if ltb n 10 then append (digit n) tail else more

-- `str(n)`: a number has at most `n + 1` digits.
pub decimal : ℕ → String
unfolding decimal_from
decimal n = decimal_from (suc n) n ""

decimal_1203 : decimal 1203 ≡ "1203"
unfolding decimal
decimal_1203 = refl
