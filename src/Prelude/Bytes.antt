-- ===== src/Prelude/Bytes.antt =====
-- Byte strings and texts as lists of numbers: bytes, and code points. Latin-1 takes each byte to
-- the code point of the same number, so that decoding and encoding leave the list as it is.
use Prim.Native.Char.{code}
use python_backend_manager.Prelude.Base.{
  ℕ, ◌+◌, String, ◌≡◌, refl, Bool, true, false, ◌&&◌, ◌↔◌, List, [], ◌∷◌, map, ◌==◌, leb, arith,
  if◌then◌else◌,
}

abbrev pub Bytes : Type 0
Bytes = List ℕ

-- A `str`, by its code points.
abbrev pub CodePoints : Type 0
CodePoints = List ℕ

abbrev pub codes : String → List ℕ
codes String.[] = []
codes (String.◌∷◌ c s) = code c ∷ codes s

unfoldable pub bytes_eq : List ℕ → List ℕ → Bool
bytes_eq [] [] = true
bytes_eq [] (b ∷ bs) = false
bytes_eq (a ∷ as') [] = false
bytes_eq (a ∷ as') (b ∷ bs) = a == b && bytes_eq as' bs

pub bytes_eq_refl : (a : List ℕ) → bytes_eq a a ≡ true
unfolding bytes_eq
bytes_eq_refl [] = refl
bytes_eq_refl (a ∷ as') = ground (arith, bytes_eq_refl as')

pub bytes_eq_sound : (a b : List ℕ) → bytes_eq a b ≡ true → a ≡ b
unfolding bytes_eq
bytes_eq_sound [] [] h = refl
bytes_eq_sound [] (b ∷ bs) h = cc
bytes_eq_sound (a ∷ as') [] h = cc
bytes_eq_sound (a ∷ as') (b ∷ bs) h = ground (arith, bytes_eq_sound as' bs)

pub bytes_eq_iff : (a b : List ℕ) → (bytes_eq a b ≡ true) ↔ (a ≡ b)
bytes_eq_iff a b = (bytes_eq_sound a b, λ e. rw e (bytes_eq_refl b))

-- `bytes.lower()`: ASCII letters only.
lower_byte : ℕ → ℕ
lower_byte b = if leb b'A' b && leb b b'Z' then b + 32 else b

unfoldable pub lower : Bytes → Bytes
unfolding lower_byte
lower = map lower_byte

-- `.decode("latin-1")` and `.encode("latin-1")`
abbrev pub decode_latin1 : Bytes → CodePoints
decode_latin1 bytes = bytes

abbrev pub encode_latin1 : CodePoints → Bytes
encode_latin1 points = points
