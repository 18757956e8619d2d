-- ===== src/Prelude/Uuid.antt =====
-- A UUID is its 128-bit number; `str(id)` is the usual text of 36 characters.
use Prim.Native.String.{◌++◌ as append}
use python_backend_manager.Prelude.Base.{
  ℕ, zero, suc, ◌/◌, ◌%◌, ◌^◌, ◌≡◌, refl, String, List, [], ◌∷◌,
}

abbrev pub Uuid : Type 0
Uuid = ℕ

nth_digit : ℕ → List String → String
nth_digit n [] = ""
nth_digit zero (d ∷ ds) = d
nth_digit (suc n) (d ∷ ds) = nth_digit n ds

abbrev hex_digits : List String
hex_digits =
    "0" ∷ "1" ∷ "2" ∷ "3" ∷ "4" ∷ "5" ∷ "6" ∷ "7" ∷ "8" ∷ "9" ∷ "a" ∷ "b" ∷ "c" ∷ "d" ∷ "e" ∷ "f"
    ∷ []

-- The last `width` hexadecimal digits of `n`.
hex : ℕ → ℕ → String
unfolding nth_digit
hex zero n = ""
hex (suc width) n = append (hex width (n / 16)) (nth_digit (n % 16) hex_digits)

-- `str(id)`
unfoldable pub uuid_text : Uuid → String
unfolding hex
uuid_text id = append (hex 8 (id / 16 ^ 24)) (
    append "-" (
      append (hex 4 (id / 16 ^ 20)) (
        append "-" (
          append (hex 4 (id / 16 ^ 16))
            (append "-" (append (hex 4 (id / 16 ^ 12)) (append "-" (hex 12 id))))))))

uuid_text_example :
    uuid_text 0x123e4567e89b12d3a456426614174000 ≡ "123e4567-e89b-12d3-a456-426614174000"
unfolding uuid_text
uuid_text_example = refl
