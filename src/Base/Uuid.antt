-- ===== src/Base/Uuid.antt =====
-- The texts of identifiers, as Python prints them.
use orgmetra.Base.{◌-◌}
use Prim.Native.Nat.{ℕ, zero, suc, ◌^◌, ◌/◌, ◌%◌}
use Prim.Native.String.{String}

-- `(1 << 128) - 1`
abbrev pub max_uuid : ℕ
max_uuid = 2 ^ 128 - 1

-- Text concatenation.
unfoldable pub concat : String → String → String
concat String.[] t = t
concat (String.◌∷◌ c s) t = String.◌∷◌ c (concat s t)

-- The text with the character at that position of the first one before it.
unfoldable pub prepend_at : String → ℕ → String → String
prepend_at String.[] n t = t
prepend_at (String.◌∷◌ c s) zero t = String.◌∷◌ c t
prepend_at (String.◌∷◌ c s) (suc n) t = prepend_at s n t

-- The last hexadecimal digits of a number, before a text.
unfoldable pub hex_before : ℕ → ℕ → String → String
unfolding prepend_at
hex_before zero n t = t
hex_before (suc digits) n t = hex_before digits (n / 16) (prepend_at "0123456789abcdef" (n % 16) t)

-- `uuid.hex`
unfoldable pub uuid_hex : ℕ → String
unfolding hex_before
uuid_hex n = hex_before 32 n ""

-- `str(uuid)`: 8, 4, 4, 4 and 12 digits with hyphens between them.
unfoldable pub uuid_text : ℕ → String
unfolding hex_before concat
uuid_text n = hex_before 8 (n / 16 ^ 24) (
    concat "-" (
      hex_before 4 (n / 16 ^ 20) (
        concat "-" (
          hex_before 4 (n / 16 ^ 16)
            (concat "-" (hex_before 4 (n / 16 ^ 12) (concat "-" (hex_before 12 n ""))))))))
