-- ===== src/Base/Json.antt =====
-- `json.dumps(value, sort_keys=True, separators=(",", ":"))` of the documents that the program
-- prints: texts, Booleans, and objects with text keys. A text is its code points.
use Prim.Native.Nat.{ℕ, ◌+◌, ◌-◌, ◌/◌, ◌%◌}
use mathlib.Core.Bool.{Bool, true, false}
use mathlib.Core.List.{List, [], ◌∷◌, ◌++◌}
use orgmetra.Base.Tests.{ltb, ◌==◌, if◌then◌else◌}
use orgmetra.Base.Regex.{codes, codes_lt}

-- `Members` are the entries of an object, in order.
mutual
  pub data Json : Type 0 where
    text : List ℕ → Json
    flag : Bool → Json
    object : Members → Json

  pub data Members : Type 0 where
    no_members : Members
    member : List ℕ → Json → Members → Members

abbrev pub hex_digit : ℕ → ℕ
hex_digit n = if ltb n 10 then b'0' + n else b'a' + (n - 10)

-- `\uXXXX`
abbrev pub unicode_escape : ℕ → List ℕ
unicode_escape c =
    b'\\'
    ∷ b'u'
    ∷ hex_digit (c / 4096 % 16)
    ∷ hex_digit (c / 256 % 16)
    ∷ hex_digit (c / 16 % 16)
    ∷ hex_digit (c % 16)
    ∷ []

-- One character of a text. With `ascii`, what is beyond ASCII is escaped, beyond 16 bits as a
-- surrogate pair.
unfoldable pub escape_code : Bool → ℕ → List ℕ
escape_code ascii c =
    if c == b'"'
    then b'\\' ∷ b'"' ∷ []
    else if c == b'\\'
    then b'\\' ∷ b'\\' ∷ []
    else if c == 10
    then b'\\' ∷ b'n' ∷ []
    else if c == 13
    then b'\\' ∷ b'r' ∷ []
    else if c == 9
    then b'\\' ∷ b't' ∷ []
    else if c == 12
    then b'\\' ∷ b'f' ∷ []
    else if c == 8
    then b'\\' ∷ b'b' ∷ []
    else if ltb c 32
    then unicode_escape c
    else if ltb c 127
    then c ∷ []
    else if ascii
    then (if ltb c 65536
        then unicode_escape c
        else unicode_escape (55296 + (c - 65536) / 1024)
          ++ unicode_escape (56320 + (c - 65536) % 1024))
    else c ∷ []

unfoldable pub escape : Bool → List ℕ → List ℕ
unfolding escape_code
escape ascii [] = []
escape ascii (c ∷ cs) = escape_code ascii c ++ escape ascii cs

abbrev pub quoted : Bool → List ℕ → List ℕ
quoted ascii cs = b'"' ∷ (escape ascii cs ++ (b'"' ∷ []))

unfoldable mutual
  unfolding escape

  pub json_text : Bool → Json → List ℕ
  json_text ascii (text cs) = quoted ascii cs
  json_text ascii (flag true) = codes "true"
  json_text ascii (flag false) = codes "false"
  json_text ascii (object ms) = b'{' ∷ members_text ascii ms

  pub members_text : Bool → Members → List ℕ
  members_text ascii no_members = b'}' ∷ []
  members_text ascii (member key value no_members) =
      quoted ascii key ++ b':' ∷ (json_text ascii value ++ (b'}' ∷ []))
  members_text ascii (member key value rest) =
      quoted ascii key ++ b':' ∷ (json_text ascii value ++ (b',' ∷ members_text ascii rest))

-- Entries in the order of their keys.
abbrev pub insert_member : List ℕ → Json → Members → Members
insert_member key value no_members = member key value no_members
insert_member key value (member k v rest) =
    if codes_lt key k
    then member key value (member k v rest)
    else member k v (insert_member key value rest)

unfoldable mutual
  pub sort_keys : Json → Json
  sort_keys (text cs) = text cs
  sort_keys (flag b) = flag b
  sort_keys (object ms) = object (sort_members ms)

  pub sort_members : Members → Members
  sort_members no_members = no_members
  sort_members (member key value rest) = insert_member key (sort_keys value) (sort_members rest)

-- `ensure_ascii` is the first argument.
unfoldable pub dumps : Bool → Json → List ℕ
unfolding json_text sort_keys
dumps ascii value = json_text ascii (sort_keys value)
