-- ===== src/Text.antt =====
-- JavaScript strings as lists of UTF-16 code units, and the tests on them:
-- apps/relayer/src/shared/hex.ts, shared/uuid.ts, execution/work-identity.ts.
pub mod Equality
pub mod Iso
pub mod Formats
use Prim.Native.Char.{code}
use drand_quicknet_evm.Base.{
  ℕ, zero, suc, ◌+◌, ◌*◌, String, Bool, true, false, ◌&&◌, ◌||◌, not, List, [], ◌∷◌, map, ltb, leb,
  ◌==◌, if◌then◌else◌, length, any,
}

-- A string, by its UTF-16 code units.
abbrev pub Text : Type 0
Text = List ℕ

-- The code units of an ASCII literal.
abbrev pub codes : String → Text
codes String.[] = []
codes (String.◌∷◌ c s) = code c ∷ codes s

-- `a === b`
abbrev pub text_eq : Text → Text → Bool
text_eq [] [] = true
text_eq [] (_ ∷ _) = false
text_eq (_ ∷ _) [] = false
text_eq (a ∷ as') (b ∷ bs) = a == b && text_eq as' bs

-- `set.has(a)`
abbrev pub has : Text → List Text → Bool
has a xs = any (text_eq a) xs

unfoldable pub lower_unit : ℕ → ℕ
lower_unit c = if leb b'A' c && leb c b'Z' then c + 32 else c

-- `s.toLowerCase()`, on strings whose letters are ASCII: every string that the program folds has
-- passed a hexadecimal test first.
abbrev pub lower : Text → Text
lower = map lower_unit

-- Equality up to letter case, `a.toLowerCase() === b.toLowerCase()`.
abbrev pub same : Text → Text → Bool
same a b = text_eq (lower a) (lower b)

unfoldable pub is_digit : ℕ → Bool
is_digit c = leb 48 c && leb c 57

unfoldable pub is_lower_hex : ℕ → Bool
unfolding is_digit
is_lower_hex c = is_digit c || leb 97 c && leb c 102

unfoldable pub is_hex_unit : ℕ → Bool
unfolding is_digit
is_hex_unit c = is_digit c || leb 65 c && leb c 70 || leb 97 c && leb c 102

-- A loop that returns `false` at the first unit that fails the test.
abbrev pub every : (ℕ → Bool) → Text → Bool
every p [] = true
every p (c ∷ cs) = p c && every p cs

-- `value.startsWith('0x')`, and the test of what follows.
abbrev pub after_0x : (Text → Bool) → Text → Bool
after_0x p [] = false
after_0x p (_ ∷ []) = false
after_0x p (a ∷ b ∷ rest) = a == b'0' && b == b'x' && p rest

unfoldable pub is_fixed_hex : Text → ℕ → Bool
unfolding is_hex_unit
is_fixed_hex value bytes = length value == 2 + bytes * 2 && after_0x (every is_hex_unit) value

-- One unit of the pattern of `UUID_V4`, by its position.
unfoldable pub uuid_unit : ℕ → ℕ → Bool
unfolding is_lower_hex
uuid_unit i c =
    if i == 8 || i == 13 || i == 18 || i == 23
    then c == b'-'
    else if i == 14
    then c == b'4'
    else if i == 19
    then c == b'8' || c == b'9' || c == b'a' || c == b'b'
    else is_lower_hex c

unfoldable pub uuid_from : ℕ → Text → Bool
unfolding uuid_unit
uuid_from i [] = true
uuid_from i (c ∷ cs) = uuid_unit i c && uuid_from (i + 1) cs

unfoldable pub is_uuid_v4 : Text → Bool
unfolding uuid_from
is_uuid_v4 value = length value == 36 && uuid_from 0 value

-- `value.isWellFormed()`: every surrogate stands in a pair.
unfoldable pub is_high : ℕ → Bool
is_high c = leb 0xd800 c && leb c 0xdbff

unfoldable pub is_low : ℕ → Bool
is_low c = leb 0xdc00 c && leb c 0xdfff

unfoldable pub is_well_formed : Text → Bool
unfolding is_high is_low
is_well_formed [] = true
is_well_formed (c ∷ []) = not (is_high c) && not (is_low c)
is_well_formed (c ∷ d ∷ cs) =
    let paired = is_well_formed cs in
    let single = is_well_formed (d ∷ cs) in
    if is_high c then is_low d && paired else not (is_low c) && single

abbrev max_work_id_length : ℕ
max_work_id_length = 256

unfoldable pub is_printable : ℕ → Bool
is_printable c = not (ltb c 0x20 || leb 0x7f c && leb c 0x9f)

unfoldable pub is_work_id : Text → Bool
unfolding is_well_formed is_printable
is_work_id value =
    not (length value == 0)
    && leb (length value) max_work_id_length
    && is_well_formed value
    && every is_printable value
