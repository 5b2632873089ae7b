-- ===== src/Text/Formats.antt =====
-- What the format tests on strings accept, described without reference to their loops.
use drand_quicknet_evm.Base.{
  ℕ, ◌*◌, ◌≤◌, ◌≡◌, refl, ◌⊎◌, true, List, [], ◌∷◌, arith, and_split, length, All,
}
use drand_quicknet_evm.Text.{Text, every, is_hex_unit, is_fixed_hex}

-- `0`-`9`, `A`-`F` or `a`-`f`.
abbrev pub IsHexUnit : ℕ → Type 0
IsHexUnit c = (48 ≤ c) × (c ≤ 57) ⊎ ((65 ≤ c) × (c ≤ 70) ⊎ (97 ≤ c) × (c ≤ 102))

-- `0x` and two hexadecimal digits for each byte.
abbrev pub IsFixedHex : Text → ℕ → Type 0
IsFixedHex value bytes =
    (digits : List ℕ) × (value ≡ b'0' ∷ b'x' ∷ digits)
    × (length digits ≡ bytes * 2)
    × All IsHexUnit digits

every→All : (cs : Text) → every is_hex_unit cs ≡ true → All IsHexUnit cs
unfolding is_hex_unit
every→All [] h = tt
every→All (c ∷ cs) h =
    (ground arith, every→All cs (and_split (is_hex_unit c) (every is_hex_unit cs) h).1)

All→every : (cs : Text) → All IsHexUnit cs → every is_hex_unit cs ≡ true
unfolding is_hex_unit
All→every [] h = refl
All→every (c ∷ cs) h = ground (arith, All→every cs h.1)

pub is_fixed_hex→IsFixedHex :
    (value : Text) (bytes : ℕ) → is_fixed_hex value bytes ≡ true → IsFixedHex value bytes
unfolding is_fixed_hex
is_fixed_hex→IsFixedHex [] bytes h = ground arith
is_fixed_hex→IsFixedHex (a ∷ []) bytes h = ground arith
is_fixed_hex→IsFixedHex (a ∷ b ∷ digits) bytes h =
    (digits, ground arith, ground arith, every→All digits (ground arith))

pub IsFixedHex→is_fixed_hex :
    (value : Text) (bytes : ℕ) → IsFixedHex value bytes → is_fixed_hex value bytes ≡ true
unfolding is_fixed_hex
IsFixedHex→is_fixed_hex value bytes (digits, e, n, all) =
    rw e (ground (arith, n, All→every digits all))
