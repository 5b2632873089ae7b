-- ===== src/Chain/Policy.antt =====
-- `FinalityPolicy.parseJson` of apps/relayer/src/chain/finality-policy.ts, with shared/decimal.ts. A
-- value that `JSON.parse` made has no property with a getter.
use text.Mathlib.Text.{◌==◌ as str_eq}
use drand_quicknet_evm.Base.{
  ℕ, ◌+◌, ◌-◌, ◌*◌, String, ◌&&◌, not, Bool, false, List, [], ◌∷◌, ok, err, ◌>>◌, require, length,
  ltb, any, if◌then◌else◌,
}
use drand_quicknet_evm.Text.{Text, text_eq, codes, every, is_digit}
use drand_quicknet_evm.Journal.Value.{Value, Fields, undefined, str, obj, end, entry, getter}
use drand_quicknet_evm.Chain.{Checked, invalid_finality_policy}

pub data FinalityPolicy : Type 0 where
  safe finalized : FinalityPolicy
  confirmations : ℕ → FinalityPolicy

-- `isDecimalInteger`
unfoldable pub is_decimal_integer : Text → Bool
is_decimal_integer value = ltb 0 (length value) && every is_digit value

-- `BigInt(value)`, of decimal digits.
unfoldable pub decimal_value : ℕ → Text → ℕ
decimal_value n [] = n
decimal_value n (c ∷ cs) = decimal_value (10 * n + (c - 48)) cs

-- `value[name]`
abbrev pub property : Fields → String → Value
property end name = undefined
property (entry key v rest) name = if str_eq key name then v else property rest name
property (getter key rest) name = property rest name

-- `Object.keys(value)`
abbrev pub keys : Fields → List String
keys end = []
keys (entry key v rest) = key ∷ keys rest
keys (getter key rest) = key ∷ keys rest

abbrev each : (String → Bool) → List String → Bool
each p names = not (any (λ n. not (p n)) names)

-- `assertExactKeys`
unfoldable pub has_exact_keys : Fields → List String → Bool
has_exact_keys fields expected =
    each (λ key. any (str_eq key) expected) (keys fields)
    && each (λ key. any (str_eq key) (keys fields)) expected

abbrev is_text : Value → String → Bool
is_text (str t) name = text_eq t (codes name)
is_text _ name = false

unfoldable pub parse_confirmations : Fields → Checked FinalityPolicy
parse_confirmations fields = elim (property fields "confirmations") [
  | str t ↦ do
    require (is_decimal_integer t) invalid_finality_policy
    ok (confirmations (decimal_value 0 t))
  | _ ↦ err invalid_finality_policy
]

unfoldable pub parse_policy : Fields → Checked FinalityPolicy
parse_policy fields =
    let kind = property fields "type" in
    let plain = has_exact_keys fields ("type" ∷ []) in
    if is_text kind "safe"
    then require plain invalid_finality_policy >> ok safe
    else if is_text kind "finalized"
    then require plain invalid_finality_policy >> ok finalized
    else if is_text kind "confirmations"
    then require (has_exact_keys fields ("type" ∷ "confirmations" ∷ [])) invalid_finality_policy
      >> parse_confirmations fields
    else err invalid_finality_policy

-- `FinalityPolicy.parseJson`
unfoldable pub parse_json : Value → Checked FinalityPolicy
parse_json (obj fields) = parse_policy fields
parse_json _ = err invalid_finality_policy
