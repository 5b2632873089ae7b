-- ===== src/Text/Equality.antt =====
-- Equality of strings, exact and up to letter case, as the program tests it.
use drand_quicknet_evm.Base.{◌≡◌, refl, ◌↔◌, true, false, List, [], ◌∷◌, arith, All}
use drand_quicknet_evm.Text.{Text, text_eq, has, lower, lower_unit, same}

pub text_eq_refl : (a : Text) → text_eq a a ≡ true
text_eq_refl [] = refl
text_eq_refl (x ∷ a) = ground (arith, text_eq_refl a)

pub text_eq→eq : (a b : Text) → text_eq a b ≡ true → a ≡ b
text_eq→eq [] [] h = refl
text_eq→eq [] (_ ∷ _) h = cc
text_eq→eq (_ ∷ _) [] h = cc
text_eq→eq (x ∷ a) (y ∷ b) h = ground (arith, text_eq→eq a b)

pub text_eq_iff : (a b : Text) → (text_eq a b ≡ true) ↔ (a ≡ b)
text_eq_iff a b = (text_eq→eq a b, λ e. rw e (text_eq_refl b))

pub text_eq_sym : (a b : Text) → text_eq a b ≡ text_eq b a
text_eq_sym a b = ground (arith, text_eq_iff a b, text_eq_iff b a)

pub same_refl : (a : Text) → same a a ≡ true
same_refl a = text_eq_refl (lower a)

pub same_sym : (a b : Text) → same a b ≡ same b a
same_sym a b = text_eq_sym (lower a) (lower b)

-- Folding the case twice is folding it once.
pub lower_idem : (a : Text) → lower (lower a) ≡ lower a
unfolding lower_unit
lower_idem [] = refl
lower_idem (c ∷ a) = ground (arith, lower_idem a)

-- `seen` holds no string equal to `a`.
abbrev pub Fresh : Text → List Text → Type 0
Fresh a = All (λ b. ¬ (a ≡ b))

pub has→Fresh : (a : Text) (seen : List Text) → has a seen ≡ false → Fresh a seen
has→Fresh a [] h = tt
has→Fresh a (b ∷ seen) h = (ground (arith, text_eq_iff a b), has→Fresh a seen (ground arith))

pub Fresh→has : (a : Text) (seen : List Text) → Fresh a seen → has a seen ≡ false
Fresh→has a [] h = refl
Fresh→has a (b ∷ seen) h = ground (arith, text_eq_iff a b, Fresh→has a seen h.1)
