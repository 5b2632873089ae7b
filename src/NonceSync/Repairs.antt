-- ===== src/NonceSync/Repairs.antt =====
-- The list of repairs of a journal, cut to its latest entries as
-- apps/relayer/src/state/plan-nonce-sync.ts does.
use drand_quicknet_evm.Base.{
  ℕ, suc, zero, ◌-◌, ◌≤◌, ◌<◌, ◌≡◌, refl, ◌∙◌, Bool, true, some, List, [], ◌∷◌, ◌++◌, arith, length,
  drop, take_last, last?, length-append, length-drop,
}
use drand_quicknet_evm.Journal.{JournalNonceRepair, max_retained_nonce_repairs}
use drand_quicknet_evm.Journal.Check.{
  is_repair, all_of, repairs_in_order, repair_order, last_repair_below,
}

all_of-append :
    {A : Type 0} (p : A → Bool) (xs : List A) (x : A)
    → all_of p xs ≡ true
    → p x ≡ true
    → all_of p (xs ++ (x ∷ [])) ≡ true
all_of-append {A} p [] x h k = ground (arith, k)
all_of-append {A} p (y ∷ xs) x h k = ground (arith, all_of-append p xs x (ground arith) k)

all_of-drop :
    {A : Type 0} (p : A → Bool) (n : ℕ) (xs : List A)
    → all_of p xs ≡ true
    → all_of p (drop n xs) ≡ true
all_of-drop {A} p zero xs h = h
all_of-drop {A} p (suc n) [] h = h
all_of-drop {A} p (suc n) (x ∷ xs) h = all_of-drop p n xs (ground arith)

repairs_in_order-append :
    (first : JournalNonceRepair) (rest : List JournalNonceRepair) (r : JournalNonceRepair)
    → repairs_in_order first rest ≡ true
    → last_repair_below (first ∷ rest) r.previous_next_nonce ≡ true
    → repairs_in_order first (rest ++ (r ∷ [])) ≡ true
repairs_in_order-append first [] r h k = ground arith
repairs_in_order-append first (s ∷ rest) r h k =
    ground (arith, repairs_in_order-append s rest r (ground arith) k)

repair_order-append :
    (repairs : List JournalNonceRepair) (r : JournalNonceRepair)
    → repair_order repairs ≡ true
    → last_repair_below repairs r.previous_next_nonce ≡ true
    → repair_order (repairs ++ (r ∷ [])) ≡ true
repair_order-append [] r h k = refl
repair_order-append (first ∷ rest) r h k = repairs_in_order-append first rest r h k

repair_order-tail :
    (first : JournalNonceRepair) (rest : List JournalNonceRepair)
    → repairs_in_order first rest ≡ true
    → repair_order rest ≡ true
repair_order-tail first [] h = refl
repair_order-tail first (r ∷ rest) h = ground arith

repair_order-drop :
    (n : ℕ) (repairs : List JournalNonceRepair)
    → repair_order repairs ≡ true
    → repair_order (drop n repairs) ≡ true
repair_order-drop zero repairs h = h
repair_order-drop (suc n) [] h = h
repair_order-drop (suc n) (first ∷ rest) h =
    repair_order-drop n rest (repair_order-tail first rest h)

last?-append : {A : Type 0} (xs : List A) (x : A) → last? (xs ++ (x ∷ [])) ≡ some x
last?-append {A} [] x = refl
last?-append {A} (y ∷ []) x = refl
last?-append {A} (y ∷ z ∷ xs) x = last?-append (z ∷ xs) x

last?-drop : {A : Type 0} (n : ℕ) (xs : List A) → n < length xs → last? (drop n xs) ≡ last? xs
last?-drop {A} zero xs h = refl
last?-drop {A} (suc n) [] h = absurd (omega (arith, h))
last?-drop {A} (suc n) (x ∷ []) h = absurd (omega (arith, h))
last?-drop {A} (suc n) (x ∷ y ∷ xs) h = last?-drop n (y ∷ xs) (omega (arith, h))

-- The repairs with one more, cut to the latest.
abbrev pub extended : List JournalNonceRepair → JournalNonceRepair → List JournalNonceRepair
extended repairs r = take_last max_retained_nonce_repairs (repairs ++ (r ∷ []))

pub length-extended :
    (repairs : List JournalNonceRepair) (r : JournalNonceRepair)
    → length (extended repairs r) ≤ max_retained_nonce_repairs
length-extended repairs r =
    let all = repairs ++ (r ∷ []) in
    omega (arith, length-drop (length all - max_retained_nonce_repairs) all)

pub last?-extended :
    (repairs : List JournalNonceRepair) (r : JournalNonceRepair)
    → last? (extended repairs r) ≡ some r
last?-extended repairs r =
    let all = repairs ++ (r ∷ []) in
    last?-drop (length all - max_retained_nonce_repairs) all
      (omega (arith, length-append repairs (r ∷ [])))
    ∙ last?-append repairs r

pub all_of-extended :
    (repairs : List JournalNonceRepair) (r : JournalNonceRepair)
    → all_of is_repair repairs ≡ true
    → is_repair r ≡ true
    → all_of is_repair (extended repairs r) ≡ true
all_of-extended repairs r h k =
    let all = repairs ++ (r ∷ []) in
    all_of-drop is_repair (length all - max_retained_nonce_repairs) all
      (all_of-append is_repair repairs r h k)

pub repair_order-extended :
    (repairs : List JournalNonceRepair) (r : JournalNonceRepair)
    → repair_order repairs ≡ true
    → last_repair_below repairs r.previous_next_nonce ≡ true
    → repair_order (extended repairs r) ≡ true
repair_order-extended repairs r h k =
    let all = repairs ++ (r ∷ []) in
    repair_order-drop (length all - max_retained_nonce_repairs) all
      (repair_order-append repairs r h k)
