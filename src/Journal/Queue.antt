-- ===== src/Journal/Queue.antt =====
-- What a well-formed journal is, without reference to the loops that test it: consecutive nonces,
-- and no attempt, work or transaction hash twice.
use drand_quicknet_evm.Base.{
  ℕ, ◌+◌, ◌≡◌, refl, sym, inl, inr, ◌↔◌, some, List, [], ◌∷◌, ◌++◌, map, arith, All, Bool-cases,
}
use drand_quicknet_evm.Text.{Text, has, lower}
use drand_quicknet_evm.Text.Equality.{Fresh, has→Fresh, Fresh→has}
use drand_quicknet_evm.Journal.{JournalSignedTransaction, JournalAttempt, signed_transactions}
use drand_quicknet_evm.Journal.Check.{fresh_hashes}

-- No string twice, and none of `seen`.
abbrev pub DistinctFrom : List Text → List Text → Type 0
DistinctFrom seen [] = Unit
DistinctFrom seen (x ∷ xs) = Fresh x seen × DistinctFrom (x ∷ seen) xs

-- Every string differs from all that stand after it.
abbrev pub Distinct : List Text → Type 0
Distinct [] = Unit
Distinct (x ∷ xs) = Fresh x xs × Distinct xs

abbrev pub ids : List JournalAttempt → List Text
ids = map (λ a. lower a.attempt_id)

abbrev pub works : List JournalAttempt → List Text
works = map (λ a. a.work_id)

abbrev pub hashes : List JournalSignedTransaction → List Text
hashes = map (λ tx. lower tx.transaction_hash)

abbrev pub all_hashes : List JournalAttempt → List Text
all_hashes [] = []
all_hashes (a ∷ rest) = hashes (signed_transactions a) ++ all_hashes rest

-- The nonces count up from the first.
abbrev pub Consecutive : ℕ → List JournalAttempt → Type 0
Consecutive n [] = Unit
Consecutive n (a ∷ rest) = (a.nonce ≡ n) × Consecutive (n + 1) rest

Fresh-split :
    (x : Text) (seen xs : List Text)
    → All (λ y. Fresh y (x ∷ seen)) xs
    → Fresh x xs × All (λ y. Fresh y seen) xs
Fresh-split x seen [] h = (tt, tt)
Fresh-split x seen (y ∷ xs) h =
    let (fresh, rest) = Fresh-split x seen xs h.1 in ((λ e. h.0.0 (sym e), fresh), (h.0.1, rest))

Fresh-join :
    (x : Text) (seen xs : List Text)
    → Fresh x xs
    → All (λ y. Fresh y seen) xs
    → All (λ y. Fresh y (x ∷ seen)) xs
Fresh-join x seen [] f h = tt
Fresh-join x seen (y ∷ xs) f h = ((λ e. f.0 (sym e), h.0), Fresh-join x seen xs f.1 h.1)

pub DistinctFrom→Distinct :
    (seen xs : List Text) → DistinctFrom seen xs → All (λ y. Fresh y seen) xs × Distinct xs
DistinctFrom→Distinct seen [] h = (tt, tt)
DistinctFrom→Distinct seen (x ∷ xs) h =
    let (all, distinct) = DistinctFrom→Distinct (x ∷ seen) xs h.1 in
    let (fresh, rest) = Fresh-split x seen xs all in ((h.0, rest), (fresh, distinct))

pub Distinct→DistinctFrom :
    (seen xs : List Text) → All (λ y. Fresh y seen) xs → Distinct xs → DistinctFrom seen xs
Distinct→DistinctFrom seen [] h d = tt
Distinct→DistinctFrom seen (x ∷ xs) h d =
    (h.0, Distinct→DistinctFrom (x ∷ seen) xs (Fresh-join x seen xs d.0 h.1) d.1)

pub All-trivial : (xs : List Text) → All (λ y. Fresh y []) xs
All-trivial [] = tt
All-trivial (x ∷ xs) = (tt, All-trivial xs)

-- `seen` with the strings of `xs` put before it one by one.
abbrev pub pushed : List Text → List Text → List Text
pushed seen [] = seen
pushed seen (x ∷ xs) = pushed (x ∷ seen) xs

pub DistinctFrom-append :
    (seen xs ys : List Text)
    → DistinctFrom seen (xs ++ ys) ↔ (DistinctFrom seen xs × DistinctFrom (pushed seen xs) ys)
DistinctFrom-append seen [] ys = (λ h. (tt, h), λ h. h.1)
DistinctFrom-append seen (x ∷ xs) ys =
    let ih = DistinctFrom-append (x ∷ seen) xs ys in
    (λ h. let (a, b) = ih.0 h.1 in ((h.0, a), b), λ h. (h.0.0, ih.1 (h.0.1, h.1)))

pub fresh_hashes→DistinctFrom :
    (txs : List JournalSignedTransaction) (seen : List Text) {seen' : List Text}
    → fresh_hashes txs seen ≡ some seen'
    → DistinctFrom seen (hashes txs) × (seen' ≡ pushed seen (hashes txs))
fresh_hashes→DistinctFrom [] seen h = (tt, ground arith)
fresh_hashes→DistinctFrom (tx ∷ txs) seen h =
    elim (Bool-cases (has (lower tx.transaction_hash) seen)) [
      | inl old ↦ cc (rw old at h)
      | inr new ↦
          let (d, e) =
            fresh_hashes→DistinctFrom txs (lower tx.transaction_hash ∷ seen) (rw new at h) in
          ((has→Fresh (lower tx.transaction_hash) seen new, d), e)
    ]

pub DistinctFrom→fresh_hashes :
    (txs : List JournalSignedTransaction) (seen : List Text)
    → DistinctFrom seen (hashes txs)
    → fresh_hashes txs seen ≡ some (pushed seen (hashes txs))
DistinctFrom→fresh_hashes [] seen h = refl
DistinctFrom→fresh_hashes (tx ∷ txs) seen h =
    rw (Fresh→has (lower tx.transaction_hash) seen h.0)
      (DistinctFrom→fresh_hashes txs (lower tx.transaction_hash ∷ seen) h.1)
