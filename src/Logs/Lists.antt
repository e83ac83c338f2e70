-- ===== src/Logs/Lists.antt =====
-- Lists of bytes, and their first parts.
use codex_waiting_plgin.Prelude.{
  ℕ, leb, ◌≤◌, suc, arith, ap, refl, [], ◌-◌, ◌∷◌, length, if◌then◌else◌, ◌≡◌, zero, ◌++◌,
}
use codex_waiting_plgin.Logs.{Bytes, take}

pub take_past : (n : ℕ) (xs ys : Bytes) → n ≤ length xs → take n (xs ++ ys) ≡ take n xs
take_past zero xs ys h = refl
take_past (suc n) [] ys h = ground arith
take_past (suc n) (x ∷ xs) ys h = ap (λ l. x ∷ l) (take_past n xs ys (ground arith))

pub take_through :
    (n : ℕ) (xs ys : Bytes) → length xs ≤ n → take n (xs ++ ys) ≡ xs ++ take (n - length xs) ys
take_through n [] ys h = ground arith
take_through zero (x ∷ xs) ys h = ground arith
take_through (suc n) (x ∷ xs) ys h = ground (arith, take_through n xs ys)

pub length-take :
    (n : ℕ) (xs : Bytes) → length (take n xs) ≡ (if leb n (length xs) then n else length xs)
length-take zero xs = ground arith
length-take (suc n) [] = ground arith
length-take (suc n) (x ∷ xs) = ground (arith, length-take n xs)

pub take_full : (n : ℕ) (xs : Bytes) → length xs ≤ n → take n xs ≡ xs
take_full zero [] h = refl
take_full zero (x ∷ xs) h = ground arith
take_full (suc n) [] h = refl
take_full (suc n) (x ∷ xs) h = ap (λ l. x ∷ l) (take_full n xs (ground arith))
