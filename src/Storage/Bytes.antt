-- ===== src/Storage/Bytes.antt =====
-- The moves of bytes in a fixed array that the pipe and the socket make: `memcpy` into it at an
-- offset, and `memmove` of its tail to the front.
use lensor_os.Prelude.{
  ℕ, zero, suc, ◌+◌, ◌-◌, ◌≡◌, ◌∙◌, refl, sym, ap, ◌≤◌, List, [], ◌∷◌, ◌++◌, arith, length, take,
  drop, length-append, length-take, length-drop, append_assoc,
}

-- `memcpy(data + offset, bytes, size of bytes)`
abbrev pub overwrite : List ℕ → ℕ → List ℕ → List ℕ
overwrite xs offset bytes = take offset xs ++ (bytes ++ drop (offset + length bytes) xs)

-- `memmove(data, data + n, N - n)`: the last `n` bytes stay what they were.
abbrev pub shift_down : ℕ → List ℕ → List ℕ
shift_down n xs = drop n xs ++ drop (length xs - n) xs

module _ {ℓ} {A : Type ℓ} where
  take-append_short : (k : ℕ) (xs ys : List A) → k ≤ length xs → take k (xs ++ ys) ≡ take k xs
  take-append_short zero xs ys h = refl
  take-append_short (suc k) [] ys h = absurd (omega arith)
  take-append_short (suc k) (x ∷ xs) ys h =
      ap (λ r. x ∷ r) (take-append_short k xs ys (omega arith))

  take-append_exact : (n : ℕ) (xs ys : List A) → n ≡ length xs → take n (xs ++ ys) ≡ xs
  take-append_exact zero [] ys h = refl
  take-append_exact zero (x ∷ xs) ys h = absurd (omega arith)
  take-append_exact (suc n) [] ys h = absurd (omega arith)
  take-append_exact (suc n) (x ∷ xs) ys h =
      ap (λ r. x ∷ r) (take-append_exact n xs ys (omega arith))

  drop-take : (n m k : ℕ) (xs : List A) → m ≡ n + k → take k (drop n xs) ≡ drop n (take m xs)
  drop-take zero m k xs h = ap (λ j. take j xs) (omega arith)
  drop-take (suc n) zero k xs h = absurd (omega arith)
  drop-take (suc n) (suc m) zero [] h = refl
  drop-take (suc n) (suc m) (suc k) [] h = refl
  drop-take (suc n) (suc m) k (x ∷ xs) h = drop-take n m k xs (omega arith)

  pub take-take : (n m : ℕ) (xs : List A) → n ≤ m → take n (take m xs) ≡ take n xs
  take-take zero m xs h = refl
  take-take (suc n) zero xs h = absurd (omega arith)
  take-take (suc n) (suc m) [] h = refl
  take-take (suc n) (suc m) (x ∷ xs) h = ap (λ r. x ∷ r) (take-take n m xs (omega arith))

-- What stands before the offset after the move: the rest of what stood before it.
pub take-shift_down :
    (n offset : ℕ) (xs : List ℕ)
    → n ≤ offset
    → offset ≤ length xs
    → take (offset - n) (shift_down n xs) ≡ drop n (take offset xs)
take-shift_down n offset xs h k =
    take-append_short (offset - n) (drop n xs) _ (omega (arith, length-drop n xs))
    ∙ drop-take n offset (offset - n) xs (omega arith)

pub length-shift_down : (n : ℕ) (xs : List ℕ) → n ≤ length xs → length (shift_down n xs) ≡ length xs
length-shift_down n xs h = omega (
  arith,
  length-append (drop n xs) (drop (length xs - n) xs),
  length-drop n xs,
  length-drop (length xs - n) xs,
)

-- What stands before the new offset after the copy: what stood there, and then the bytes.
pub take-overwrite :
    (offset : ℕ) (xs bytes : List ℕ)
    → offset + length bytes ≤ length xs
    → take (offset + length bytes) (overwrite xs offset bytes) ≡ take offset xs ++ bytes
take-overwrite offset xs bytes h =
    ap (take (offset + length bytes)) (sym (append_assoc (take offset xs) bytes _))
    ∙ take-append_exact (offset + length bytes) (take offset xs ++ bytes) _
        (omega (arith, length-append (take offset xs) bytes, length-take offset xs))

pub length-overwrite :
    (offset : ℕ) (xs bytes : List ℕ)
    → offset + length bytes ≤ length xs
    → length (overwrite xs offset bytes) ≡ length xs
length-overwrite offset xs bytes h = omega (
  arith,
  length-append (take offset xs) (bytes ++ drop (offset + length bytes) xs),
  length-append bytes (drop (offset + length bytes) xs),
  length-take offset xs,
  length-drop (offset + length bytes) xs,
)
