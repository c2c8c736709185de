-- ===== src/Base/Array.antt =====
-- Memory as lists of bytes, with native indices.
use Prim.Native.Nat.{ℕ, zero, suc, ◌<◌, ◌+◌, ◌-◌, ◌≤◌, min}
use mathlib.Core.Path.{◌≡◌, refl, ap, sym, ◌∙◌}
use mathlib.Core.List.{List, [], ◌∷◌, ◌++◌}
use mathlib.Core.Option.{Option, none, some}
use native.Mathlib.Omega.{arith}
use light_modem.Base.Test.{leb, le→leb, if◌then◌else◌}
use light_modem.Base.Run.{Outcome, done, fault}

module _ {ℓ} {A : Type ℓ} where
  abbrev pub length : List A → ℕ
  length [] = 0
  length (x ∷ xs) = suc (length xs)

  abbrev pub get_elem? : List A → ℕ → Option A
  get_elem? [] i = none
  get_elem? (x ∷ xs) zero = some x
  get_elem? (x ∷ xs) (suc i) = get_elem? xs i

  abbrev pub get_or : List A → ℕ → A → A
  get_or [] i d = d
  get_or (x ∷ xs) zero d = x
  get_or (x ∷ xs) (suc i) d = get_or xs i d

  abbrev pub take : ℕ → List A → List A
  take zero xs = []
  take (suc n) [] = []
  take (suc n) (x ∷ xs) = x ∷ take n xs

  abbrev pub drop : ℕ → List A → List A
  drop zero xs = xs
  drop (suc n) [] = []
  drop (suc n) (x ∷ xs) = drop n xs

  abbrev pub replicate : ℕ → A → List A
  replicate zero a = []
  replicate (suc n) a = a ∷ replicate n a

module _ {ℓ} {A : Type ℓ} where
  pub length-append : (xs ys : List A) → length (xs ++ ys) ≡ length xs + length ys
  length-append [] ys = omega arith
  length-append (x ∷ xs) ys = omega (arith, length-append xs ys)

  pub length-take : (n : ℕ) (xs : List A) → length (take n xs) ≡ min n (length xs)
  length-take zero xs = omega arith
  length-take (suc n) [] = omega arith
  length-take (suc n) (x ∷ xs) = omega (arith, length-take n xs)

  pub length-drop : (n : ℕ) (xs : List A) → length (drop n xs) ≡ length xs - n
  length-drop zero xs = omega arith
  length-drop (suc n) [] = omega arith
  length-drop (suc n) (x ∷ xs) = omega (arith, length-drop n xs)

  pub length-replicate : (n : ℕ) (a : A) → length (replicate n a) ≡ n
  length-replicate zero a = refl
  length-replicate (suc n) a = ap suc (length-replicate n a)

  pub take-length : (xs : List A) → take (length xs) xs ≡ xs
  take-length [] = refl
  take-length (x ∷ xs) = ap (λ l. x ∷ l) (take-length xs)

  pub take-append : (xs ys : List A) → take (length xs) (xs ++ ys) ≡ xs
  take-append [] ys = refl
  take-append (x ∷ xs) ys = ap (λ l. x ∷ l) (take-append xs ys)

  pub drop-append : (xs ys : List A) → drop (length xs) (xs ++ ys) ≡ ys
  drop-append [] ys = refl
  drop-append (x ∷ xs) ys = drop-append xs ys

  pub take-append-drop : (n : ℕ) (xs : List A) → take n xs ++ drop n xs ≡ xs
  take-append-drop zero xs = refl
  take-append-drop (suc n) [] = refl
  take-append-drop (suc n) (x ∷ xs) = ap (λ l. x ∷ l) (take-append-drop n xs)

  pub drop-append_le :
      (n : ℕ) (xs ys : List A) → n ≤ length xs → drop n (xs ++ ys) ≡ drop n xs ++ ys
  drop-append_le zero xs ys h = refl
  drop-append_le (suc n) [] ys h = absurd (omega arith)
  drop-append_le (suc n) (x ∷ xs) ys h = drop-append_le n xs ys (omega arith)

  pub take-nil : (n : ℕ) → take {A = A} n [] ≡ []
  take-nil zero = refl
  take-nil (suc n) = refl

  pub drop-nil : (n : ℕ) → drop {A = A} n [] ≡ []
  drop-nil zero = refl
  drop-nil (suc n) = refl

  pub drop-min : (n : ℕ) (xs : List A) → drop (min n (length xs)) xs ≡ drop n xs
  drop-min n [] = drop-nil (min n 0) ∙ sym (drop-nil n)
  drop-min zero (x ∷ xs) =
      ap (λ k. drop k (x ∷ xs)) {x = min 0 (suc (length xs))} {y = 0} (omega arith)
  drop-min (suc n) (x ∷ xs) =
      ap (λ k. drop k (x ∷ xs)) {x = min (suc n) (suc (length xs))} (min_suc n (length xs))
      ∙ drop-min n xs
    where
      min_suc : (a b : ℕ) → min (suc a) (suc b) ≡ suc (min a b)
      min_suc a b = omega arith

  pub drop-take : (r w : ℕ) (xs : List A) → drop r (take w xs) ≡ take (w - r) (drop r xs)
  drop-take zero w xs = ap (λ k. take k xs) {x = w} (omega arith)
  drop-take (suc r) zero xs =
      drop-nil (suc r) ∙ ap (λ k. take k (drop (suc r) xs)) {x = 0} (omega arith)
  drop-take (suc r) (suc w) [] = sym (take-nil (suc w - suc r))
  drop-take (suc r) (suc w) (x ∷ xs) =
      drop-take r w xs ∙ ap (λ k. take k (drop r xs)) {x = w - r} (omega arith)

  pub take-take_le : (m n : ℕ) (xs : List A) → take m (take n xs) ≡ take (min m n) xs
  take-take_le zero n xs = ap (λ k. take k xs) {x = 0} (omega arith)
  take-take_le (suc m) zero xs = ap (λ k. take k xs) {x = 0} (omega arith)
  take-take_le (suc m) (suc n) [] = sym (take-nil (min (suc m) (suc n)))
  take-take_le (suc m) (suc n) (x ∷ xs) =
      ap (λ l. x ∷ l) (take-take_le m n xs)
      ∙ ap (λ k. take k (x ∷ xs)) {x = suc (min m n)} (omega arith)

  pub drop-drop : (m n : ℕ) (xs : List A) → drop m (drop n xs) ≡ drop (n + m) xs
  drop-drop m zero xs = ap (λ k. drop k xs) {x = m} (omega arith)
  drop-drop m (suc n) [] = drop-nil m ∙ sym (drop-nil (suc n + m))
  drop-drop m (suc n) (x ∷ xs) =
      drop-drop m n xs ∙ ap (λ k. drop k (x ∷ xs)) {x = suc (n + m)} (omega arith)

-- The one or two elements at an index.
module _ {ℓ} {A : Type ℓ} (d : A) where
  pub take_one : (i : ℕ) (xs : List A) → i < length xs → take 1 (drop i xs) ≡ get_or xs i d ∷ []
  take_one i [] h = absurd (omega arith)
  take_one zero (x ∷ xs) h = ap (λ l. x ∷ l) (take_zero xs)
    where
      take_zero : (ys : List A) → take 0 ys ≡ []
      take_zero ys = refl
  take_one (suc i) (x ∷ xs) h = take_one i xs (omega arith)

  pub take_two :
      (i : ℕ) (xs : List A)
      → suc i < length xs
      → take 2 (drop i xs) ≡ get_or xs i d ∷ get_or xs (suc i) d ∷ []
  take_two i [] h = absurd (omega arith)
  take_two zero (x ∷ xs) h = ap (λ l. x ∷ l) (take_one 0 xs (omega arith))
  take_two (suc i) (x ∷ xs) h = take_two i xs (omega arith)

  pub get_or-drop : (n i : ℕ) (xs : List A) → get_or (drop n xs) i d ≡ get_or xs (n + i) d
  get_or-drop zero i xs = ap (λ k. get_or xs k d) {x = i} (omega arith)
  get_or-drop (suc n) i [] = refl
  get_or-drop (suc n) i (x ∷ xs) =
      get_or-drop n i xs ∙ ap (λ k. get_or (x ∷ xs) k d) {x = suc (n + i)} (omega arith)

module _ {ℓ} {A : Type ℓ} where
  pub take_add : (m n : ℕ) (xs : List A) → take (m + n) xs ≡ take m xs ++ take n (drop m xs)
  take_add zero n xs = ap (λ k. take k xs) {y = n} (omega arith)
  take_add (suc m) n [] = take-nil (suc m + n) ∙ sym (take-nil n)
  take_add (suc m) n (x ∷ xs) =
      ap (λ k. take k (x ∷ xs)) {y = suc (m + n)} (omega arith) ∙ ap (λ l. x ∷ l) (take_add m n xs)

  -- Two lists that begin alike are equal when what follows is.
  pub append_cancel : (xs ys zs : List A) → xs ++ ys ≡ xs ++ zs → ys ≡ zs
  append_cancel [] ys zs e = e
  append_cancel (x ∷ xs) ys zs e = append_cancel xs ys zs (cc)

-- Every element is a byte.
abbrev pub IsBytes : List ℕ → Type 0
IsBytes [] = Unit
IsBytes (x ∷ xs) = (x < 256) × IsBytes xs

pub IsBytes-take : (n : ℕ) (xs : List ℕ) → IsBytes xs → IsBytes (take n xs)
IsBytes-take zero xs h = tt
IsBytes-take (suc n) [] h = tt
IsBytes-take (suc n) (x ∷ xs) h = (h.0, IsBytes-take n xs h.1)

pub IsBytes-drop : (n : ℕ) (xs : List ℕ) → IsBytes xs → IsBytes (drop n xs)
IsBytes-drop zero xs h = h
IsBytes-drop (suc n) [] h = tt
IsBytes-drop (suc n) (x ∷ xs) h = IsBytes-drop n xs h.1

pub IsBytes-append : (xs ys : List ℕ) → IsBytes xs → IsBytes ys → IsBytes (xs ++ ys)
IsBytes-append [] ys h k = k
IsBytes-append (x ∷ xs) ys h k = (h.0, IsBytes-append xs ys h.1 k)

-- `memcpy` out of an array: `n` bytes from offset `off`.
unfoldable pub load : List ℕ → ℕ → ℕ → Outcome (List ℕ)
load buf off n = if leb (off + n) (length buf) then done (take n (drop off buf)) else fault

-- `memcpy` into an array, at offset `off`.
abbrev pub put_bytes : List ℕ → ℕ → List ℕ → List ℕ
put_bytes buf off bytes = take off buf ++ (bytes ++ drop (off + length bytes) buf)

unfoldable pub store : List ℕ → ℕ → List ℕ → Outcome (List ℕ)
store buf off bytes =
    if leb (off + length bytes) (length buf) then done (put_bytes buf off bytes) else fault

pub load-done :
    (buf : List ℕ) (off n : ℕ)
    → off + n ≤ length buf
    → load buf off n ≡ done (take n (drop off buf))
unfolding load
load-done buf off n h = rw (le→leb _ _ h)

pub store-done :
    (buf : List ℕ) (off : ℕ) (bytes : List ℕ)
    → off + length bytes ≤ length buf
    → store buf off bytes ≡ done (put_bytes buf off bytes)
unfolding store
store-done buf off bytes h = rw (le→leb _ _ h)

pub length-put_bytes :
    (buf : List ℕ) (off : ℕ) (bytes : List ℕ)
    → off + length bytes ≤ length buf
    → length (put_bytes buf off bytes) ≡ length buf
length-put_bytes buf off bytes h = omega (
  arith,
  length-append (take off buf) (bytes ++ drop (off + length bytes) buf),
  length-append bytes (drop (off + length bytes) buf),
  length-take off buf,
  length-drop (off + length bytes) buf,
)
