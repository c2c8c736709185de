-- ===== src/Base/Run.antt =====
-- What a run of C code comes to, and code over a state.

-- `fault` is an access outside the storage that a pointer was given; `spent` says that the
-- fuel of a loop is used up while the loop still runs.
pub data Outcome {ℓ} (A : Type ℓ) : Type ℓ where
  done : A → Outcome A
  fault : Outcome A
  spent : Outcome A

abbrev pub M : Type 0 → Type 0 → Type 0
M S A = S → Outcome (A × S)

infixl 5 ◌>>=◌ ◌>>◌
abbrev pub ◌>>=◌ : {S A B : Type 0} → M S A → (A → M S B) → M S B
◌>>=◌ m f s = elim (m s) [ done (a, s') ↦ f a s' | fault ↦ fault | spent ↦ spent ]

abbrev pub ◌>>◌ : {S B : Type 0} → M S (Unit {0}) → M S B → M S B
m >> k = m >>= λ _. k

abbrev pub pure : {S A : Type 0} → A → M S A
pure a s = done (a, s)

-- An access that reads memory only.
abbrev pub lift : {S A : Type 0} → Outcome A → M S A
lift (done a) s = done (a, s)
lift fault s = fault
lift spent s = spent

abbrev pub gets : {S A : Type 0} → (S → A) → M S A
gets f s = done (f s, s)

abbrev pub modify : {S : Type 0} → (S → S) → M S (Unit {0})
modify f s = done (tt, f s)

-- A call on a part of the state.
abbrev pub zoom : {S T A : Type 0} → (S → T) → (T → S → S) → M T A → M S A
zoom view put m s = elim (m (view s)) [
  | done (a, t) ↦ done (a, put t s)
  | fault ↦ fault
  | spent ↦ spent
]
