-- ===== src/RingArray/Tabulate.antt =====
-- Lists of the values of a function at consecutive numbers.
use rquic.Base.{ℕ, zero, suc, ◌+◌, ◌-◌, ◌≤◌, ◌<◌, ◌≡◌, refl, ap, ap₂, ◌∙◌, arith}
use rquic.Base.{Bool, ltb, if◌then◌else◌, lt→ltb, le→ltb, none, some}
use rquic.Base.{List, [], ◌∷◌, ◌++◌, take, drop, get_elem?}

module _ {ℓ} {A : Type ℓ} where
  unfoldable pub tabulate : (ℕ → A) → ℕ → ℕ → List A
  tabulate f i zero = []
  tabulate f i (suc n) = f i ∷ tabulate f (suc i) n

  pub tabulate-ext :
      (f g : ℕ → A) (i n : ℕ)
      → ((j : ℕ) → i ≤ j → j < i + n → f j ≡ g j)
      → tabulate f i n ≡ tabulate g i n
  unfolding tabulate
  tabulate-ext f g i zero h = refl
  tabulate-ext f g i (suc n) h =
      ap₂ ◌∷◌ (h i (omega arith) (omega arith))
        (tabulate-ext f g (suc i) n (λ j l m. h j (omega (arith, l)) (omega (arith, m))))

  pub tabulate-shift : (f : ℕ → A) (i n : ℕ) → tabulate f (suc i) n ≡ tabulate (λ j. f (suc j)) i n
  unfolding tabulate
  tabulate-shift f i zero = refl
  tabulate-shift f i (suc n) = ap (λ (l : List A). f (suc i) ∷ l) (tabulate-shift f (suc i) n)

  pub tabulate-last :
      (f : ℕ → A) (i n : ℕ) → tabulate f i (n + 1) ≡ tabulate f i n ++ f (i + n) ∷ []
  unfolding tabulate
  tabulate-last f i zero = let e : i + 0 ≡ i = omega arith in rw e refl
  tabulate-last f i (suc n) =
      let e : i + suc n ≡ suc i + n = omega arith in
      let e₂ : suc n + 1 ≡ suc (n + 1) = omega arith in
      rw (e, e₂) (ap (λ (l : List A). f i ∷ l) (tabulate-last f (suc i) n))

  pub take-tabulate : (f : ℕ → A) (i m n : ℕ) → m ≤ n → take m (tabulate f i n) ≡ tabulate f i m
  unfolding tabulate
  take-tabulate f i zero n h = refl
  take-tabulate f i (suc m) zero h = absurd (omega (arith, h))
  take-tabulate f i (suc m) (suc n) h =
      ap (λ (l : List A). f i ∷ l) (take-tabulate f (suc i) m n (omega (arith, h)))

  pub take-tabulate_all : (f : ℕ → A) (i m n : ℕ) → n ≤ m → take m (tabulate f i n) ≡ tabulate f i n
  unfolding tabulate
  take-tabulate_all f i zero zero h = refl
  take-tabulate_all f i (suc m) zero h = refl
  take-tabulate_all f i zero (suc n) h = absurd (omega (arith, h))
  take-tabulate_all f i (suc m) (suc n) h =
      ap (λ (l : List A). f i ∷ l) (take-tabulate_all f (suc i) m n (omega (arith, h)))

  pub drop-tabulate : (f : ℕ → A) (i n : ℕ) → drop 1 (tabulate f i n) ≡ tabulate f (suc i) (n - 1)
  unfolding tabulate
  drop-tabulate f i zero = refl
  drop-tabulate f i (suc n) = let e : suc n - 1 ≡ n = omega arith in rw e refl

  pub tabulate-none : (f : ℕ → A) (i n : ℕ) → n ≡ 0 → tabulate f i n ≡ drop 1 (tabulate f i n)
  unfolding tabulate
  tabulate-none f i zero h = refl
  tabulate-none f i (suc n) h = absurd (omega (arith, h))

  pub get_elem?-tabulate :
      (f : ℕ → A) (i n k : ℕ)
      → get_elem? (tabulate f i n) k ≡ (if ltb k n then some (f (i + k)) else none)
  unfolding tabulate
  get_elem?-tabulate f i zero k = rw (le→ltb k 0 (omega arith)) refl
  get_elem?-tabulate f i (suc n) zero =
      let e : i + 0 ≡ i = omega arith in rw (lt→ltb 0 (suc n) (omega arith), e) refl
  get_elem?-tabulate f i (suc n) (suc k) =
      let e : i + suc k ≡ suc i + k = omega arith in
      rw e (
        get_elem?-tabulate f (suc i) n k
        ∙ ap (λ (b : Bool). if b then some (f (suc i + k)) else none) (ground arith))
