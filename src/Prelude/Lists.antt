-- ===== src/Prelude/Lists.antt =====
-- Lists measured and indexed by native numbers, under the library's names, and predicates on lists.
use Prim.Native.Nat.{ℕ, zero, suc, ◌+◌, ◌<◌}
use mathlib.Core.Path.{◌≡◌, refl, ap, ap₂}
use mathlib.Core.Bool.{Bool, true, false, ◌&&◌, ◌||◌}
use mathlib.Core.List.{List, [], ◌∷◌, ◌++◌, map}
use mathlib.Core.Option.{Option, none, some, some-injective}
use native.Mathlib.Omega.{arith}
use lakeforge.Prelude.Tests.{if◌then◌else◌, nat_beq}
use mathlib.Core.Logic.{◌⊎◌, inl, inr}

module _ {ℓ} {A : Type ℓ} where
  abbrev pub length : List A → ℕ
  length [] = 0
  length (x ∷ xs) = suc (length xs)

  abbrev pub get_elem? : List A → ℕ → Option A
  get_elem? [] i = none
  get_elem? (x ∷ xs) zero = some x
  get_elem? (x ∷ xs) (suc i) = get_elem? xs i

  -- Rewrites the element at an index; out of bounds nothing changes.
  abbrev pub modify_at : List A → ℕ → (A → A) → List A
  modify_at [] i f = []
  modify_at (x ∷ xs) zero f = f x ∷ xs
  modify_at (x ∷ xs) (suc i) f = x ∷ modify_at xs i f

  abbrev pub replicate : ℕ → A → List A
  replicate zero a = []
  replicate (suc n) a = a ∷ replicate n a

  abbrev pub get_last? : List A → Option A
  get_last? [] = none
  get_last? (x ∷ []) = some x
  get_last? (x ∷ y ∷ ys) = get_last? (y ∷ ys)

  abbrev pub take : ℕ → List A → List A
  take zero xs = []
  take (suc n) [] = []
  take (suc n) (x ∷ xs) = x ∷ take n xs

  abbrev pub drop : ℕ → List A → List A
  drop zero xs = xs
  drop (suc n) [] = []
  drop (suc n) (x ∷ xs) = drop n xs

  -- `Iterator::all` and `Iterator::any`.
  abbrev pub all : (A → Bool) → List A → Bool
  all p [] = true
  all p (x ∷ xs) = p x && all p xs

  abbrev pub any : (A → Bool) → List A → Bool
  any p [] = false
  any p (x ∷ xs) = p x || any p xs

  -- `Iterator::filter`, over a Boolean test.
  abbrev pub keep : (A → Bool) → List A → List A
  keep p [] = []
  keep p (x ∷ xs) = let rest = keep p xs in if p x then x ∷ rest else rest

  abbrev pub All {κ} : (A → Type κ) → List A → Type κ
  All P [] = Unit
  All P (x ∷ xs) = P x × All P xs

  abbrev pub concat_map {κ} : {B : Type κ} → (A → List B) → List A → List B
  concat_map f [] = []
  concat_map f (x ∷ xs) = f x ++ concat_map f xs

module _ {ℓ} {A : Type ℓ} where
  pub length-append : (xs ys : List A) → length (xs ++ ys) ≡ length xs + length ys
  length-append [] ys = omega arith
  length-append (x ∷ xs) ys = omega (arith, length-append xs ys)

  pub length-modify_at : (xs : List A) (i : ℕ) (f : A → A) → length (modify_at xs i f) ≡ length xs
  length-modify_at [] i f = refl
  length-modify_at (x ∷ xs) zero f = refl
  length-modify_at (x ∷ xs) (suc i) f = ap suc (length-modify_at xs i f)

  pub length-replicate : (n : ℕ) (a : A) → length (replicate n a) ≡ n
  length-replicate zero a = refl
  length-replicate (suc n) a = ap suc (length-replicate n a)

  pub All-append {κ} : (P : A → Type κ) (xs ys : List A) → All P xs → All P ys → All P (xs ++ ys)
  All-append P [] ys hx hy = hy
  All-append P (x ∷ xs) ys hx hy = (hx.0, All-append P xs ys hx.1 hy)

  pub All-split {κ} : (P : A → Type κ) (xs ys : List A) → All P (xs ++ ys) → All P xs × All P ys
  All-split P [] ys h = (tt, h)
  All-split P (x ∷ xs) ys h = let (l, r) = All-split P xs ys h.1 in ((h.0, l), r)

  pub All-map {κ μ} :
      (P : A → Type κ) (Q : A → Type μ) (xs : List A) → ((x : A) → P x → Q x) → All P xs → All Q xs
  All-map P Q [] f h = tt
  All-map P Q (x ∷ xs) f h = (f x h.0, All-map P Q xs f h.1)

  pub List-cases : (xs : List A) → (xs ≡ []) ⊎ ((x : A) × (rest : List A) × (xs ≡ x ∷ rest))
  List-cases [] = inl refl
  List-cases (x ∷ xs) = inr (x, xs, refl)

  pub append-eq-nil : (xs ys : List A) → xs ++ ys ≡ [] → (xs ≡ []) × (ys ≡ [])
  append-eq-nil [] ys h = (refl, h)
  append-eq-nil (x ∷ xs) ys h = cc

module _ {ℓ} {A : Type ℓ} where
  pub all-modify_at :
      (q : A → Bool) (xs : List A) (i : ℕ) (f : A → A) {x : A}
      → get_elem? xs i ≡ some x
      → q (f x) ≡ true
      → all q xs ≡ true
      → all q (modify_at xs i f) ≡ true
  all-modify_at q [] i f found h a = cc
  all-modify_at q (y ∷ ys) zero f found h a = ground arith
  all-modify_at q (y ∷ ys) (suc i) f found h a = ground (arith, all-modify_at q ys i f found h)

  pub all-get_elem? :
      (q : A → Bool) (xs : List A) (i : ℕ) {x : A}
      → get_elem? xs i ≡ some x
      → all q xs ≡ true
      → q x ≡ true
  all-get_elem? q [] i found a = cc
  all-get_elem? q (y ∷ ys) zero found a = ground arith
  all-get_elem? q (y ∷ ys) (suc i) found a = ground (arith, all-get_elem? q ys i found)

  pub All-modify_at {κ} :
      (P : A → Type κ) (xs : List A) (i : ℕ) (f : A → A)
      → ((x : A) → P x → P (f x))
      → All P xs
      → All P (modify_at xs i f)
  All-modify_at P [] i f step h = tt
  All-modify_at P (y ∷ ys) zero f step h = (step y h.0, h.1)
  All-modify_at P (y ∷ ys) (suc i) f step h = (h.0, All-modify_at P ys i f step h.1)

module _ {ℓ κ} {A : Type ℓ} {B : Type κ} where
  pub length-map : (xs : List A) (f : A → B) → length (map f xs) ≡ length xs
  length-map [] f = refl
  length-map (x ∷ xs) f = ap suc (length-map xs f)

pub get_elem?-modify_at {ℓ} :
    {A : Type ℓ} (xs : List A) (i j : ℕ) (f : A → A) {x : A}
    → get_elem? xs j ≡ some x
    → get_elem? (modify_at xs i f) j ≡ some (if nat_beq i j then f x else x)
get_elem?-modify_at [] i j f h = cc
get_elem?-modify_at (y ∷ xs) zero zero f h = ground arith
get_elem?-modify_at (y ∷ xs) zero (suc j) f h = ground arith
get_elem?-modify_at (y ∷ xs) (suc i) zero f h = ground arith
get_elem?-modify_at (y ∷ xs) (suc i) (suc j) f h = ground (arith, get_elem?-modify_at xs i j f h)

-- The numbers from `start` on.
abbrev pub count_up : ℕ → ℕ → List ℕ
count_up start zero = []
count_up start (suc n) = start ∷ count_up (suc start) n

pub length-count_up : (start n : ℕ) → length (count_up start n) ≡ n
length-count_up start zero = refl
length-count_up start (suc n) = ap suc (length-count_up (suc start) n)

-- A list is known by its elements.
pub map-count_up {ℓ} :
    {A : Type ℓ} (xs : List A) (k n : ℕ) (f : ℕ → A)
    → length xs ≡ n
    → ((i m : ℕ) → i < n → i + k ≡ m → get_elem? xs i ≡ some (f m))
    → xs ≡ map f (count_up k n)
map-count_up [] k zero f len at = refl
map-count_up [] k (suc n) f len at = cc
map-count_up (x ∷ xs) k zero f len at = cc
map-count_up (x ∷ xs) k (suc n) f len at =
    let head : x ≡ f k = some-injective x (f k) (at 0 k (omega arith) (omega arith)) in
    let tail : xs ≡ map f (count_up (suc k) n) =
      map-count_up xs (suc k) n f (omega (arith, len))
        (λ i m below e. at (suc i) m (omega arith) (omega arith)) in
    ap₂ ◌∷◌ head tail
