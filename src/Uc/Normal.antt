-- ===== src/Uc/Normal.antt =====
-- `normalize_privilege` of crates/lakeforge-api/src/uc/privileges.rs: a normal form.
use lakeforge.Prelude.{
  ℕ, ◌≡◌, refl, sym, ◌∙◌, ap, false, [], ◌∷◌, map, ◌==◌, nat_eq, if◌then◌else◌, arith, inl, inr,
  Bool-cases,
}
use mathlib.Core.Path.{ap₂}
use lakeforge.Uc.Names.{
  Name, is_white, trim_start, white_before, trim_end, trim, ascii_upper, replace,
  normalize_privilege,
}

-- What becomes of one point.
abbrev point : ℕ → ℕ
point c = let u = ascii_upper c in if u == 32 then 95 else u

point-point : (c : ℕ) → point (point c) ≡ point c
point-point c = ground arith

point-solid : (c : ℕ) → is_white c ≡ false → is_white (point c) ≡ false
unfolding is_white
point-solid c h = ground arith

map-points : (s : Name) → replace 32 95 (map ascii_upper s) ≡ map point s
map-points [] = refl
map-points (c ∷ s) = ap (λ r. point c ∷ r) (map-points s)

map-twice : (s : Name) → map point (map point s) ≡ map point s
map-twice [] = refl
map-twice (c ∷ s) = ap₂ ◌∷◌ (point-point c) (map-twice s)

-- Nothing, or a text that starts with something solid.
abbrev StartsSolid : Name → Type 0
StartsSolid [] = Unit
StartsSolid (c ∷ s) = is_white c ≡ false

trim_start-StartsSolid : (s : Name) → StartsSolid (trim_start s)
unfolding trim_start
trim_start-StartsSolid [] = tt
trim_start-StartsSolid (c ∷ s) = elim (Bool-cases (is_white c)) [
  | inl white ↦ rw white (trim_start-StartsSolid s)
  | inr solid ↦ rw solid solid
]

white_before-StartsSolid : (c : ℕ) (s : Name) → is_white c ≡ false → StartsSolid (white_before c s)
unfolding white_before
white_before-StartsSolid c [] h = rw h h
white_before-StartsSolid c (x ∷ xs) h = h

trim_end-StartsSolid : (s : Name) → StartsSolid s → StartsSolid (trim_end s)
unfolding trim_end
trim_end-StartsSolid [] h = tt
trim_end-StartsSolid (c ∷ s) h = white_before-StartsSolid c (trim_end s) h

map-StartsSolid : (s : Name) → StartsSolid s → StartsSolid (map point s)
map-StartsSolid [] h = tt
map-StartsSolid (c ∷ s) h = point-solid c h

trim_start-solid : (s : Name) → StartsSolid s → trim_start s ≡ s
unfolding trim_start
trim_start-solid [] h = refl
trim_start-solid (c ∷ s) h = rw h refl

trim_end-before :
    (c : ℕ) (s : Name)
    → trim_end (map point s) ≡ map point s
    → trim_end (map point (white_before c s)) ≡ map point (white_before c s)
unfolding trim_end white_before
trim_end-before c [] h = elim (Bool-cases (is_white c)) [
  | inl white ↦ rw white refl
  | inr solid ↦ rw (solid, point-solid c solid) refl
]
trim_end-before c (x ∷ xs) h = ap (white_before (point c)) h

trim_end-map : (s : Name) → trim_end (map point (trim_end s)) ≡ map point (trim_end s)
unfolding trim_end
trim_end-map [] = refl
trim_end-map (c ∷ s) = trim_end-before c (trim_end s) (trim_end-map s)

pub normalize_privilege_twice :
    (s : Name) → normalize_privilege (normalize_privilege s) ≡ normalize_privilege s
unfolding normalize_privilege trim
normalize_privilege_twice s =
    let t = trim_end (trim_start s) in
    let first : replace 32 95 (map ascii_upper t) ≡ map point t = map-points t in
    let solid =
      map-StartsSolid t (trim_end-StartsSolid (trim_start s) (trim_start-StartsSolid s)) in
    let trimmed : trim_end (trim_start (map point t)) ≡ map point t =
      ap trim_end (trim_start-solid (map point t) solid) ∙ trim_end-map (trim_start s) in
    ap (λ x. replace 32 95 (map ascii_upper (trim_end (trim_start x)))) first
    ∙ ap (λ x. replace 32 95 (map ascii_upper x)) trimmed
    ∙ map-points (map point t)
    ∙ map-twice t
    ∙ sym first
