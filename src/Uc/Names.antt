-- ===== src/Uc/Names.antt =====
-- Names and privileges as texts: the operations of `str` that
-- crates/lakeforge-api/src/uc/privileges.rs calls, on lists of code points.
use Prim.Native.Char.{code}
use lakeforge.Prelude.{
  ℕ, ◌+◌, ◌-◌, ◌≡◌, refl, ◌↔◌, String, Bool, true, false, ◌&&◌, ◌||◌, Option, none, some, List, [],
  ◌∷◌, ◌++◌, map, Eq, ◌==◌, nat_eq, nat_beq, leb, if◌then◌else◌, any, arith, ap,
}

abbrev pub Name : Type 0
Name = List ℕ

abbrev pub codes : String → Name
codes String.[] = []
codes (String.◌∷◌ c s) = code c ∷ codes s

abbrev pub name_beq : Name → Name → Bool
name_beq [] [] = true
name_beq [] (b ∷ bs) = false
name_beq (a ∷ r) [] = false
name_beq (a ∷ r) (b ∷ bs) = nat_beq a b && name_beq r bs

pub name_beq_iff : (a b : Name) → (name_beq a b ≡ true) ↔ (a ≡ b)
name_beq_iff [] [] = (λ _. refl, λ _. refl)
name_beq_iff [] (b ∷ bs) = (λ h. cc, λ h. cc)
name_beq_iff (a ∷ r) [] = (λ h. cc, λ h. cc)
name_beq_iff (a ∷ r) (b ∷ bs) = ground (arith, name_beq_iff r bs)

instance abbrev pub name_eq : Eq Name
name_eq = record { same_iff = name_beq_iff; same = name_beq }

-- The points of the Unicode property White_Space, which `trim` strips.
unfoldable pub is_white : ℕ → Bool
is_white c =
    (leb 9 c && leb c 13)
    || (leb 8192 c && leb c 8202)
    || any (λ w. w == c) (32 ∷ 133 ∷ 160 ∷ 5760 ∷ 8232 ∷ 8233 ∷ 8239 ∷ 8287 ∷ 12288 ∷ [])

unfoldable pub trim_start : Name → Name
unfolding is_white
trim_start [] = []
trim_start (c ∷ s) = let rest = trim_start s in if is_white c then rest else c ∷ s

-- White space at the end goes when nothing else follows it.
unfoldable pub white_before : ℕ → Name → Name
unfolding is_white
white_before c [] = if is_white c then [] else c ∷ []
white_before c (x ∷ xs) = c ∷ x ∷ xs

unfoldable pub trim_end : Name → Name
unfolding white_before
trim_end [] = []
trim_end (c ∷ s) = white_before c (trim_end s)

unfoldable pub trim : Name → Name
unfolding trim_start trim_end
trim s = trim_end (trim_start s)

trim_end-solid : (s : Name) (d : ℕ) → is_white d ≡ false → trim_end (s ++ d ∷ []) ≡ s ++ d ∷ []
unfolding trim_end white_before
trim_end-solid [] d h = rw h refl
trim_end-solid (c ∷ []) d h = rw h refl
trim_end-solid (c ∷ e ∷ s) d h = ap (λ x. white_before c x) (trim_end-solid (e ∷ s) d h)

-- A text that starts and ends with something solid is not trimmed.
pub trim-solid :
    (c d : ℕ) (s : Name)
    → is_white c ≡ false
    → is_white d ≡ false
    → trim (c ∷ s ++ d ∷ []) ≡ c ∷ s ++ d ∷ []
unfolding trim trim_start
trim-solid c d s h k = rw h (trim_end-solid (c ∷ s) d k)

-- `to_ascii_uppercase` and `to_ascii_lowercase`, of one point.
abbrev pub ascii_upper : ℕ → ℕ
ascii_upper c = if leb 97 c && leb c 122 then c - 32 else c

abbrev pub ascii_lower : ℕ → ℕ
ascii_lower c = if leb 65 c && leb c 90 then c + 32 else c

abbrev pub eq_ignore_ascii_case : Name → Name → Bool
eq_ignore_ascii_case a b = map ascii_lower a == map ascii_lower b

-- `replace` of one point by another.
abbrev pub replace : ℕ → ℕ → Name → Name
replace a b = map (λ c. if c == a then b else c)

abbrev pub cons_before : ℕ → Option (Name × Name) → Option (Name × Name)
cons_before c none = none
cons_before c (some (a, b)) = some (c ∷ a, b)

-- `split_once`.
abbrev pub split_once : ℕ → Name → Option (Name × Name)
split_once d [] = none
split_once d (c ∷ s) =
    let rest = split_once d s in if c == d then some ([], s) else cons_before c rest

abbrev pub cons_first : ℕ → List Name → List Name
cons_first c [] = (c ∷ []) ∷ []
cons_first c (x ∷ xs) = (c ∷ x) ∷ xs

-- `split(d).collect()`: never empty.
abbrev pub split_name : ℕ → Name → List Name
split_name d [] = [] ∷ []
split_name d (c ∷ s) = let rest = split_name d s in if c == d then [] ∷ rest else cons_first c rest

abbrev pub starts_with : Name → Name → Bool
starts_with [] s = true
starts_with (p ∷ ps) [] = false
starts_with (p ∷ ps) (c ∷ s) = p == c && starts_with ps s

-- `normalize_privilege`.
unfoldable pub normalize_privilege : Name → Name
normalize_privilege p = replace 32 95 (map ascii_upper (trim p))

normalize_use_catalog : normalize_privilege (codes " use catalog ") ≡ codes "USE_CATALOG"
unfolding normalize_privilege trim
normalize_use_catalog = refl
