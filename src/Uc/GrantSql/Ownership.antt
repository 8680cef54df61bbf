-- ===== src/Uc/GrantSql/Ownership.antt =====
-- ALTER … OWNER TO, and the other ALTER statements
-- (crates/lakeforge-api/src/uc/grant_sql.rs).
use lakeforge.Prelude.{
  ℕ, zero, suc, ◌≡◌, refl, Bool, true, false, ◌&&◌, ◌||◌, some, List, [], ◌∷◌, any, ap, get_elem?,
}
use lakeforge.Uc.Names.{Name, codes, name_eq, eq_ignore_ascii_case}
use lakeforge.Uc.Securable.{Securable}
use lakeforge.Uc.GrantSql.Tokens.{Tok}
use lakeforge.Uc.GrantSql.Parse.{Parsed, parsed, unparsed, ◌>>=◌, upper_or_empty, parse_securable}
use lakeforge.Uc.GrantSql.Statements.{read_owner, parse_owner, after_set, is_some_word, statement}

-- OWNER stands somewhere directly before TO.
abbrev pub has_owner_to : List Tok → Bool
has_owner_to [] = false
has_owner_to (t ∷ ts) =
    eq_ignore_ascii_case t.text (codes "OWNER") && is_some_word (codes "TO") (get_elem? ts 0)
    || has_owner_to ts

left_false : (a b : Bool) → (a || b) ≡ false → a ≡ false
left_false false b h = refl
left_false true b h = cc

right_false : (a b : Bool) → (a || b) ≡ false → b ≡ false
right_false false b h = h
right_false true b h = cc

no_owner_to :
    (toks : List Tok) (k : ℕ)
    → has_owner_to toks ≡ false
    → (is_some_word (codes "OWNER") (get_elem? toks k)
        && is_some_word (codes "TO") (get_elem? toks (suc k)))
      ≡ false
no_owner_to [] k h = refl
no_owner_to (t ∷ ts) zero h = left_false _ (has_owner_to ts) h
no_owner_to (t ∷ ts) (suc k) h = no_owner_to ts k (right_false _ (has_owner_to ts) h)

module _ (dc ds : Name) (toks : List Tok) (nowhere : has_owner_to toks ≡ false) where
  read_owner-unparsed :
      (found : Securable × Name × ℕ)
      → read_owner dc ds toks found ≡ unparsed (codes "Expected OWNER TO")
  unfolding read_owner
  read_owner-unparsed (sec, name, k) = rw (no_owner_to toks (after_set dc ds toks k) nowhere) refl

  behind_name :
      (r : Parsed (Securable × Name × ℕ))
      → (m : Name) × ((r >>= read_owner dc ds toks) ≡ unparsed m)
  behind_name (unparsed m) = (m, refl)
  behind_name (parsed found) = (codes "Expected OWNER TO", read_owner-unparsed found)

  -- An ALTER statement in which a token OWNER stands, but nowhere OWNER directly before TO, is taken
  -- as a privilege statement and refused, whatever its tokens are.
  pub alter_refused :
      upper_or_empty (get_elem? toks 0) ≡ codes "ALTER"
      → any (λ (t : Tok). eq_ignore_ascii_case t.text (codes "OWNER")) toks ≡ true
      → (m : Name) × (statement dc ds toks ≡ some (unparsed m))
  unfolding statement parse_owner
  alter_refused first owner =
      let (m, refused) = behind_name (parse_securable dc ds toks 1) in
      (m, rw (first, owner) (ap some refused))
