-- ===== src/Uc/GrantSql/Tokens.antt =====
-- The tokens of a privilege statement, and the tokenizer (crates/lakeforge-api/src/uc/grant_sql.rs).
use lakeforge.Prelude.{
  ℕ, ◌≡◌, refl, Bool, true, false, not, ◌||◌, Option, none, some, List, [], ◌∷◌, ◌++◌, ◌==◌,
  if◌then◌else◌, nat_eq,
}
use lakeforge.Uc.Names.{Name, codes, is_white}

pub record Tok : Type 0 where
  pub text : Name
  pub quoted : Bool

abbrev pub comma : Tok
comma = record { text = codes ","; quoted = false }

-- The backtick, the double quote and the single quote.
abbrev pub is_quote : ℕ → Bool
is_quote c = c == 96 || c == 34 || c == 39

abbrev pub is_empty : Name → Bool
is_empty [] = true
is_empty (c ∷ s) = false

-- Pushes the token read so far, in front of those that follow. After it `cur` is empty and
-- `quoted` is false, whether or not there was a token.
abbrev pub flush : Name → Bool → List Tok → List Tok
flush cur quoted rest =
    if not (is_empty cur) || quoted then record { text = cur; quoted = quoted } ∷ rest else rest

-- The loop over the characters. The first argument is the quote character of the inner loop while
-- that one runs; the end of the text ends both.
unfoldable pub scan : Option ℕ → Name → Bool → Name → List Tok
scan mark cur quoted [] = flush cur quoted []
scan (some d) cur quoted (c ∷ s) =
    let inside = scan (some d) (cur ++ c ∷ []) quoted s in
    let closed = scan none cur quoted s in if c == d then closed else inside
scan none cur quoted (c ∷ s) =
    let opened = scan (some c) cur true s in
    let after = scan none [] false s in
    let longer = scan none (cur ++ c ∷ []) quoted s in
    if is_quote c
    then opened
    else if c == 44
    then flush cur quoted (comma ∷ after)
    else if is_white c
    then flush cur quoted after
    else longer

unfoldable pub tokenize : Name → List Tok
tokenize s = scan none [] false s

tokenize_mixed :
    tokenize (codes "a.`b c`, 'x'y")
    ≡ record { text = codes "a.b c"; quoted = true }
      ∷ comma
      ∷ record { text = codes "xy"; quoted = true }
      ∷ []
unfolding tokenize scan is_white
tokenize_mixed = refl
