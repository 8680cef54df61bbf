-- ===== src/Uc/GrantSql/Statements.antt =====
-- The four privilege statements, and which texts are one
-- (crates/lakeforge-api/src/uc/grant_sql.rs).
use lakeforge.Prelude.{
  ℕ, suc, ◌+◌, ◌-◌, ◌≡◌, refl, Bool, true, false, ◌&&◌, ◌||◌, Option, none, some, List, [], ◌∷◌,
  ◌++◌, ◌==◌, nat_eq, if◌then◌else◌, any, get_elem?, take, drop,
}
use lakeforge.Uc.Names.{Name, codes, name_eq, trim, eq_ignore_ascii_case}
use lakeforge.Uc.Securable.{Securable, external_location}
use lakeforge.Uc.GrantSql.Tokens.{Tok, tokenize, scan}
use lakeforge.Uc.GrantSql.Parse.{
  Parsed, parsed, unparsed, ◌>>=◌, ok_or, GrantStmt, grant, revoke, show_grants, set_owner,
  is_keyword, position, parse_privileges, parse_securable, trim_end_matches, upper_or_empty,
  keyword_securable, read_name, position_in,
}

abbrev pub is_some_keyword : Name → Option Tok → Bool
is_some_keyword word none = false
is_some_keyword word (some t) = is_keyword word t

-- The same, where the code does not look at the quotes.
abbrev pub is_some_word : Name → Option Tok → Bool
is_some_word word none = false
is_some_word word (some t) = eq_ignore_ascii_case t.text word

abbrev pub text_of : Option Tok → Option Name
text_of none = none
text_of (some t) = some t.text

abbrev pub nonempty_text : Option Tok → Option Name
nonempty_text none = none
nonempty_text (some t) = elim t.text [ [] ↦ none | c ∷ s ↦ some (c ∷ s) ]

-- The value, if no token follows the statement.
abbrev pub at_end {ℓ} : {A : Type ℓ} → Option Tok → A → Parsed A
at_end none a = parsed a
at_end (some t) a = unparsed (codes "Unexpected token '" ++ t.text ++ codes "'")

abbrev pub grantee_keyword : Bool → Name
grantee_keyword granting = if granting then codes "TO" else codes "FROM"

abbrev pub grant_or_revoke : Bool → List Name → Securable → Name → Name → GrantStmt
grant_or_revoke true ps sec name principal = grant ps sec name principal
grant_or_revoke false ps sec name principal = revoke ps sec name principal

module _ (default_catalog default_schema : Name) where
  -- What `parse_grant_like` reads after the name of the securable.
  unfoldable pub read_grantee :
      List Tok → Bool → List Name → Securable × Name × ℕ → Parsed GrantStmt
  read_grantee toks granting privileges (securable, name, next) =
      let kw = grantee_keyword granting in
      let grantee = do
        principal ← ok_or (nonempty_text (get_elem? toks (suc next))) (codes "Expected a principal")
        at_end (get_elem? toks (next + 2))
            (grant_or_revoke granting privileges securable name principal)
      in if is_some_keyword kw (get_elem? toks next)
        then grantee
        else unparsed (codes "Expected " ++ kw ++ codes " after the securable name")

  unfoldable pub parse_grant_like : List Tok → Bool → Parsed GrantStmt
  unfolding read_grantee
  parse_grant_like toks granting = do
    on ← ok_or (position toks (codes "ON") 1) (codes "Expected ON")
    privileges ← parse_privileges (take (on - 1) (drop 1 toks))
    found ← parse_securable default_catalog default_schema toks (suc on)
    read_grantee toks granting privileges found

  abbrev pub shown_principal : List Tok → ℕ → Parsed (Option Name)
  shown_principal toks on =
      if on == 2
      then parsed none
      else if on == 3
      then parsed (text_of (get_elem? toks 2))
      else unparsed (codes "Expected SHOW GRANTS [principal] ON securable")

  unfoldable pub show_end : List Tok → Option Name → Securable × Name × ℕ → Parsed GrantStmt
  show_end toks principal (securable, name, next) =
      at_end (get_elem? toks next) (show_grants principal securable name)

  unfoldable pub parse_show : List Tok → Parsed GrantStmt
  unfolding show_end
  parse_show toks = do
    on ← ok_or (position toks (codes "ON") 2) (codes "Expected ON")
    principal ← shown_principal toks on
    found ← parse_securable default_catalog default_schema toks (suc on)
    show_end toks principal found

  abbrev pub after_set : List Tok → ℕ → ℕ
  after_set toks next = if is_some_word (codes "SET") (get_elem? toks next) then suc next else next

  unfoldable pub read_owner : List Tok → Securable × Name × ℕ → Parsed GrantStmt
  read_owner toks (securable, name, found) =
      let next = after_set toks found in
      let owned = do
        owner ←
            ok_or (text_of (get_elem? toks (next + 2)))
              (codes "Expected a principal after OWNER TO")
        parsed (set_owner securable name owner)
      in if is_some_word (codes "OWNER") (get_elem? toks next)
          && is_some_word (codes "TO") (get_elem? toks (suc next))
        then owned
        else unparsed (codes "Expected OWNER TO")

  unfoldable pub parse_owner : List Tok → Parsed GrantStmt
  unfolding read_owner
  parse_owner toks = do
    found ← parse_securable default_catalog default_schema toks 1
    read_owner toks found

  -- The statement that tokens make; `none` is a statement of another kind.
  unfoldable pub statement : List Tok → Option (Parsed GrantStmt)
  unfolding parse_grant_like parse_show parse_owner
  statement toks =
      let first = upper_or_empty (get_elem? toks 0) in
      let second = upper_or_empty (get_elem? toks 1) in
      if first == codes "GRANT"
      then some (parse_grant_like toks true)
      else if first == codes "REVOKE"
      then some (parse_grant_like toks false)
      else if first == codes "SHOW" && (second == codes "GRANTS" || second == codes "GRANT")
      then some (parse_show toks)
      else if first == codes "ALTER"
          && any (λ (t : Tok). eq_ignore_ascii_case t.text (codes "OWNER")) toks
      then some (parse_owner toks)
      else none

  unfoldable pub parse_statement : Name → Option (Parsed GrantStmt)
  unfolding statement
  parse_statement sql = statement (tokenize (trim_end_matches 59 (trim sql)))

parse_external :
    parse_statement
      (codes "main")
      (codes "default")
      (codes " show grants `bob` ON external location lake; ")
    ≡ some (parsed (show_grants (some (codes "bob")) external_location (codes "lake")))
unfolding parse_statement statement parse_show show_end parse_securable keyword_securable read_name
    tokenize trim scan position_in
parse_external = refl
