-- ===== src/Uc/GrantSql/Parse.antt =====
-- The parsers of privilege statements, over tokens and indices
-- (crates/lakeforge-api/src/uc/grant_sql.rs).
use lakeforge.Prelude.{
  ℕ, suc, ◌+◌, Bool, not, ◌&&◌, ◌||◌, Option, none, some, List, [], ◌∷◌, ◌++◌, map, ◌==◌, nat_eq,
  if◌then◌else◌, any, get_elem?, drop,
}
use lakeforge.Uc.Names.{
  Name, codes, name_eq, ascii_upper, eq_ignore_ascii_case, split_name, normalize_privilege,
}
use lakeforge.Uc.Securable.{
  Securable, metastore, catalog, schema, table, volume, function, external_location,
  storage_credential, connection, share, recipient, provider,
}
use lakeforge.Uc.GrantSql.Tokens.{Tok}

pub data Parsed {ℓ} (A : Type ℓ) : Type ℓ where
  parsed : A → Parsed A
  unparsed : Name → Parsed A

module _ {ℓ κ} {A : Type ℓ} {B : Type κ} where
  infixl 1 ◌>>=◌
  abbrev pub ◌>>=◌ : Parsed A → (A → Parsed B) → Parsed B
  parsed a >>= f = f a
  unparsed e >>= f = unparsed e

-- `ok_or`.
abbrev pub ok_or {ℓ} : {A : Type ℓ} → Option A → Name → Parsed A
ok_or none e = unparsed e
ok_or (some a) e = parsed a

pub data GrantStmt : Type 0 where
  grant revoke :
      (privileges : List Name) (securable : Securable) (name principal : Name) → GrantStmt
  show_grants : (principal : Option Name) (securable : Securable) (name : Name) → GrantStmt
  set_owner : (securable : Securable) (name owner : Name) → GrantStmt

abbrev pub privilege_words : List Name
privilege_words = map codes (
    "ALL" ∷ "PRIVILEGES" ∷ "SELECT" ∷ "MODIFY" ∷ "USE" ∷ "CATALOG" ∷ "SCHEMA" ∷ "CREATE" ∷ "TABLE"
    ∷ "VOLUME" ∷ "FUNCTION" ∷ "MODEL" ∷ "READ" ∷ "WRITE" ∷ "EXECUTE" ∷ "MANAGE" ∷ "FILES" ∷ "BROWSE"
    ∷ "APPLY" ∷ "TAG" ∷ "REFRESH" ∷ "EXTERNAL" ∷ "LOCATION" ∷ "STORAGE" ∷ "CREDENTIAL"
    ∷ "CONNECTION" ∷ "FOREIGN" ∷ "MANAGED" ∷ "SERVICE" ∷ "USAGE" ∷ "MATERIALIZED" ∷ "VIEW"
    ∷ "ACCESS" ∷ "CLEAN" ∷ "ROOM" ∷ "PROVIDER" ∷ "RECIPIENT" ∷ "SHARE" ∷ "SET" ∷ "OWNER" ∷ [])

unfoldable pub is_privilege_word : Name → Bool
is_privilege_word w = any (λ x. x == w) privilege_words

-- An unquoted token that is the word, in any case.
abbrev pub is_keyword : Name → Tok → Bool
is_keyword word t = not t.quoted && eq_ignore_ascii_case t.text word

unfoldable pub position_in : List Tok → Name → ℕ → Option ℕ
position_in [] word i = none
position_in (t ∷ ts) word i =
    let rest = position_in ts word (suc i) in if is_keyword word t then some i else rest

abbrev pub position : List Tok → Name → ℕ → Option ℕ
position toks word from = position_in (drop from toks) word from

abbrev pub join : List Name → Name
join [] = []
join (w ∷ []) = w
join (w ∷ v ∷ ws) = w ++ codes "_" ++ join (v ∷ ws)

-- Ends the privilege that is being read, if it has a word.
abbrev pub push_privilege : List Name → List Name → List Name
push_privilege out [] = out
push_privilege out (w ∷ ws) = out ++ normalize_privilege (join (w ∷ ws)) ∷ []

unfoldable pub read_privileges : List Tok → List Name → List Name → Parsed (List Name)
read_privileges [] out words = parsed (push_privilege out words)
read_privileges (t ∷ ts) out words =
    let cut = read_privileges ts (push_privilege out words) [] in
    let longer = read_privileges ts out (words ++ map ascii_upper t.text ∷ []) in
    if t.text == codes ","
    then cut
    else if is_privilege_word (map ascii_upper t.text)
    then longer
    else unparsed (codes "Unknown privilege token '" ++ t.text ++ codes "'")

abbrev pub spell_all : Name → Name
spell_all p = if p == codes "ALL" then codes "ALL_PRIVILEGES" else p

abbrev pub some_privileges : List Name → Parsed (List Name)
some_privileges [] = unparsed (codes "Expected at least one privilege")
some_privileges (p ∷ ps) = parsed (map spell_all (p ∷ ps))

unfoldable pub parse_privileges : List Tok → Parsed (List Name)
parse_privileges toks = do out ← read_privileges toks [] []; some_privileges out

abbrev pub upper_or_empty : Option Tok → Name
upper_or_empty none = []
upper_or_empty (some t) = map ascii_upper t.text

abbrev pub unquoted_upper : Option Tok → Name
unquoted_upper none = []
unquoted_upper (some t) = if t.quoted then [] else map ascii_upper t.text

-- The keywords of a securable, the word at `i` and the next one, and how many they are.
unfoldable pub keyword_securable : Name → Name → Option Securable × ℕ
keyword_securable w v =
    if w == codes "CATALOG"
    then (some catalog, 1)
    else if w == codes "SCHEMA" || w == codes "DATABASE"
    then (some schema, 1)
    else if w == codes "TABLE" || w == codes "VIEW"
    then (some table, 1)
    else if w == codes "MATERIALIZED" && v == codes "VIEW"
    then (some table, 2)
    else if w == codes "STREAMING" && v == codes "TABLE"
    then (some table, 2)
    else if w == codes "VOLUME"
    then (some volume, 1)
    else if w == codes "FUNCTION" || w == codes "MODEL"
    then (some function, 1)
    else if w == codes "EXTERNAL" && v == codes "LOCATION"
    then (some external_location, 2)
    else if w == codes "STORAGE" && v == codes "CREDENTIAL"
    then (some storage_credential, 2)
    else if w == codes "CONNECTION"
    then (some connection, 1)
    else if w == codes "SHARE"
    then (some share, 1)
    else if w == codes "RECIPIENT"
    then (some recipient, 1)
    else if w == codes "PROVIDER"
    then (some provider, 1)
    else (none, 0)

-- `trim_start_matches` and `trim_end_matches` of one point.
abbrev pub trim_start_matches : ℕ → Name → Name
trim_start_matches d [] = []
trim_start_matches d (c ∷ s) = let rest = trim_start_matches d s in if c == d then rest else c ∷ s

abbrev pub end_before : ℕ → ℕ → Name → Name
end_before d c [] = if c == d then [] else c ∷ []
end_before d c (x ∷ xs) = c ∷ x ∷ xs

abbrev pub trim_end_matches : ℕ → Name → Name
trim_end_matches d [] = []
trim_end_matches d (c ∷ s) = end_before d c (trim_end_matches d s)

-- What is named without a keyword, by the number of its parts.
abbrev pub infer_securable : Option Securable → List Name → Securable
infer_securable (some s) parts = s
infer_securable none (a ∷ []) = catalog
infer_securable none (a ∷ b ∷ []) = schema
infer_securable none parts = table

-- `{a}.{b}`.
abbrev pub dotted : Name → Name → Name
dotted a b = a ++ codes "." ++ b

module _ (default_catalog default_schema : Name) where
  abbrev pub qualify_schema : List Name → Name → Name
  qualify_schema (a ∷ []) raw = dotted default_catalog raw
  qualify_schema parts raw = raw

  abbrev pub qualify_object : List Name → Name → Name
  qualify_object (a ∷ []) raw = dotted default_catalog (dotted default_schema raw)
  qualify_object (a ∷ b ∷ []) raw = dotted default_catalog raw
  qualify_object parts raw = raw

  -- The full name, the defaults put in front of a name that lacks them.
  abbrev pub qualify : Securable → List Name → Name → Name
  qualify schema parts raw = qualify_schema parts raw
  qualify table parts raw = qualify_object parts raw
  qualify volume parts raw = qualify_object parts raw
  qualify function parts raw = qualify_object parts raw
  qualify s parts raw = raw

  unfoldable pub read_name : Option Securable → ℕ → Tok → Parsed (Securable × Name × ℕ)
  read_name s j t =
      let raw = trim_end_matches 96 (trim_start_matches 96 t.text) in
      let parts = split_name 46 raw in
      let sec = infer_securable s parts in parsed (sec, qualify sec parts raw, suc j)

  unfoldable pub parse_securable : List Tok → ℕ → Parsed (Securable × Name × ℕ)
  unfolding keyword_securable read_name
  parse_securable toks i =
      let w = unquoted_upper (get_elem? toks i) in
      let (s, skipped) = keyword_securable w (unquoted_upper (get_elem? toks (suc i))) in
      let named = do
        t ← ok_or (get_elem? toks (i + skipped)) (codes "Expected a securable name")
        read_name s (i + skipped) t
      in if w == codes "METASTORE"
        then parsed (metastore, codes "lakeforge-metastore", suc i)
        else named
