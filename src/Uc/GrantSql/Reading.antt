-- ===== src/Uc/GrantSql/Reading.antt =====
-- The parsers on the tokens of a GRANT or REVOKE statement
-- (crates/lakeforge-api/src/uc/grant_sql.rs).
use mathlib.Core.List.{append_assoc, append-nil}
use lakeforge.Prelude.{
  ℕ, zero, suc, ◌+◌, ◌≡◌, refl, ap, ◌∙◌, Bool, true, false, not, ◌&&◌, some, List, [], ◌∷◌, ◌++◌,
  map, ◌==◌, nat_eq, all, any, All, arith, sym, take, length, get_elem?,
}
use lakeforge.Uc.Names.{
  Name, codes, is_white, name_eq, ascii_upper, split_name, normalize_privilege, name_beq_iff,
  eq_ignore_ascii_case,
}
use lakeforge.Uc.Securable.{
  Securable, metastore, catalog, schema, table, volume, function, external_location,
  storage_credential, connection, share, recipient, provider,
}
use lakeforge.Uc.GrantSql.Tokens.{Tok, comma}
use lakeforge.Uc.GrantSql.Parse.{
  parsed, unquoted_upper, privilege_words, is_privilege_word, is_keyword, position_in, join,
  push_privilege, read_privileges, spell_all, parse_privileges, keyword_securable, read_name,
  parse_securable, qualify, trim_start_matches, trim_end_matches,
}
use lakeforge.Uc.GrantSql.Printing.{word, quote, is_bare, not_backtick, is_plain, IsPrintable, bare}
use lakeforge.Uc.GrantSql.Rendering.{
  securable_toks, privileges_toks, privilege, full_name, IsPrivilege,
}

module _ {ℓ} {A : Type ℓ} where
  pub get_elem?-append :
      (xs ys : List A) (i k : ℕ) → i ≡ length xs + k → get_elem? (xs ++ ys) i ≡ get_elem? ys k
  get_elem?-append [] ys i k h = ap (λ j. get_elem? ys j) (omega arith)
  get_elem?-append (x ∷ xs) ys zero k h = absurd (omega arith)
  get_elem?-append (x ∷ xs) ys (suc i) k h = get_elem?-append xs ys i k (omega arith)

  pub take-append : (xs ys : List A) (n : ℕ) → n ≡ length xs → take n (xs ++ ys) ≡ xs
  take-append [] ys zero h = refl
  take-append [] ys (suc n) h = absurd (omega arith)
  take-append (x ∷ xs) ys zero h = absurd (omega arith)
  take-append (x ∷ xs) ys (suc n) h = ap (λ r. x ∷ r) (take-append xs ys n (omega arith))

-- What every word of a list has, a member has.
any-all :
    (q : Name → Bool) (w : Name) (l : List Name)
    → any (λ x. x == w) l ≡ true
    → all q l ≡ true
    → q w ≡ true
any-all q w [] h a = cc
any-all q w (x ∷ l) h a = ground (arith, name_beq_iff x w, any-all q w l)

-- What the proofs need of a privilege word: it is not ON, nor a comma, upper case already, and bare.
abbrev pub is_fit : Name → Bool
is_fit w =
    not (eq_ignore_ascii_case w (codes "ON"))
    && not (w == codes ",")
    && map ascii_upper w == w
    && is_bare w

pub fit : (w : Name) → is_privilege_word w ≡ true → is_fit w ≡ true
unfolding is_privilege_word
fit w h = any-all is_fit w privilege_words h (unfold is_plain is_white in refl)

pub fit-IsPrintable : (w : Name) → is_privilege_word w ≡ true → IsPrintable (word w)
fit-IsPrintable w h = let f = fit w h in bare w (ground arith)

pub position-on :
    (xs ys : List Tok) (i : ℕ)
    → All (λ t. is_keyword (codes "ON") t ≡ false) xs
    → position_in (xs ++ word (codes "ON") ∷ ys) (codes "ON") i ≡ some (length xs + i)
unfolding position_in
position-on [] ys i h = ap some (omega arith)
position-on (x ∷ xs) ys i h = rw h.0 (position-on xs ys (suc i) h.1 ∙ ap some (omega arith))

read-words :
    (ws acc out : List Name) (rest : List Tok)
    → All (λ v. is_privilege_word v ≡ true) ws
    → read_privileges (map word ws ++ rest) out acc ≡ read_privileges rest out (acc ++ ws)
unfolding read_privileges
read-words [] acc out rest h = rw append-nil refl
read-words (w ∷ ws) acc out rest h =
    let f = fit w h.0 in
    let plain : (w == codes ",") ≡ false = ground arith in
    let upper : map ascii_upper w ≡ w = (name_beq_iff (map ascii_upper w) w).0 (ground arith) in
    rw (plain, upper, h.0)
      (read-words ws (acc ++ w ∷ []) out rest h.1
        ∙ ap (λ x. read_privileges rest out x) (append_assoc acc (w ∷ []) ws))

read_end :
    (out words : List Name) → read_privileges [] out words ≡ parsed (push_privilege out words)
unfolding read_privileges
read_end out words = refl

read_comma :
    (out words : List Name) (rest : List Tok)
    → read_privileges (comma ∷ rest) out words ≡ read_privileges rest (push_privilege out words) []
unfolding read_privileges
read_comma out words rest = refl

read-privileges_toks :
    (p : List Name) (ps : List (List Name)) (out : List Name)
    → All IsPrivilege (p ∷ ps)
    → read_privileges (privileges_toks (p ∷ ps)) out []
      ≡ parsed (out ++ map (λ ws. normalize_privilege (join ws)) (p ∷ ps))
read-privileges_toks [] ps out h = elim h.0 [ ]
read-privileges_toks (w ∷ ws) [] out h =
    ap (λ x. read_privileges x out []) (sym (append-nil (map word (w ∷ ws))))
    ∙ read-words (w ∷ ws) [] out [] h.0
    ∙ read_end out (w ∷ ws)
read-privileges_toks (w ∷ ws) (v ∷ ps) out h =
    read-words (w ∷ ws) [] out (comma ∷ privileges_toks (v ∷ ps)) h.0
    ∙ read_comma out (w ∷ ws) (privileges_toks (v ∷ ps))
    ∙ read-privileges_toks v ps (push_privilege out (w ∷ ws)) h.1
    ∙ ap parsed (append_assoc out (normalize_privilege (join (w ∷ ws)) ∷ []) _)

spelled :
    (ps : List (List Name))
    → map spell_all (map (λ ws. normalize_privilege (join ws)) ps) ≡ map privilege ps
spelled [] = refl
spelled (p ∷ ps) = ap (λ x. privilege p ∷ x) (spelled ps)

pub parse-privileges_toks :
    (p : List Name) (ps : List (List Name))
    → All IsPrivilege (p ∷ ps)
    → parse_privileges (privileges_toks (p ∷ ps)) ≡ parsed (map privilege (p ∷ ps))
unfolding parse_privileges
parse-privileges_toks p ps h = rw (read-privileges_toks p ps [] h) (ap parsed (spelled (p ∷ ps)))

trim_start-plain : (s : Name) → all not_backtick s ≡ true → trim_start_matches 96 s ≡ s
trim_start-plain [] h = refl
trim_start-plain (c ∷ s) h = ground arith

trim_end-plain : (s : Name) → all not_backtick s ≡ true → trim_end_matches 96 s ≡ s
trim_end-plain [] h = refl
trim_end-plain (c ∷ []) h = ground arith
trim_end-plain (c ∷ d ∷ s) h =
    let rest : all not_backtick (d ∷ s) ≡ true = ground arith in
    rw (trim_end-plain (d ∷ s) rest) refl

module _ (dc ds : Name) (toks : List Tok) (i : ℕ) where
  read_keyworded :
      (a b : Tok) (sec : Securable) (k next : ℕ) (name : Name)
      → get_elem? toks i ≡ some a
      → get_elem? toks (suc i) ≡ some b
      → get_elem? toks (i + k) ≡ some (quote name)
      → keyword_securable (unquoted_upper (some a)) (unquoted_upper (some b)) ≡ (some sec, k)
      → (unquoted_upper (some a) == codes "METASTORE") ≡ false
      → all not_backtick name ≡ true
      → suc (i + k) ≡ next
      → parse_securable dc ds toks i
        ≡ parsed (sec, qualify dc ds sec (split_name 46 name) name, next)
  unfolding parse_securable read_name
  read_keyworded a b sec k next name first second third kw other ticks end =
      rw
        (
          first,
          second,
          kw,
          other,
          third,
          trim_start-plain name ticks,
          trim_end-plain name ticks,
          end,
        )
        refl

module _ (dc ds : Name) (before after : List Tok) (i : ℕ) (at : i ≡ length before) where
  -- The token at a place behind `before`.
  behind : (ys : List Tok) (k j : ℕ) → j ≡ i + k → get_elem? (before ++ ys) j ≡ get_elem? ys k
  behind ys k j e = get_elem?-append before ys j k (omega arith)

  read_one :
      (w : Name) (sec : Securable) (name : Name)
      → keyword_securable (map ascii_upper w) [] ≡ (some sec, 1)
      → (map ascii_upper w == codes "METASTORE") ≡ false
      → all not_backtick name ≡ true
      → parse_securable dc ds (before ++ (word w ∷ quote name ∷ after)) i
        ≡ parsed (sec, qualify dc ds sec (split_name 46 name) name, i + 2)
  read_one w sec name kw other ticks =
      let ys : List Tok = word w ∷ quote name ∷ after in
      read_keyworded dc ds (before ++ ys) i (word w) (quote name) sec 1 (i + 2) name
        (behind ys 0 i (omega arith)) (behind ys 1 (suc i) (omega arith)) (behind ys 1 (i + 1) refl)
        kw other ticks (omega arith)

  read_two :
      (w v : Name) (sec : Securable) (name : Name)
      → keyword_securable (map ascii_upper w) (map ascii_upper v) ≡ (some sec, 2)
      → (map ascii_upper w == codes "METASTORE") ≡ false
      → all not_backtick name ≡ true
      → parse_securable dc ds (before ++ (word w ∷ word v ∷ quote name ∷ after)) i
        ≡ parsed (sec, qualify dc ds sec (split_name 46 name) name, i + 3)
  read_two w v sec name kw other ticks =
      let ys : List Tok = word w ∷ word v ∷ quote name ∷ after in
      read_keyworded dc ds (before ++ ys) i (word w) (word v) sec 2 (i + 3) name
        (behind ys 0 i (omega arith)) (behind ys 1 (suc i) (omega arith)) (behind ys 2 (i + 2) refl)
        kw other ticks (omega arith)

  read_metastore :
      parse_securable dc ds (before ++ (word (codes "METASTORE") ∷ after)) i
      ≡ parsed (metastore, codes "lakeforge-metastore", i + 1)
  unfolding parse_securable
  read_metastore =
      rw (behind (word (codes "METASTORE") ∷ after) 0 i (omega arith))
        (ap (λ n. parsed (metastore, codes "lakeforge-metastore", n)) (omega arith))

  -- The securable is read where its tokens stand, whatever follows.
  pub parse_securable-toks :
      (sec : Securable) (name : Name)
      → all not_backtick name ≡ true
      → parse_securable dc ds (before ++ (securable_toks sec name ++ after)) i
        ≡ parsed (sec, full_name dc ds sec name, i + length (securable_toks sec name))
  unfolding keyword_securable
  parse_securable-toks metastore name h = read_metastore
  parse_securable-toks catalog name h = read_one (codes "CATALOG") catalog name refl refl h
  parse_securable-toks schema name h = read_one (codes "SCHEMA") schema name refl refl h
  parse_securable-toks table name h = read_one (codes "TABLE") table name refl refl h
  parse_securable-toks volume name h = read_one (codes "VOLUME") volume name refl refl h
  parse_securable-toks function name h = read_one (codes "FUNCTION") function name refl refl h
  parse_securable-toks external_location name h =
      read_two (codes "EXTERNAL") (codes "LOCATION") external_location name refl refl h
  parse_securable-toks storage_credential name h =
      read_two (codes "STORAGE") (codes "CREDENTIAL") storage_credential name refl refl h
  parse_securable-toks connection name h = read_one (codes "CONNECTION") connection name refl refl h
  parse_securable-toks share name h = read_one (codes "SHARE") share name refl refl h
  parse_securable-toks recipient name h = read_one (codes "RECIPIENT") recipient name refl refl h
  parse_securable-toks provider name h = read_one (codes "PROVIDER") provider name refl refl h
