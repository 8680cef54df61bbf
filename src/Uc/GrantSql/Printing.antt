-- ===== src/Uc/GrantSql/Printing.antt =====
-- The text of tokens, a space between them, and the tokenizer on it
-- (crates/lakeforge-api/src/uc/grant_sql.rs).
use mathlib.Core.List.{append_assoc, append-nil}
use lakeforge.Prelude.{
  ℕ, ◌≡◌, refl, ap, ◌∙◌, Bool, true, false, not, ◌&&◌, ◌||◌, none, some, List, [], ◌∷◌, ◌++◌, ◌==◌,
  nat_eq, if◌then◌else◌, all, All, arith, sym,
}
use lakeforge.Uc.Names.{Name, is_white}
use lakeforge.Uc.GrantSql.Tokens.{Tok, comma, is_quote, is_empty, flush, scan, tokenize}

abbrev pub word : Name → Tok
word w = record { text = w; quoted = false }

abbrev pub quote : Name → Tok
quote s = record { text = s; quoted = true }

abbrev pub backticked : Name → Name
backticked s = 96 ∷ s ++ 96 ∷ []

abbrev pub print_tok : Tok → Name
print_tok t = if t.quoted then backticked t.text else t.text

abbrev pub print_toks : List Tok → Name
print_toks [] = []
print_toks (t ∷ []) = print_tok t
print_toks (t ∷ u ∷ ts) = print_tok t ++ 32 ∷ print_toks (u ∷ ts)

-- A character that a token can have without quotes.
unfoldable pub is_plain : ℕ → Bool
unfolding is_white
is_plain c = not (is_quote c || c == 44 || is_white c)

abbrev pub is_bare : Name → Bool
is_bare s = not (is_empty s) && all is_plain s

abbrev pub not_backtick : ℕ → Bool
not_backtick c = not (c == 96)

-- The tokens that have a text: words, the comma, and what backticks can quote.
pub data IsPrintable : Tok → Type 0 where
  bare : (s : Name) → is_bare s ≡ true → IsPrintable (word s)
  separator : IsPrintable comma
  ticked : (s : Name) → all not_backtick s ≡ true → IsPrintable (quote s)

scan-plain :
    (c : ℕ) (cur s : Name) (q : Bool)
    → is_plain c ≡ true
    → scan none cur q (c ∷ s) ≡ scan none (cur ++ c ∷ []) q s
unfolding scan is_plain
scan-plain c cur s q h = ground arith

scan-plains :
    (s cur rest : Name) (q : Bool)
    → all is_plain s ≡ true
    → scan none cur q (s ++ rest) ≡ scan none (cur ++ s) q rest
scan-plains [] cur rest q h = rw append-nil refl
scan-plains (c ∷ s) cur rest q h =
    let (first, others) : (is_plain c ≡ true) × (all is_plain s ≡ true) = ground arith in
    scan-plain c cur (s ++ rest) q first
    ∙ scan-plains s (cur ++ c ∷ []) rest q others
    ∙ ap (λ x. scan none x q rest) (append_assoc cur (c ∷ []) s)

scan-quoted :
    (s cur rest : Name) (q : Bool)
    → all not_backtick s ≡ true
    → scan (some 96) cur q (s ++ 96 ∷ rest) ≡ scan none (cur ++ s) q rest
unfolding scan
scan-quoted [] cur rest q h = rw append-nil refl
scan-quoted (c ∷ s) cur rest q h =
    let (first, others) : ((c == 96) ≡ false) × (all not_backtick s ≡ true) = ground arith in
    rw first (
      scan-quoted s (cur ++ c ∷ []) rest q others
      ∙ ap (λ x. scan none x q rest) (append_assoc cur (c ∷ []) s))

scan-tick : (rest : Name) → scan none [] false (96 ∷ rest) ≡ scan (some 96) [] true rest
unfolding scan
scan-tick rest = refl

scan-space :
    (cur rest : Name) (q : Bool)
    → scan none cur q (32 ∷ rest) ≡ flush cur q (scan none [] false rest)
unfolding scan is_white
scan-space cur rest q = refl

flush-bare : (s : Name) (rest : List Tok) → is_bare s ≡ true → flush s false rest ≡ word s ∷ rest
flush-bare [] rest h = cc
flush-bare (c ∷ s) rest h = refl

flush-quoted : (s : Name) (rest : List Tok) → flush s true rest ≡ quote s ∷ rest
flush-quoted [] rest = refl
flush-quoted (c ∷ s) rest = refl

-- A token at the front, whatever ends it.
module _ (rest : Name) (others : List Tok) where
  abbrev Ends : Type 0
  Ends = (cur : Name) (q : Bool) → scan none cur q rest ≡ flush cur q others

  scan-print_tok :
      Ends → (t : Tok) → IsPrintable t → scan none [] false (print_tok t ++ rest) ≡ t ∷ others
  scan-print_tok ends _ (bare s h) =
      let plain : all is_plain s ≡ true = ground arith in
      scan-plains s [] rest false plain ∙ ends s false ∙ flush-bare s others h
  scan-print_tok ends _ separator = unfold scan in ap (λ x. comma ∷ x) (ends [] false)
  scan-print_tok ends _ (ticked s h) =
      ap (λ x. scan none [] false (96 ∷ x)) (append_assoc s (96 ∷ []) rest)
      ∙ scan-tick (s ++ 96 ∷ rest)
      ∙ scan-quoted s [] rest true h
      ∙ ends s true
      ∙ flush-quoted s others

scan-empty : (cur : Name) (q : Bool) → scan none cur q [] ≡ flush cur q []
unfolding scan
scan-empty cur q = refl

-- The tokenizer reads back the tokens whose text it is given.
pub tokenize-print_toks : (ts : List Tok) → All IsPrintable ts → tokenize (print_toks ts) ≡ ts
unfolding tokenize
tokenize-print_toks [] h = unfold scan in refl
tokenize-print_toks (t ∷ []) (p, _) =
    ap (λ x. scan none [] false x) (sym (append-nil (print_tok t)))
    ∙ scan-print_tok [] [] scan-empty t p
tokenize-print_toks (t ∷ u ∷ ts) (p, ps) =
    scan-print_tok (32 ∷ print_toks (u ∷ ts)) (u ∷ ts)
      (λ cur q.
        scan-space cur (print_toks (u ∷ ts)) q
        ∙ ap (λ x. flush cur q x) (tokenize-print_toks (u ∷ ts) ps))
      t p
