-- ===== src/Uc/GrantSql/Witnesses.antt =====
-- The theorems about privilege statements at concrete statements
-- (crates/lakeforge-api/src/uc/grant_sql.rs).
use lakeforge.Prelude.{◌≡◌, refl, some, List, [], ◌∷◌}
use lakeforge.Uc.Names.{Name, codes, is_white}
use lakeforge.Uc.GrantSql.Tokens.{Tok, tokenize, scan}
use lakeforge.Uc.GrantSql.Parse.{unparsed}
use lakeforge.Uc.GrantSql.Statements.{statement}
use lakeforge.Uc.GrantSql.Printing.{word}
use lakeforge.Uc.GrantSql.Ownership.{alter_refused}

abbrev select : List Name
select = codes "SELECT" ∷ []

abbrev all_of : List Name
all_of = codes "ALL" ∷ codes "PRIVILEGES" ∷ []

-- ALTER TABLE orders ADD COLUMN owner STRING
abbrev add_column : List Tok
add_column =
    word (codes "ALTER")
    ∷ word (codes "TABLE")
    ∷ word (codes "orders")
    ∷ word (codes "ADD")
    ∷ word (codes "COLUMN")
    ∷ word (codes "owner")
    ∷ word (codes "STRING")
    ∷ []

test_tokenize : tokenize (codes "ALTER TABLE orders ADD COLUMN owner STRING") ≡ add_column
unfolding tokenize scan is_white
test_tokenize = refl

alter_refused_example :
    (m : Name) × (statement (codes "main") (codes "default") add_column ≡ some (unparsed m))
alter_refused_example = alter_refused (codes "main") (codes "default") add_column refl refl refl
