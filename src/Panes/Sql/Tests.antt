-- ===== src/Panes/Sql/Tests.antt =====
-- internal/tui/panes/logpanel_sql.go: the theorems, and lines as in logpanel_sql_test.go.
use randomshitgo_go.Prelude.{
  ℕ, List, [], ◌∷◌, ◌++◌, Option, none, some, Bool, ◌≡◌, refl, length, take,
}
use randomshitgo_go.Panes.Text.{
  codes, equal_fold, trim_left, trim_right, trim_space, skip_space, cut_space,
}
use randomshitgo_go.Panes.Words.{is_word}
use randomshitgo_go.Panes.Sql.{format_sql, split_orm_prefix, peel}
use randomshitgo_go.Panes.Sql.Solid.{solid, all_solid, format_sql-solid}
use randomshitgo_go.Panes.Sql.Prefix.{split_orm_prefix-overlap}

-- The timing tag of the tests' line, the absence of other tags, and a text that begins with "SELECT".
abbrev find_orm : List ℕ → List (ℕ × ℕ)
find_orm line = (10, 17) ∷ []

abbrev find_bracket : List ℕ → Option ℕ
find_bracket s = none

abbrev starts_sql : List ℕ → Bool
starts_sql s = equal_fold (take 6 s) (codes "SELECT")

abbrev user_load : List ℕ
user_load = codes "User Load (0.8ms)  "

-- A blank at the end of the line puts the first letter of the SQL into the prefix too.
split_with_blank :
    split_orm_prefix find_orm find_bracket starts_sql (user_load ++ (codes "SELECT 1" ++ codes " "))
    ≡ some (codes "User Load (0.8ms)  S", codes "SELECT 1")
unfolding split_orm_prefix peel trim_space skip_space cut_space trim_left trim_right
split_with_blank = refl

split_orm_prefix-overlap_example :
    codes "User Load (0.8ms)  S"
    ≡ trim_right (user_load ++ take (length (codes " ")) (codes "SELECT 1" ++ codes " "))
split_orm_prefix-overlap_example =
    split_orm_prefix-overlap find_orm find_bracket starts_sql user_load (codes "SELECT 1")
      (codes " ") (codes "User Load (0.8ms)  S") split_with_blank

query :
    format_sql (codes "select a from t where b = 'x from y'")
    ≡ codes "select a" ∷ codes "from t" ∷ codes "where b = 'x from y'" ∷ []
unfolding format_sql trim_left trim_right is_word
query = refl

format_sql-solid_example :
    all_solid (format_sql (codes "select a  from b")) ≡ solid (codes "select a  from b")
format_sql-solid_example = format_sql-solid (codes "select a  from b")
