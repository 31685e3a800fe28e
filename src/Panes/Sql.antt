-- ===== src/Panes/Sql.antt =====
-- internal/tui/panes/logpanel_sql.go: the formatting of SQL in log lines. Texts are bytes. The regular expressions
-- of the file are arguments, for the engine is not code of the repository: `find_orm` gives the places of the timing
-- tags, `find_bracket` the end of a bracketed tag that a text begins with, and `starts_sql` says whether a text begins
-- with a verb of SQL; `strip` is log.StripANSI, which is one too.
pub mod Solid
pub mod Prefix
mod Tests
use randomshitgo_go.Prelude.{
  ℕ, zero, suc, ◌+◌, ◌-◌, List, [], ◌∷◌, ◌++◌, Option, none, some, Bool, true, false, not, ◌&&◌,
  ◌||◌, if◌then◌else◌, length, ltb, leb, ◌==◌, get_or, take, drop, map, replicate,
}
use mathlib.Core.List.{reverse}
use randomshitgo_go.Panes.Words.{is_word}
use randomshitgo_go.Panes.Text.{codes, trim_left, trim_right, trim_space, equal_fold}

abbrev pub sql_top_keywords : List (List ℕ)
sql_top_keywords =
    codes "DELETE FROM"
    ∷ codes "INSERT INTO"
    ∷ codes "GROUP BY"
    ∷ codes "ORDER BY"
    ∷ codes "SELECT"
    ∷ codes "FROM"
    ∷ codes "WHERE"
    ∷ codes "HAVING"
    ∷ codes "LIMIT"
    ∷ codes "OFFSET"
    ∷ codes "UNION ALL"
    ∷ codes "UNION"
    ∷ codes "VALUES"
    ∷ codes "UPDATE"
    ∷ codes "SET"
    ∷ codes "RETURNING"
    ∷ codes "ON CONFLICT"
    ∷ []

abbrev pub sql_sub_keywords : List (List ℕ)
sql_sub_keywords =
    codes "LEFT OUTER JOIN"
    ∷ codes "RIGHT OUTER JOIN"
    ∷ codes "FULL OUTER JOIN"
    ∷ codes "INNER JOIN"
    ∷ codes "LEFT JOIN"
    ∷ codes "RIGHT JOIN"
    ∷ codes "FULL JOIN"
    ∷ codes "CROSS JOIN"
    ∷ codes "JOIN"
    ∷ codes "AND"
    ∷ codes "OR"
    ∷ codes "ON"
    ∷ []

-- Of a text that a keyword may begin, the length of the first keyword that does, or 0.
pub match_any : List ℕ → List (List ℕ) → ℕ
match_any s [] = 0
match_any s (kw ∷ kws) =
    let n = length kw in
    let later = match_any s kws in
    if ltb (length s) n
      || not (equal_fold (take n s) kw)
      || (ltb n (length s) && is_word (get_or s n 0))
    then later
    else n

-- The length of the keyword, and whether it is a sub-keyword.
pub match_keyword : List ℕ → ℕ × Bool
unfolding match_any
match_keyword s =
    let top = match_any s sql_top_keywords in
    let sub = match_any s sql_sub_keywords in
    if ltb 0 top then (top, false) else if ltb 0 sub then (sub, true) else (0, false)

-- The variables of the formatter; a quote of 0 is none.
pub record Format : Type 0 where
  pub rows : List (List ℕ)
  pub cur : List ℕ
  pub quote : ℕ
  pub paren_depth : ℕ
  pub last_indent : ℕ

pub emit : Format → Format
emit f =
    let trimmed = trim_left (trim_right f.cur) in
    if length trimmed == 0
    then f
    else record f { rows = f.rows ++ (replicate f.last_indent 0x20 ++ trimmed) ∷ []; cur = [] }

abbrev pub write : List ℕ → Format → Format
write bs f = record f { cur = f.cur ++ bs }

abbrev pub is_quote : ℕ → Bool
is_quote c = c == b'\'' || c == b'"' || c == b'`'

-- `isKeywordBoundary`, from the byte before, if there is one.
abbrev pub is_keyword_boundary : Option ℕ → Bool
is_keyword_boundary none = true
is_keyword_boundary (some prev) = not (is_word prev)

-- A round of the loop on the text from the index on, that is not empty: how many bytes it reads, and the variables.
pub round : Option ℕ → List ℕ → Format → ℕ × Format
unfolding match_keyword emit
round prev s f =
    let c = get_or s 0 0 in
    let (n, is_sub) = match_keyword s in
    if not (f.quote == 0)
    then (if c == f.quote
        then (if ltb 1 (length s) && get_or s 1 0 == f.quote
            then (2, write (c ∷ f.quote ∷ []) f)
            else (1, record (write (c ∷ []) f) { quote = 0 }))
        else (1, write (c ∷ []) f))
    else if is_quote c
    then (1, record (write (c ∷ []) f) { quote = c })
    else if c == b'('
    then (1, record (write (c ∷ []) f) { paren_depth = f.paren_depth + 1 })
    else if c == b')'
    then (1, record (write (c ∷ []) f) { paren_depth = f.paren_depth - 1 })
    else if f.paren_depth == 0 && is_keyword_boundary prev && ltb 0 n
    then (n, write (take n s) (record (emit f) { last_indent = if is_sub then 2 else 0 }))
    else (1, write (c ∷ []) f)

-- The loop; as many rounds as there are bytes are enough, for each reads one at least.
pub format_loop : ℕ → Option ℕ → List ℕ → Format → Format
unfolding round
format_loop zero prev s f = f
format_loop (suc fuel) prev [] f = f
format_loop (suc fuel) prev (b ∷ bs) f =
    let n = (round prev (b ∷ bs) f).0 in
    format_loop fuel (some (get_or (b ∷ bs) (n - 1) 0)) (drop n (b ∷ bs)) (round prev (b ∷ bs) f).1

abbrev pub nothing_read : Format
nothing_read = record { rows = []; cur = []; quote = 0; paren_depth = 0; last_indent = 0 }

abbrev pub or_trimmed : List ℕ → List (List ℕ) → List (List ℕ)
or_trimmed s [] = trim_space s ∷ []
or_trimmed s (r ∷ rs) = r ∷ rs

pub format_sql : List ℕ → List (List ℕ)
unfolding format_loop emit
format_sql s = or_trimmed s (emit (format_loop (length s) none s nothing_read)).rows

abbrev pub tint_blue : List (List ℕ) → List (List ℕ)
tint_blue rows = map (λ r. 0x1b ∷ codes "[38;5;39m" ++ r ++ 0x1b ∷ codes "[39m") rows

module _ (find_orm : List ℕ → List (ℕ × ℕ)) (find_bracket : List ℕ → Option ℕ)
    (starts_sql : List ℕ → Bool) where
  -- The inner loop, which takes bracketed tags off. A tag is not empty, so as many rounds as there are bytes are enough.
  unfoldable pub peel : ℕ → List ℕ → List ℕ
  peel zero rest = rest
  peel (suc fuel) rest = elim (find_bracket rest) [
    | none ↦ rest
    | some end ↦ peel fuel (trim_space (drop end rest))
  ]

  -- The outer loop, over the matches from the last one to the first.
  pub last_split : List ℕ → List (ℕ × ℕ) → Option (List ℕ × List ℕ)
  unfolding peel
  last_split line [] = none
  last_split line (m ∷ ms) =
      let tail = trim_space (drop m.1 line) in
      let rest = peel (length tail) tail in
      let before = last_split line ms in
      if starts_sql rest
      then some (trim_right (take (length line - length rest) line), rest)
      else before

  pub split_orm_prefix : List ℕ → Option (List ℕ × List ℕ)
  unfolding last_split
  split_orm_prefix line = last_split line (reverse (find_orm line))

  module _ (strip : List ℕ → List ℕ) where
    pub prettify_sql : List ℕ → Option (List (List ℕ))
    unfolding split_orm_prefix format_sql
    prettify_sql line =
        let stripped = strip line in
        elim (split_orm_prefix stripped) [
          | some (prefix, sql) ↦ some (tint_blue (prefix ∷ format_sql sql))
          | none ↦ if starts_sql stripped then some (tint_blue (format_sql stripped)) else none
        ]

    pub flatten_sql_lines : List (List ℕ) → List (List ℕ)
    unfolding prettify_sql
    flatten_sql_lines [] = []
    flatten_sql_lines (line ∷ lines) =
        elim (prettify_sql line) [ some parts ↦ parts | none ↦ line ∷ [] ]
        ++ flatten_sql_lines lines
