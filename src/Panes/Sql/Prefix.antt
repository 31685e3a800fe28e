-- ===== src/Panes/Sql/Prefix.antt =====
-- internal/tui/panes/logpanel_sql.go: where a line of an ORM is split.
use Prim.Native.Nat.add
use mathlib.Core.List.{reverse}
use randomshitgo_go.Prelude.{
  ℕ, ◌+◌, ◌-◌, List, [], ◌∷◌, ◌++◌, Option, some, Bool, true, ◌≡◌, ap, ◌∙◌, arith, if_given, length,
  take, drop, length-append,
}
use randomshitgo_go.Panes.Text.{trim_right, trim_space}
use randomshitgo_go.Panes.Sql.{peel, last_split, split_orm_prefix}

take_past : (xs ys : List ℕ) (n : ℕ) → take (length xs + n) (xs ++ ys) ≡ xs ++ take n ys
take_past [] ys n = ap (λ k. take k ys) (omega arith)
take_past (x ∷ xs) ys n = rw add.suc (ap (λ t. x ∷ t) (take_past xs ys n))

module _ (find_orm : List ℕ → List (ℕ × ℕ)) (find_bracket : List ℕ → Option ℕ)
    (starts_sql : List ℕ → Bool) where
  -- The cut is as far from the end as the SQL is long.
  last_split-cut :
      (line : List ℕ) (ms : List (ℕ × ℕ)) (prefix sql : List ℕ)
      → last_split find_orm find_bracket starts_sql line ms ≡ some (prefix, sql)
      → (prefix ≡ trim_right (take (length line - length sql) line)) × (starts_sql sql ≡ true)
  unfolding last_split
  last_split-cut line [] prefix sql h = absurd (cc)
  last_split-cut line (m ∷ ms) prefix sql h =
      let tail : List ℕ = trim_space (drop m.1 line) in
      let rest : List ℕ = peel find_orm find_bracket starts_sql (length tail) tail in
      if_given
        (λ (o : Option (List ℕ × List ℕ)).
          o ≡ some (prefix, sql)
          → (prefix ≡ trim_right (take (length line - length sql) line)) × (starts_sql sql ≡ true))
        (starts_sql rest)
        (λ e k. let same : rest ≡ sql = cc k in (rw (← same) (cc k), rw (← same) e))
        (last_split-cut line ms prefix sql) h

  -- A line that is split, and that goes on behind its SQL with `pad`, as with blanks that trimming takes off: the
  -- prefix is what stands before the SQL and as many bytes from there on as `pad` has, without blanks at its end. With
  -- no `pad` it is what stands before the SQL.
  pub split_orm_prefix-overlap :
      (head sql pad prefix : List ℕ)
      → split_orm_prefix find_orm find_bracket starts_sql (head ++ (sql ++ pad))
        ≡ some (prefix, sql)
      → prefix ≡ trim_right (head ++ take (length pad) (sql ++ pad))
  unfolding split_orm_prefix
  split_orm_prefix-overlap head sql pad prefix h =
      let line : List ℕ = head ++ (sql ++ pad) in
      let cut : length line - length sql ≡ length head + length pad =
        omega (arith, length-append head (sql ++ pad), length-append sql pad) in
      (last_split-cut line (reverse (find_orm line)) prefix sql h).0
      ∙ ap (λ (n : ℕ). trim_right (take n line)) cut
      ∙ ap trim_right (take_past head (sql ++ pad) (length pad))
