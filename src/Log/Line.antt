-- ===== src/Log/Line.antt =====
-- internal/log/line.go. Bytes are numbers below 256, strings their bytes; a time is a number that
-- the splitter only copies.
use randomshitgo_go.Prelude.{ℕ, List, Bool}

pub record Line : Type 0 where
  pub bytes : List ℕ
  pub rendered : List ℕ
  pub is_partial : Bool
  pub timestamp : ℕ
