-- ===== src/Base/Proc.antt =====
-- The files under /proc that the programs read. The kernel fills them, so they are a parameter.
use mm_exper.Base.{ℕ, Bool, Option, List}
use mm_exper.Base.Text.{Bytes}

-- An open file of 64-bit words: whether `fseek` to a byte offset succeeds, and the words that `fread` of a
-- count from there returns.
pub record WordFile : Type 0 where
  pub seek : ℕ → Bool
  pub read : ℕ → ℕ → List ℕ

pub record Proc : Type 0 where
  -- `getpagesize ()`.
  pub page_size : ℕ
  -- `fopen` of a path as words.
  pub words : Bytes → Option WordFile
  -- `fopen` of a path as text, with the lines that `getline` returns, their newlines included.
  pub lines : Bytes → Option (List Bytes)
