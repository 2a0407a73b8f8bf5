-- ===== src/Procmap/Case.antt =====
-- random/procmap.c: the states of the VMAs beside the one that is moved.
use mm_exper.Base.{ℕ, zero, suc, Bool, true, false, ◌||◌, ◌∷◌, [], if◌then◌else◌}
use mm_exper.Base.Text.{Bytes}

-- `enum vma_state`.
pub data VmaState : Type 0 where
  no_vma : VmaState
  empty_anon_vma : VmaState
  same_anon_vma : VmaState
  different_anon_vma : VmaState
  different_anon_vma2 : VmaState

unfoldable pub state_to_char : VmaState → ℕ
state_to_char no_vma = b'_'
state_to_char empty_anon_vma = b'.'
state_to_char same_anon_vma = b'P'
state_to_char different_anon_vma = b'x'
state_to_char different_anon_vma2 = b'y'

-- `struct mremap_merge_config`; `states` is `left` and `right`.
pub record Config : Type 0 where
  pub left : VmaState
  pub right : VmaState
  pub primary_populated : Bool
  pub relocate_anon : Bool

unfoldable pub print_state : Config → Bytes
unfolding state_to_char
print_state conf =
    state_to_char conf.left
    ∷ (if conf.primary_populated then b'P' else b'.')
    ∷ state_to_char conf.right
    ∷ []

-- `state (conf, ind)`, for `ind` 0 or 1.
abbrev pub state : Config → ℕ → VmaState
state conf zero = conf.left
state conf (suc ind) = conf.right

-- `==` on the states.
abbrev pub same_state : VmaState → VmaState → Bool
same_state no_vma no_vma = true
same_state empty_anon_vma empty_anon_vma = true
same_state same_anon_vma same_anon_vma = true
same_state different_anon_vma different_anon_vma = true
same_state different_anon_vma2 different_anon_vma2 = true
same_state _ _ = false

abbrev pub is_none : Config → ℕ → Bool
is_none conf ind = same_state (state conf ind) no_vma

abbrev pub is_empty : Config → ℕ → Bool
is_empty conf ind = same_state (state conf ind) empty_anon_vma

abbrev pub is_same : Config → ℕ → Bool
is_same conf ind = same_state (state conf ind) same_anon_vma

abbrev pub is_diff : Config → ℕ → Bool
is_diff conf ind =
    same_state (state conf ind) different_anon_vma
    || same_state (state conf ind) different_anon_vma2

abbrev pub is_primary_pop : Config → Bool
is_primary_pop conf = conf.primary_populated
