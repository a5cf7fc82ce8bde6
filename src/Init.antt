-- ===== src/Init.antt =====
-- src/lib/init.c: the functions that the modules of the loader register, called by their levels.
pub mod Order
use gen_blob.Base.{ℕ, zero, suc, ◌+◌, not, List, [], ◌∷◌, ◌++◌, ◌==◌, if◌then◌else◌}

-- `initlist_t`; the levels are not negative.
pub record InitItem : Type 0 where
  pub magic : ℕ
  pub callback : ℕ
  pub level : ℕ

abbrev pub init_magic : ℕ
init_magic = 1231972724

abbrev pub exit_magic : ℕ
exit_magic = 1165519220

-- INIT_LEVEL_MIN is 0, and there are INIT_LEVEL_MAX + 1 levels.
abbrev pub levels : ℕ
levels = 100

-- The items whose functions are called, in order: up to one without the mark.
unfoldable pub call_funcs : List InitItem → ℕ → ℕ → List InitItem
call_funcs [] magic level = []
call_funcs (item ∷ items) magic level =
    if not (item.magic == magic)
    then []
    else if item.level == level
    then item ∷ call_funcs items magic level
    else call_funcs items magic level

-- `for(i = …; i <= INIT_LEVEL_MAX; i++)`, `n` levels from `i` on.
unfoldable pub levels_up : ℕ → ℕ → List InitItem → List InitItem
unfolding call_funcs
levels_up zero i items = []
levels_up (suc n) i items = call_funcs items init_magic i ++ levels_up n (suc i) items

unfoldable pub init_subsystems : List InitItem → List InitItem
unfolding levels_up
init_subsystems items = levels_up levels 0 items

-- `for(i = INIT_LEVEL_MAX; i >= INIT_LEVEL_MIN; i--)`, the levels below `n`.
unfoldable pub levels_down : ℕ → List InitItem → List InitItem
unfolding call_funcs
levels_down zero items = []
levels_down (suc n) items = call_funcs items exit_magic n ++ levels_down n items

unfoldable pub exit_subsystems : List InitItem → List InitItem
unfolding levels_down
exit_subsystems items = levels_down levels items
