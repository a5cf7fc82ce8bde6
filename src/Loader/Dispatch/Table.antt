-- ===== src/Loader/Dispatch/Table.antt =====
-- map_command picks a command by its name.
use gen_blob.Base.{ℕ, List, [], ◌∷◌, some, ◌≡◌, ◌≢◌, refl, subst, inl, inr, Bool-cases}
use gen_blob.Text.{IsString}
use gen_blob.Text.Laws.{string_equal_iff}
use gen_blob.Loader.Dispatch.{Command, CommandTbl, map_command, unknown}

-- The first entry with the name `xs` has this command, or no entry has the name.
pub data Finds : CommandTbl → List ℕ → Command → Type 0 where
  nowhere : {xs : List ℕ} → Finds [] xs unknown
  here :
      {s xs : List ℕ} {c : Command} {table : CommandTbl}
      → IsString s xs
      → Finds ((s, c) ∷ table) xs c
  there :
      {s ys xs : List ℕ} {c c' : Command} {table : CommandTbl}
      → IsString s ys
      → ys ≢ xs
      → Finds table xs c
      → Finds ((s, c') ∷ table) xs c

-- The names of a table are strings.
abbrev pub Names : CommandTbl → List (List ℕ) → Type 0
Names [] [] = Unit
Names [] (n ∷ names) = ⊥
Names (e ∷ table) [] = ⊥
Names ((s, c) ∷ table) (n ∷ names) = IsString s n × Names table names

-- For a table of strings and a string, map_command returns the command of the first entry with
-- that name, and `unknown` where no entry has it.
pub map_command-Finds :
    (table : CommandTbl) (names : List (List ℕ)) {cmd xs : List ℕ}
    → Names table names
    → IsString cmd xs
    → (c : Command) × (map_command table cmd ≡ some c) × Finds table xs c
unfolding map_command
map_command-Finds [] [] ok p = (unknown, refl, nowhere)
map_command-Finds [] (n ∷ names) ok p = elim ok [ ]
map_command-Finds ((s, c) ∷ table) [] ok p = elim ok [ ]
map_command-Finds ((s, c) ∷ table) (n ∷ names) {cmd} ok p =
    let (b, e, agree) = string_equal_iff ok.0 p in
    let (c', found, finds) = map_command-Finds table names ok.1 p in
    elim (Bool-cases b) [
      | inl same ↦
          let eq : n ≡ _ = agree.0 same in (c, rw (e, same) refl, here (subst (IsString s) eq ok.0))
      | inr differ ↦ (c', rw (e, differ) found, there ok.0 (λ q. let t = agree.1 q in cc) finds)
    ]
