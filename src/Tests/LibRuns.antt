-- ===== src/Tests/LibRuns.antt =====
-- Runs of the string functions, the numbers and the history.
use gen_blob.Base.{ℕ, true, List, [], ◌∷◌, ◌++◌, some, ◌≡◌, refl, arith, replicate, take, pos}
use gen_blob.Text.{IsString}
use gen_blob.Number.{strtou32}
use gen_blob.Number.Laws.{Reads, numeral, strtou32-Reads}
use gen_blob.History.{History, cmdhist_push, cmdhist_reset, cmdhist_next, cmdhist_prev}
use gen_blob.History.Recall.{WellFormed}
use gen_blob.History.Order.{cmdhist_next-cmdhist_push}
use gen_blob.Loader.Receive.Message.{Lacks-IsString}

abbrev ls : List ℕ
ls = b'l' ∷ b's' ∷ []

abbrev lp : List ℕ
lp = b'l' ∷ b'p' ∷ []

abbrev ls_array : List ℕ
ls_array = ls ++ 0 ∷ 5 ∷ []

abbrev lp_array : List ℕ
lp_array = lp ++ 0 ∷ []

ls-IsString : IsString ls_array ls
ls-IsString = Lacks-IsString ls (5 ∷ []) (ground arith)

lp-IsString : IsString lp_array lp
lp-IsString = Lacks-IsString lp [] (ground arith)

abbrev hex_text : List ℕ
hex_text = b'0' ∷ b'x' ∷ b'1' ∷ b'f' ∷ []

strtou32-Reads_example : Reads (numeral hex_text) (strtou32 (hex_text ++ 0 ∷ []))
strtou32-Reads_example = strtou32-Reads (Lacks-IsString hex_text [] (ground arith))

-- Full, with the next line to go to the last slot.
abbrev full : History
full = record { entries = 32; read = 0; write = 31; slots = replicate 32 (replicate 128 0) }

full-WellFormed : WellFormed full
full-WellFormed = record {
  size = refl;
  lines = ground arith;
  write_in = omega arith;
  read_in = omega arith;
  few = omega arith;
  filling = λ l. absurd (omega arith);
}

cmdhist_next-cmdhist_push_example :
    (h1 : History) × (h2 : History) × (line : List ℕ) × (line' : List ℕ) × (cmdhist_push
        (some ls_array)
        full
      ≡ some (pos 0, h1))
    × (cmdhist_push (some lp_array) h1 ≡ some (pos 0, h2))
    × WellFormed h2
    × (cmdhist_next true (cmdhist_reset h2).1
        ≡ some ((pos 0, some line'), record h2 { read = h1.write }))
    × (cmdhist_next true (record h2 { read = h1.write })
        ≡ some ((pos 0, some line), record h2 { read = full.write }))
    × (cmdhist_prev true (record h2 { read = full.write })
        ≡ some ((pos 0, some line'), record h2 { read = h1.write }))
    × IsString line (take 127 ls)
    × IsString line' (take 127 lp)
cmdhist_next-cmdhist_push_example =
    cmdhist_next-cmdhist_push full full-WellFormed ls-IsString lp-IsString
      (omega arith, omega arith) (omega arith, omega arith)
