-- ===== src/Command/Match.antt =====
-- parse_command runs the command that the first word names, by any prefix that only it has.
use gen_blob.Base.{
  ℕ, suc, ◌+◌, ◌≤◌, Bool, true, false, ◌&&◌, List, [], ◌∷◌, some, ◌≡◌, ◌↔◌, refl, sym, ap, subst,
  ◌∙◌, arith, ◌==◌, if◌then◌else◌, length, drop, take, Bool-cases, inl, inr, ℤ, pos, neg, equals_ℕ,
}
use gen_blob.Text.{IsString, strncmp}
use gen_blob.Text.Laws.{strlen-length, strncmp-zero}
use gen_blob.Command.{
  CommandEntry, Outcome, returns, calls, command_magic, ecommand, eambigcmd, max_args,
  count_matches, get_num_command_matches, call_match, dispatch, parse_command,
}
use gen_blob.Command.Words.{words}
use gen_blob.Command.Args.{Args, parse_args-Args}

abbrev pub is_prefix : List ℕ → List ℕ → Bool
is_prefix [] name = true
is_prefix (a ∷ w) [] = false
is_prefix (a ∷ w) (b ∷ name) = a == b && is_prefix w name

-- The entries are marked, and hold these names.
abbrev pub Named : List CommandEntry → List (List ℕ) → Type 0
Named [] [] = Unit
Named (e ∷ commands) (n ∷ names) =
    ((e.magic ≡ command_magic) × IsString e.name n) × Named commands names
Named _ _ = ⊥

-- The entries whose name begins with the word.
abbrev pub matching : List ℕ → List CommandEntry → List (List ℕ) → List CommandEntry
matching w (e ∷ commands) (n ∷ names) =
    if is_prefix w n then e ∷ matching w commands names else matching w commands names
matching w _ _ = []

-- One match is called; none and several are errors.
abbrev pub answer : List CommandEntry → List ℕ → List ℕ → Outcome
answer [] line places = returns (neg ecommand)
answer (e ∷ []) line places = calls e line places
answer (e ∷ e' ∷ es) line places = returns (neg eambigcmd)

prefix-take : (w n : List ℕ) → (is_prefix w n ≡ true) ↔ (take (length w) n ≡ w)
prefix-take [] n = ((λ h. refl), λ h. refl)
prefix-take (a ∷ w) [] = (ground arith, ground arith)
prefix-take (a ∷ w) (b ∷ n) =
    let ih = prefix-take w n in ((λ h. ground (arith, h, ih)), λ h. ground (arith, h, ih))

take-all : (w : List ℕ) → take (length w) w ≡ w
take-all [] = refl
take-all (a ∷ w) = ap (◌∷◌ a) (take-all w)

equals_ℕ-iff : (d : ℤ) (b : Bool) → (d ≡ pos 0) ↔ (b ≡ true) → equals_ℕ d 0 ≡ b
equals_ℕ-iff d b h = ground (arith, h)

-- The comparison of parse_command.
compared :
    {name cmdline n w : List ℕ}
    → IsString name n
    → IsString cmdline w
    → (d : ℤ) × (strncmp name cmdline (length w) ≡ some d) × (equals_ℕ d 0 ≡ is_prefix w n)
compared {n = n} {w = w} p q =
    let (d, runs, agree) = strncmp-zero (length w) p q in
    let whole = take-all w in
    let pre = prefix-take w n in
    (
      d,
      runs,
      equals_ℕ-iff d (is_prefix w n)
          ((λ e. pre.1 (agree.0 e ∙ whole)), λ e. agree.1 (pre.0 e ∙ sym whole)),
    )

count_matches-length :
    (commands : List CommandEntry) (names : List (List ℕ)) (k : ℕ) {cmdline w : List ℕ}
    → Named commands names
    → IsString cmdline w
    → count_matches commands cmdline (length w) k
      ≡ some (pos (k + length (matching w commands names)))
unfolding count_matches
count_matches-length [] [] k h q = ground arith
count_matches-length [] (n ∷ names) k h q = absurd h
count_matches-length (e ∷ commands) [] k h q = absurd h
count_matches-length (e ∷ commands) (n ∷ names) k {w = w} h q =
    let (d, runs, same) = compared h.0.1 q in
    let marked : e.magic == command_magic ≡ true = ground (arith, h.0.0) in
    elim (Bool-cases (is_prefix w n)) [
      | inl b ↦
          rw (marked, runs, same, b, count_matches-length commands names (suc k) h.1 q)
            (ap (λ x. some (pos x)) (omega arith))
      | inr b ↦ rw (marked, runs, same, b) (count_matches-length commands names k h.1 q)
    ]

call_match_first :
    (commands : List CommandEntry) (names : List (List ℕ)) (e' : CommandEntry)
    (line places : List ℕ) {arg0 w : List ℕ}
    → Named commands names
    → IsString arg0 w
    → matching w commands names ≡ e' ∷ []
    → call_match commands arg0 (length w) line places ≡ some (calls e' line places)
unfolding call_match
call_match_first [] names e' line places h q m = ground arith
call_match_first (e ∷ commands) [] e' line places h q m = absurd h
call_match_first (e ∷ commands) (n ∷ names) e' line places {w = w} h q m =
    let (d, runs, same) = compared h.0.1 q in
    let marked : e.magic == command_magic ≡ true = ground (arith, h.0.0) in
    elim (Bool-cases (is_prefix w n)) [
      | inl b ↦ rw (marked, runs, same, b) (ground (arith, m, b))
      | inr b ↦
          rw (marked, runs, same, b)
            (call_match_first commands names e' line places h.1 q (ground (arith, m, b)))
    ]

get_num_command_matches-length :
    (commands : List CommandEntry) (names : List (List ℕ)) {cmdline w : List ℕ}
    → Named commands names
    → IsString cmdline w
    → get_num_command_matches commands cmdline ≡ some (pos (length (matching w commands names)))
unfolding get_num_command_matches
get_num_command_matches-length commands names h q =
    rw (strlen-length q, count_matches-length commands names 0 h q)
      (ap (λ x. some (pos x)) (omega arith))

dispatch-answer :
    (commands : List CommandEntry) (names : List (List ℕ)) (line : List ℕ) (p : ℕ)
    (places w : List ℕ)
    → Named commands names
    → IsString (drop p line) w
    → dispatch commands line (p ∷ places)
      ≡ some (answer (matching w commands names) line (p ∷ places))
unfolding dispatch
dispatch-answer commands names line p places w h q = by_number (matching w commands names) refl
  where
    by_number :
        (es : List CommandEntry)
        → matching w commands names ≡ es
        → dispatch commands line (p ∷ places) ≡ some (answer es line (p ∷ places))
    by_number [] e = rw (get_num_command_matches-length commands names h q, e) refl
    by_number (x ∷ []) e =
        rw (get_num_command_matches-length commands names h q, e, strlen-length q)
          (call_match_first commands names x line (p ∷ places) h q e)
    by_number (x ∷ y ∷ es) e =
        let some_match : suc (suc (length es)) == 0 ≡ false = ground arith in
        let more : suc (suc (length es)) == 1 ≡ false = ground arith in
        rw (get_num_command_matches-length commands names h q, e, some_match, more) refl

first_word :
    (commands : List CommandEntry) (names : List (List ℕ)) (line places w : List ℕ)
    (ws : List (List ℕ))
    → Named commands names
    → Args line places (w ∷ ws)
    → Args line places (w ∷ ws)
      × (dispatch commands line places ≡ some (answer (matching w commands names) line places))
first_word commands names line [] w ws h args = absurd args
first_word commands names line (p ∷ places) w ws h args =
    (args, dispatch-answer commands names line p places w h args.0)

-- For a table of entries that are marked and hold their names, and a line of at most 32 words whose
-- first one is `w`: the only command whose name begins with `w` is called, with the places of all the
-- words in argv; where there is none or more than one, the answer is -ECOMMAND or -EAMBIGCMD.
pub parse_command-answer :
    (commands : List CommandEntry) (names : List (List ℕ)) (w : List ℕ) (ws : List (List ℕ))
    {cmdline s : List ℕ}
    → Named commands names
    → IsString cmdline s
    → words s ≡ w ∷ ws
    → length (w ∷ ws) ≤ max_args
    → (line : List ℕ) × (places : List ℕ) × (parse_command commands cmdline
        ≡ some (answer (matching w commands names) line places))
      × Args line places (w ∷ ws)
unfolding parse_command
parse_command-answer commands names w ws {s = s} h p e room =
    let (line, places, runs, args) =
      parse_args-Args p (subst (λ x. length x ≤ max_args) (sym e) room) in
    let (arg, dispatched) =
      first_word commands names line places w ws h (subst (Args line places) e args) in
    (line, places, rw runs dispatched, arg)
