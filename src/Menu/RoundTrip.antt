-- ===== src/Menu/RoundTrip.antt =====
-- A configuration file that is written out is read back by parse_conf_file of src/blob/menu.c.
use gen_blob.Base.{
  ℕ, zero, suc, ◌+◌, ◌-◌, ◌*◌, ◌^◌, ◌≤◌, ◌<◌, ◌≡◌, ◌∙◌, ap, List, [], ◌∷◌, ◌++◌, none, some, refl,
  arith, leb, pos, length, length-append, append_assoc, append-nil, Bool-cases, inl, inr, store,
}
use gen_blob.Menu.{grub_malloc, line_loop, finish_line, get_line}
use gen_blob.Menu.Entries.{CmdType, title, kernel, param, machid, Entry, conf_loop, parse_conf_file}
use gen_blob.Menu.Entries.Word.{
  IsCommand, text_of, text_of-IsWord, length-get_cmd_word, AllDigits, decimal_value,
}
use gen_blob.Menu.Commands.{Text, IsText, line, pointer, conf, word_array}
use gen_blob.Menu.Turns.{conf_turn, title_runs, kernel_runs, param_runs, machid_runs}

-- An entry as the file describes it; the machine id is decimal digits.
pub record Spec : Type 0 where
  pub title : Text
  pub kernel : Text
  pub param : Text
  pub machid : Text

pub record IsSpec (e : Spec) : Type 0 where
  pub title : IsText e.title
  pub kernel : IsText e.kernel
  pub param : IsText e.param
  pub machid : IsText e.machid
  pub digits : AllDigits (e.machid.head ∷ e.machid.tail)
  pub int : decimal_value 0 (e.machid.head ∷ e.machid.tail) < 2 ^ 31

abbrev pub AreSpecs : List Spec → Type 0
AreSpecs [] = Unit
AreSpecs (e ∷ es) = IsSpec e × AreSpecs es

-- The four lines of an entry, and of all, before what follows them.
unfoldable pub write_entry : Spec → List ℕ → List ℕ
write_entry e rest =
    line title e.title (line kernel e.kernel (line param e.param (line machid e.machid rest)))

unfoldable pub write_conf : List Spec → List ℕ → List ℕ
write_conf [] rest = rest
write_conf (e ∷ es) rest = write_entry e (write_conf es rest)

-- The entries that the program should have, numbered from `i` on.
abbrev pub entry_of : ℕ → Spec → Entry
entry_of i e = record {
  id = i;
  title = some (pointer title e.title);
  kernel = some (pointer kernel e.kernel);
  param = some (pointer param e.param);
  machid = decimal_value 0 (e.machid.head ∷ e.machid.tail);
}

abbrev pub entries_of : ℕ → List Spec → List Entry
entries_of i [] = []
entries_of i (e ∷ es) = entry_of i e ∷ entries_of (i + 1) es

abbrev line_length : CmdType → Text → ℕ
line_length type t = length (text_of type) + length t.tail + 3

length-line :
    (type : CmdType) (t : Text) (rest : List ℕ)
    → length (line type t rest) ≡ line_length type t + length rest
length-line type t rest = omega (
  arith,
  length-append (text_of type ++ b' ' ∷ t.head ∷ t.tail) (b'\n' ∷ rest),
  length-append (text_of type) (b' ' ∷ t.head ∷ t.tail),
)

abbrev entry_length : Spec → ℕ
entry_length e =
    line_length title e.title
    + (line_length kernel e.kernel + (line_length param e.param + line_length machid e.machid))

length-write_entry :
    (e : Spec) (rest : List ℕ) → length (write_entry e rest) ≡ entry_length e + length rest
unfolding write_entry
length-write_entry e rest =
    let after_param = line machid e.machid rest in
    let after_kernel = line param e.param after_param in
    omega (
      arith,
      length-line title e.title (line kernel e.kernel after_kernel),
      length-line kernel e.kernel after_kernel,
      length-line param e.param after_param,
      length-line machid e.machid rest,
    )

length-word_array :
    (type : CmdType) (cmd : List ℕ)
    → IsCommand type
    → length cmd ≡ 10
    → length (word_array type cmd) ≡ 10
length-word_array type cmd h long =
    let (word, short) = text_of-IsWord type h in
    length-get_cmd_word (text_of type) cmd (omega arith) long

-- The four lines of an entry.
entry_turns :
    (fuel : ℕ) (e : Spec) (rest : List ℕ) (s size heap : ℕ) (cmd : List ℕ) (es : List Entry)
    (num : ℕ)
    → IsSpec e
    → size ≡ entry_length e + s
    → heap + 280 ≤ 10240
    → length cmd ≡ 10
    → (cmd' : List ℕ) × (length cmd' ≡ 10)
      × (conf_loop (suc (suc (suc (suc fuel)))) (conf (write_entry e rest) size heap cmd es num 0)
          ≡ conf_loop fuel (conf rest s (heap + 280) cmd' (es ++ entry_of num e ∷ []) (num + 1) 0))
unfolding write_entry
entry_turns fuel e rest s size heap cmd es num v total room long =
    let r3 = line machid e.machid rest in
    let r2 = line param e.param r3 in
    let r1 = line kernel e.kernel r2 in
    let s3 : ℕ = line_length machid e.machid + s in
    let s2 : ℕ = line_length param e.param + s3 in
    let s1 : ℕ = line_length kernel e.kernel + s2 in
    let c1 = word_array title cmd in
    let c2 = word_array kernel c1 in
    let c3 = word_array param c2 in
    let long1 = length-word_array title cmd tt long in
    let long2 = length-word_array kernel c1 tt long1 in
    let long3 = length-word_array param c2 tt long2 in
    let e0 : Entry = record {
      id = num;
      title = some (pointer title e.title);
      kernel = none;
      param = none;
      machid = 0;
    } in
    let e1 = record e0 { kernel = some (pointer kernel e.kernel) } in
    let e2 = record e1 { param = some (pointer param e.param) } in
    let heap1 : ℕ = heap + 64 + 24 in
    let heap2 : ℕ = heap1 + 64 in
    let heap3 : ℕ = heap2 + 64 in
    let all : heap3 + 64 ≡ heap + 280 = omega arith in
    let turn1 =
      conf_turn (suc (suc (suc fuel))) title e.title r1 s1 size heap cmd es num
        (conf r1 s1 heap1 c1 (es ++ e0 ∷ []) (num + 1) 0) tt v.title (omega arith) (omega arith)
        long (title_runs e.title r1 s1 (heap + 64) cmd es num v.title (omega arith)) in
    let turn2 =
      conf_turn (suc (suc fuel)) kernel e.kernel r2 s2 s1 heap1 c1 (es ++ e0 ∷ []) (num + 1)
        (conf r2 s2 heap2 c2 (es ++ e1 ∷ []) (num + 1) 0) tt v.kernel (omega arith) (omega arith)
        long1 (kernel_runs e.kernel r2 s2 heap2 c1 es (num + 1) e0 v.kernel) in
    let turn3 =
      conf_turn (suc fuel) param e.param r3 s3 s2 heap2 c2 (es ++ e1 ∷ []) (num + 1)
        (conf r3 s3 heap3 c3 (es ++ e2 ∷ []) (num + 1) 0) tt v.param (omega arith) (omega arith)
        long2 (param_runs e.param r3 s3 heap3 c2 es (num + 1) e1 v.param) in
    let turn4 =
      conf_turn fuel machid e.machid rest s s3 heap3 c3 (es ++ e2 ∷ []) (num + 1)
        (conf rest s (heap3 + 64) (word_array machid c3) (es ++ entry_of num e ∷ []) (num + 1) 0) tt
        v.machid (omega arith) (omega arith) long3
        (machid_runs e.machid rest s (heap3 + 64) c3 es (num + 1) e2 v.machid v.digits v.int) in
    (
      word_array machid c3,
      length-word_array machid c3 tt long3,
      turn1
          ∙ turn2
          ∙ turn3
          ∙ turn4
          ∙ ap
              (λ h.
                conf_loop fuel
                  (conf rest s h (word_array machid c3) (es ++ entry_of num e ∷ []) (num + 1) 0))
              all,
    )

-- At the end of the file the loop ends, with or without room for another line.
conf_loop-end :
    (fuel heap num : ℕ) (rest cmd : List ℕ) (es : List Entry)
    → (heap' : ℕ) × (conf_loop (suc fuel) (conf rest 0 heap cmd es num 0)
        ≡ some (pos 0, conf rest 0 heap' cmd es num 0))
unfolding conf_loop get_line grub_malloc line_loop finish_line store
conf_loop-end fuel heap num [] cmd es = elim (Bool-cases (leb (heap + 64) 10240)) [
  | inl e ↦ (heap + 64, rw e refl)
  | inr e ↦ (heap + 64, rw e refl)
]
conf_loop-end fuel heap num (c ∷ rest) cmd es = elim (Bool-cases (leb (heap + 64) 10240)) [
  | inl e ↦ (heap + 64, rw e refl)
  | inr e ↦ (heap + 64, rw e refl)
]

abbrev pub conf_length : List Spec → ℕ
conf_length [] = 0
conf_length (e ∷ es) = entry_length e + conf_length es

conf_turns :
    (specs : List Spec) (fuel : ℕ) (junk : List ℕ) (heap : ℕ) (cmd : List ℕ) (es : List Entry)
    (num : ℕ)
    → AreSpecs specs
    → 4 * length specs < fuel
    → heap + 280 * length specs ≤ 10240
    → length cmd ≡ 10
    → (heap' : ℕ) × (cmd' : List ℕ) × (conf_loop fuel
          (conf (write_conf specs junk) (conf_length specs) heap cmd es num 0)
        ≡ some (pos 0, conf junk 0 heap' cmd' (es ++ entries_of num specs) (num + length specs) 0))
unfolding write_conf
conf_turns specs zero junk heap cmd es num v enough room long = absurd (omega arith)
conf_turns [] (suc fuel) junk heap cmd es num v enough room long =
    let (heap', runs) = conf_loop-end fuel heap num junk cmd es in
    let same : es ++ [] ≡ es = append-nil es in
    let count : num + 0 ≡ num = omega arith in (heap', cmd, rw (same, count) runs)
conf_turns (e ∷ specs) (suc zero) junk heap cmd es num v enough room long = absurd (omega arith)
conf_turns (e ∷ specs) (suc (suc zero)) junk heap cmd es num v enough room long =
    absurd (omega arith)
conf_turns (e ∷ specs) (suc (suc (suc zero))) junk heap cmd es num v enough room long =
    absurd (omega arith)
conf_turns (e ∷ specs) (suc (suc (suc (suc fuel)))) junk heap cmd es num v enough room long =
    let (cmd1, long1, turns) =
      entry_turns fuel e (write_conf specs junk) (conf_length specs)
        (entry_length e + conf_length specs) heap cmd es num v.0 refl (omega arith) long in
    let (heap', cmd', rest) =
      conf_turns specs fuel junk (heap + 280) cmd1 (es ++ entry_of num e ∷ []) (num + 1) v.1
        (omega arith) (omega arith) long1 in
    let joined : (es ++ entry_of num e ∷ []) ++ entries_of (num + 1) specs
        ≡ es ++ entries_of num (e ∷ specs) =
      append_assoc es (entry_of num e ∷ []) (entries_of (num + 1) specs) in
    let count : num + 1 + length specs ≡ num + suc (length specs) = omega arith in
    (heap', cmd', turns ∙ rest ∙ rw (joined, count) refl)

length-write_conf :
    (specs : List Spec) (junk : List ℕ)
    → length (write_conf specs junk) ≡ conf_length specs + length junk
unfolding write_conf
length-write_conf [] junk = omega arith
length-write_conf (e ∷ specs) junk =
    omega (arith, length-write_entry e (write_conf specs junk), length-write_conf specs junk)

-- A file with the four lines of up to 29 entries, each text of 1 to 56 plain characters that does
-- not begin with a space, and each machine id of digits below 2 ^ 31, is read back: the code is 0,
-- and the menu has these entries in their order, numbered from 0, whatever stands behind the file
-- in the buffer.
pub parse_conf_file-write_conf :
    (specs : List Spec) (fuel : ℕ) (junk cmd : List ℕ)
    → AreSpecs specs
    → length specs ≤ 29
    → 4 * length specs < fuel
    → length cmd ≡ 10
    → 0 < length specs
    → parse_conf_file fuel (pos (length (write_conf specs [])), write_conf specs junk) cmd 0
      ≡ some (
        pos 0,
        some (record { num = length specs; default_machid = 0; entries = entries_of 0 specs }),
      )
unfolding parse_conf_file grub_malloc
parse_conf_file-write_conf [] fuel junk cmd v few enough long some_entry = absurd (omega arith)
parse_conf_file-write_conf (e ∷ specs) fuel junk cmd v few enough long some_entry =
    let (heap', cmd', runs) =
      conf_turns (e ∷ specs) fuel junk 2048 cmd [] 0 v enough (omega arith) long in
    let size : length (write_conf (e ∷ specs) []) ≡ suc (conf_length (e ∷ specs) - 1) =
      omega (arith, length-write_conf (e ∷ specs) []) in
    let size' : suc (conf_length (e ∷ specs) - 1) ≡ conf_length (e ∷ specs) = omega arith in
    let count : 0 + length (e ∷ specs) ≡ suc (length specs) = omega arith in
    rw size (rw size' (rw runs (rw count refl)))
