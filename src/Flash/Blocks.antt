-- ===== src/Flash/Blocks.antt =====
-- The table of flash blocks: init_flash lays the blocks out side by side, and find_block looks an
-- address up in it.
use gen_blob.Base.{
  ℕ, zero, suc, ◌+◌, ◌-◌, ◌^◌, ◌≤◌, ◌<◌, Bool, true, false, ◌&&◌, List, [], ◌∷◌, ◌++◌, Option, none,
  some, ◌≡◌, refl, sym, ap, subst, ◌∙◌, arith, inl, inr, Bool-cases, ne→==, ltb, leb, if◌then◌else◌,
  u32, length, length-append, append_assoc, append-nil, ◌>>=◌,
}
use gen_blob.Flash.{FlashDescriptor, FlashBlock, add_blocks, all_blocks, init_flash, find_block}

-- `n` blocks of a descriptor from an address on, and how many bytes they have.
abbrev pub blocks_from : FlashDescriptor → ℕ → ℕ → List FlashBlock
blocks_from desc zero start = []
blocks_from desc (suc n) start =
    record { start = start; size = desc.size; lockable = desc.lockable }
    ∷ blocks_from desc n (start + desc.size)

abbrev pub bytes_of : FlashDescriptor → ℕ → ℕ
bytes_of desc zero = 0
bytes_of desc (suc n) = desc.size + bytes_of desc n

-- The same of a list of descriptors.
abbrev pub layout : List FlashDescriptor → ℕ → List FlashBlock
layout [] start = []
layout (desc ∷ descs) start =
    blocks_from desc desc.num start ++ layout descs (start + bytes_of desc desc.num)

abbrev pub bytes : List FlashDescriptor → ℕ
bytes [] = 0
bytes (desc ∷ descs) = bytes_of desc desc.num + bytes descs

abbrev pub number : List FlashDescriptor → ℕ
number [] = 0
number (desc ∷ descs) = desc.num + number descs

abbrev pub Sized : List FlashDescriptor → Type 0
Sized [] = Unit
Sized (desc ∷ descs) = (0 < desc.size) × Sized descs

-- The block that an offset from the first block lies in, by the sizes alone.
abbrev pub block_number : List FlashBlock → ℕ → Option ℕ
block_number [] offset = none
block_number (b ∷ blocks) offset =
    if ltb offset b.size
    then some 0
    else (do i ← block_number blocks (offset - b.size); some (suc i))

gt→leb : (a b : ℕ) → b < a → leb a b ≡ false
gt→leb a b h = ground arith

either {ℓ} : {A : Type ℓ} (b : Bool) (x : A) → (if b then x else x) ≡ x
either true x = refl
either false x = refl

add_blocks-more :
    (desc : FlashDescriptor) (j start next : ℕ) (blocks : List FlashBlock)
    → leb 512 (length blocks) ≡ false
    → leb 512 (
        length
          (blocks ++ record { start = start; size = desc.size; lockable = desc.lockable } ∷ []))
      ≡ false
    → u32 (start + desc.size) ≡ next
    → add_blocks desc (suc j) start blocks
      ≡ add_blocks desc j next
          (blocks ++ record { start = start; size = desc.size; lockable = desc.lockable } ∷ [])
unfolding add_blocks
add_blocks-more desc j start next blocks below below' at = rw (below, below', at) refl

add_blocks-blocks_from :
    (desc : FlashDescriptor) (n start : ℕ) (blocks : List FlashBlock)
    → length blocks + n ≤ 512
    → start + bytes_of desc n < 2 ^ 32
    → add_blocks desc n start blocks
      ≡ some (start + bytes_of desc n, blocks ++ blocks_from desc n start)
unfolding add_blocks
add_blocks-blocks_from desc zero start blocks room small =
    let same : start ≡ start + 0 = omega arith in
    ap (λ k. some (k, blocks)) same ∙ ap (λ bs. some (start + 0, bs)) (sym (append-nil blocks))
add_blocks-blocks_from desc (suc zero) start blocks room small =
    let below = gt→leb 512 (length blocks) (omega arith) in
    let next : u32 (start + desc.size) ≡ start + (desc.size + 0) = omega arith in
    rw below (
      either (leb 512 (length (blocks ++ _ ∷ []))) _
      ∙ ap (λ k. some (k, blocks ++ blocks_from desc 1 start)) next)
add_blocks-blocks_from desc (suc (suc n)) start blocks room small =
    let block : FlashBlock = record { start = start; size = desc.size; lockable = desc.lockable } in
    let later = blocks ++ block ∷ [] in
    let below = gt→leb 512 (length blocks) (omega arith) in
    let below' = gt→leb 512 (length later) (omega (arith, length-append blocks (block ∷ []))) in
    let next : u32 (start + desc.size) ≡ start + desc.size = omega arith in
    let rest =
      add_blocks-blocks_from desc (suc n) (start + desc.size) later
        (omega (arith, length-append blocks (block ∷ []))) (omega arith) in
    let sum : start + desc.size + bytes_of desc (suc n) ≡ start + bytes_of desc (suc (suc n)) =
      omega arith in
    add_blocks-more desc (suc n) start (start + desc.size) blocks below below' next
    ∙ rest
    ∙ ap (λ k. some (k, later ++ blocks_from desc (suc n) (start + desc.size))) sum
    ∙ ap (λ bs. some (start + bytes_of desc (suc (suc n)), bs))
        (append_assoc blocks (block ∷ []) (blocks_from desc (suc n) (start + desc.size)))

length-blocks_from : (desc : FlashDescriptor) (n start : ℕ) → length (blocks_from desc n start) ≡ n
length-blocks_from desc zero start = refl
length-blocks_from desc (suc n) start = ap suc (length-blocks_from desc n (start + desc.size))

all_blocks-layout :
    (descs : List FlashDescriptor) (end : FlashDescriptor) (start : ℕ) (blocks : List FlashBlock)
    → Sized descs
    → end.size ≡ 0
    → length blocks + number descs ≤ 512
    → start + bytes descs < 2 ^ 32
    → all_blocks (descs ++ end ∷ []) start blocks ≡ some (blocks ++ layout descs start)
unfolding all_blocks
all_blocks-layout [] end start blocks sized last room small =
    rw last (ap some (sym (append-nil blocks)))
all_blocks-layout (desc ∷ descs) end start blocks sized last room small =
    let more = ne→== desc.size 0 (λ e. omega (arith, sized.0)) in
    let added = add_blocks-blocks_from desc desc.num start blocks (omega arith) (omega arith) in
    let first = blocks_from desc desc.num start in
    let count : length (blocks ++ first) ≡ length blocks + desc.num =
      length-append blocks first
      ∙ ap (λ k. length blocks + k) (length-blocks_from desc desc.num start) in
    rw (more, added)
      (all_blocks-layout descs end (start + bytes_of desc desc.num) (blocks ++ first) sized.1 last
          (omega arith) (omega arith)
        ∙ ap some (append_assoc blocks first (layout descs (start + bytes_of desc desc.num))))

-- Blocks that lie side by side from `start` up to below `end`.
Contiguous : ℕ → ℕ → List FlashBlock → Type 0
Contiguous start end [] = start ≡ end
Contiguous start end (b ∷ blocks) =
    (b.start ≡ start) × (0 < b.size) × Contiguous (start + b.size) end blocks

blocks_from-Contiguous :
    (desc : FlashDescriptor) (n start end : ℕ) (blocks : List FlashBlock)
    → 0 < desc.size
    → Contiguous (start + bytes_of desc n) end blocks
    → Contiguous start end (blocks_from desc n start ++ blocks)
unfolding Contiguous
blocks_from-Contiguous desc zero start end blocks sized h =
    let same : start + 0 ≡ start = omega arith in subst (λ k. Contiguous k end blocks) same h
blocks_from-Contiguous desc (suc n) start end blocks sized h =
    let same : start + (desc.size + bytes_of desc n) ≡ start + desc.size + bytes_of desc n =
      omega arith in
    (
      refl,
      sized,
      blocks_from-Contiguous desc n (start + desc.size) end blocks sized
          (subst (λ k. Contiguous k end blocks) same h),
    )

layout-Contiguous :
    (descs : List FlashDescriptor) (start : ℕ)
    → Sized descs
    → Contiguous start (start + bytes descs) (layout descs start)
unfolding Contiguous
layout-Contiguous [] start sized = omega arith
layout-Contiguous (desc ∷ descs) start sized =
    let same : start + bytes_of desc desc.num + bytes descs ≡ start + bytes (desc ∷ descs) =
      omega arith in
    blocks_from-Contiguous desc desc.num start (start + bytes (desc ∷ descs)) _ sized.0 (
      subst
        (λ k.
          Contiguous (start + bytes_of desc desc.num) k
            (layout descs (start + bytes_of desc desc.num)))
        same (layout-Contiguous descs (start + bytes_of desc desc.num) sized.1))

Contiguous-le :
    (start end : ℕ) (blocks : List FlashBlock) → Contiguous start end blocks → start ≤ end
unfolding Contiguous
Contiguous-le start end [] h = omega arith
Contiguous-le start end (b ∷ blocks) (at, sized, h) =
    omega (arith, Contiguous-le (start + b.size) end blocks h)

find_block-block_number :
    (start end address : ℕ) (blocks : List FlashBlock)
    → Contiguous start end blocks
    → end < 2 ^ 32
    → start ≤ address
    → find_block blocks address ≡ block_number blocks (address - start)
unfolding find_block Contiguous
find_block-block_number start end address [] h small le = refl
find_block-block_number start end address (b ∷ blocks) (at, sized, h) small le =
    let below = Contiguous-le (start + b.size) end blocks h in
    elim (Bool-cases (ltb (address - start) b.size)) [
      | inl inside ↦ ground arith
      | inr behind ↦
          let rest =
            find_block-block_number (start + b.size) end address blocks h small (ground arith) in
          let offset : address - (start + b.size) ≡ address - start - b.size = omega arith in
          let not_here : (leb b.start address && leb address (u32 (b.start + b.size + 2 ^ 32 - 1)))
              ≡ false =
            ground arith in
          rw (not_here, behind, rest, offset) refl
    ]

-- Descriptors of at most 512 blocks of non-zero size, with fewer than 2 ^ 32 bytes in all, up to
-- one of size 0: init_flash makes a table of the blocks side by side from address 0, and in it
-- find_block gives for every address the number of the block that the sizes put the address in,
-- and nothing for an address behind the last block.
pub init_flash-find_block :
    (descs : List FlashDescriptor) (end : FlashDescriptor) (address : ℕ)
    → Sized descs
    → end.size ≡ 0
    → number descs ≤ 512
    → bytes descs < 2 ^ 32
    → (init_flash (descs ++ end ∷ []) ≡ some (layout descs 0))
      × (find_block (layout descs 0) address ≡ block_number (layout descs 0) address)
unfolding init_flash
init_flash-find_block descs end address sized last room small =
    let from_0 : address - 0 ≡ address = omega arith in
    (
      all_blocks-layout descs end 0 [] sized last (omega arith) (omega arith),
      find_block-block_number 0 (0 + bytes descs) address (layout descs 0)
            (layout-Contiguous descs 0 sized) (omega arith) (omega arith)
          ∙ ap (block_number (layout descs 0)) from_0,
    )
