-- ===== src/Flash.antt =====
-- The flash chip as src/blob/flash.c sees it: the table of blocks and the work on regions. The
-- driver of the chip (src/blob/intel16.c and others) is a parameter. An address is a 32-bit number.
pub mod Blocks
pub mod Regions
pub mod Program
pub mod Intel16
pub mod Intel32
use gen_blob.Base.{
  ℕ, zero, suc, ◌+◌, ◌-◌, ◌*◌, ◌^◌, Bool, true, false, not, ◌&&◌, List, [], ◌∷◌, ◌++◌, Option, none,
  some, ltb, leb, ◌==◌, if◌then◌else◌, ℤ, pos, neg, is_neg, u32, add_u32, length, take, drop, ◌>>=◌,
}

abbrev is_pos : ℤ → Bool
is_pos (pos (suc n)) = true
is_pos _ = false

abbrev pub erange : ℕ
erange = 7

abbrev pub eflasherase : ℕ
eflasherase = 12

abbrev pub eflashpgm : ℕ
eflashpgm = 13

-- (64 * 1024) / 128
abbrev pub num_flash_blocks_max : ℕ
num_flash_blocks_max = 512

-- flash_descriptor_t
pub record FlashDescriptor : Type 0 where
  pub size : ℕ
  pub num : ℕ
  pub lockable : Bool

-- flash_block_t
pub record FlashBlock : Type 0 where
  pub start : ℕ
  pub size : ℕ
  pub lockable : Bool

-- flash_driver_t, with the functions that this file calls. The type `Chip` is the chip's state.
pub record FlashDriver (Chip : Type 0) : Type 0 where
  pub erase : ℕ → Chip → ℤ × Chip
  pub lock_block : ℕ → Chip → ℤ × Chip
  pub unlock_block : ℕ → Chip → ℤ × Chip
  pub query_block_lock : ℕ → Chip → ℤ × Chip
  pub enable_vpp : Chip → Chip
  pub disable_vpp : Chip → Chip

-- The inner loop of init_flash. It is left when the table is full; a further block would be
-- written past the table.
unfoldable pub add_blocks : FlashDescriptor → ℕ → ℕ → List FlashBlock → Option (ℕ × List FlashBlock)
add_blocks desc zero start blocks = some (start, blocks)
add_blocks desc (suc j) start blocks =
    let next = u32 (start + desc.size) in
    let block : FlashBlock = record { start = start; size = desc.size; lockable = desc.lockable } in
    let blocks' = blocks ++ block ∷ [] in
    let rest = add_blocks desc j next blocks' in
    if leb num_flash_blocks_max (length blocks)
    then none
    else if leb num_flash_blocks_max (length blocks')
    then some (next, blocks')
    else rest

-- The outer loop, over the descriptors up to the one of size 0.
unfoldable pub all_blocks : List FlashDescriptor → ℕ → List FlashBlock → Option (List FlashBlock)
unfolding add_blocks
all_blocks [] start blocks = none
all_blocks (desc ∷ descs) start blocks = if desc.size == 0 then some blocks else (do
  (start', blocks') ← add_blocks desc desc.num start blocks
  all_blocks descs start' blocks')

unfoldable pub init_flash : List FlashDescriptor → Option (List FlashBlock)
unfolding all_blocks
init_flash descs = all_blocks descs 0 []

-- The number of the block, where the code has -ERANGE for `none`.
unfoldable pub find_block : List FlashBlock → ℕ → Option ℕ
find_block [] address = none
find_block (b ∷ blocks) address =
    if leb b.start address && leb address (u32 (b.start + b.size + 2 ^ 32 - 1))
    then some 0
    else (do i ← find_block blocks address; some (suc i))

-- The first and the last block of a range of bytes.
unfoldable pub address_range_to_block_range : List FlashBlock → ℕ → ℕ → Option (ℕ × ℕ)
unfolding find_block
address_range_to_block_range blocks start len = do
  sb ← find_block blocks start
  eib ← find_block blocks (u32 (start + len + 2 ^ 32 - 1))
  some (sb, eib)

-- The blocks from number `sb` to number `eib`.
abbrev pub blocks_of : List FlashBlock → ℕ → ℕ → List FlashBlock
blocks_of blocks sb eib = take (eib + 1 - sb) (drop sb blocks)

all_lockable : List FlashBlock → Bool
all_lockable [] = true
all_lockable (b ∷ blocks) = b.lockable && all_lockable blocks

module _ {Chip : Type 0} (driver : FlashDriver Chip) where
  open driver use {erase, lock_block, unlock_block, query_block_lock, enable_vpp, disable_vpp}

  -- The loop that locks or unlocks, with the disable_vpp behind it.
  lock_blocks : Bool → List FlashBlock → Chip → ℤ × Chip
  lock_blocks lock [] c = (pos 0, disable_vpp c)
  lock_blocks lock (b ∷ blocks) c =
      let (rv, c') = (if lock then lock_block b.start c else unlock_block b.start c) in
      if is_neg rv then (rv, disable_vpp c') else lock_blocks lock blocks c'

  lock_range : Bool → List FlashBlock → Chip → ℤ × Chip
  unfolding lock_blocks all_lockable
  lock_range lock range c =
      if all_lockable range then lock_blocks lock range (enable_vpp c) else (neg eflashpgm, c)

  unfoldable pub do_flash_lock : List FlashBlock → ℕ → ℕ → Bool → Chip → ℤ × Chip
  unfolding address_range_to_block_range lock_range
  do_flash_lock blocks start nwords lock c =
      elim (address_range_to_block_range blocks start (u32 (4 * nwords))) [
        | none ↦ (neg erange, c)
        | some (sb, eib) ↦ lock_range lock (blocks_of blocks sb eib) c
      ]

  unfoldable pub flash_lock_region : List FlashBlock → ℕ → ℕ → Chip → ℤ × Chip
  unfolding do_flash_lock
  flash_lock_region blocks start nwords c = do_flash_lock blocks start nwords true c

  unfoldable pub flash_unlock_region : List FlashBlock → ℕ → ℕ → Chip → ℤ × Chip
  unfolding do_flash_lock
  flash_unlock_region blocks start nwords c = do_flash_lock blocks start nwords false c

  -- The loop of flash_query_region, with `cnt` locked blocks so far.
  unfoldable pub query_blocks : List FlashBlock → ℕ → Chip → ℤ × Chip
  query_blocks [] cnt c = (pos cnt, c)
  query_blocks (b ∷ blocks) cnt c =
      let (rv, c') = query_block_lock b.start c in
      if not b.lockable
      then query_blocks blocks cnt c
      else if is_neg rv
      then (rv, c')
      else query_blocks blocks (if is_pos rv then cnt + 1 else cnt) c'

  unfoldable pub flash_query_region : List FlashBlock → ℕ → ℕ → Chip → ℤ × Chip
  unfolding address_range_to_block_range query_blocks
  flash_query_region blocks start nwords c =
      elim (address_range_to_block_range blocks start (u32 (4 * nwords))) [
        | none ↦ (neg erange, c)
        | some (sb, eib) ↦ query_blocks (blocks_of blocks sb eib) 0 c
      ]

  -- The loop of flash_erase_region, on fuel: `cur` is increased modulo 2 ^ 32.
  unfoldable pub erase_loop : ℕ → ℕ → ℕ → Chip → Option (ℤ × Chip)
  erase_loop zero cur end c = if ltb cur end then none else some (pos 0, disable_vpp c)
  erase_loop (suc fuel) cur end c =
      let (rv, c') = erase cur c in
      let rest = erase_loop fuel (add_u32 cur 0x20000) end c' in
      if not (ltb cur end)
      then some (pos 0, disable_vpp c)
      else if is_neg rv
      then some (rv, disable_vpp c')
      else rest

  unfoldable pub flash_erase_region : ℕ → ℕ → ℕ → Chip → Option (ℤ × Chip)
  unfolding erase_loop
  flash_erase_region fuel start nwords c =
      erase_loop fuel start (u32 (start + 4 * nwords)) (enable_vpp c)
