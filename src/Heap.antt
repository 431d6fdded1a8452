-- ===== src/Heap.antt =====
-- src/mm/heap.c: the kernel heap, a buddy allocator over 8 MB.
-- A block is known by its offset from KHEAP_START, and its header by that offset. A circular free
-- list is the sequence of its blocks, the one after the sentinel first: `fl_add` puts a block
-- there, `fl_pop` takes it, `fl_del` takes a block out wherever it stands. The list of order `k`
-- is free_lists[k - BUDDY_MIN_ORDER]. Every call runs under `heap_lock`.
pub mod Order
pub mod Buddy
pub mod Inv
pub mod Split
pub mod Merge
pub mod Malloc
pub mod Round
pub mod Free
pub mod Boot
pub mod History
pub mod Oversize
mod Tests
use adr_os.Prelude.{
  ℕ, zero, suc, ◌+◌, ◌-◌, ◌^◌, bit_xor, Bool, true, false, not, ◌||◌, ◌&&◌, Option, none, some,
  List, [], ◌∷◌, if◌then◌else◌, ltb, leb, ◌==◌, update, add32, sub32,
}

abbrev pub kheap_start : ℕ
kheap_start = 0xD0000000

abbrev pub min_order : ℕ
min_order = 5

abbrev pub max_order : ℕ
max_order = 23

abbrev pub heap_size : ℕ
heap_size = 8388608

abbrev pub buddy_magic : ℕ
buddy_magic = 0xBD00CAFE

-- sizeof(block_hdr_t)
abbrev pub header_size : ℕ
header_size = 16

-- `block_hdr_t`, less its padding
pub record Header : Type 0 where
  pub magic : ℕ
  pub order : ℕ
  pub is_free : Bool

pub record Heap : Type 0 where
  pub header : ℕ → Header
  pub free_lists : ℕ → List ℕ

-- `fl_del`: unlink one block
pub fl_del : ℕ → List ℕ → List ℕ
fl_del o [] = []
fl_del o (x ∷ xs) = if x == o then xs else x ∷ fl_del o xs

-- `fl_add`
abbrev pub fl_add : ℕ → ℕ → Heap → Heap
fl_add k o h = record h { free_lists = update h.free_lists k (o ∷ h.free_lists k) }

-- `h->order = k`
abbrev pub set_order : ℕ → ℕ → Heap → Heap
set_order o k h = record h { header = update h.header o (record (h.header o) { order = k }) }

-- `h->is_free = b`
abbrev pub set_free : ℕ → Bool → Heap → Heap
set_free o b h = record h { header = update h.header o (record (h.header o) { is_free = b }) }

-- the block at the other side of the enclosing block of the next order
pub buddy_of : ℕ → ℕ → Option ℕ
buddy_of o order =
    if leb heap_size (bit_xor o (2 ^ order)) then none else some (bit_xor o (2 ^ order))

-- the loop of `size_to_order`, `n` rounds before BUDDY_MAX_ORDER
pub order_from : ℕ → ℕ → ℕ → ℕ
order_from zero order total = order
order_from (suc n) order total =
    let rest = order_from n (order + 1) total in if ltb (2 ^ order) total then rest else order

-- `size_t` has 32 bits.
pub size_to_order : ℕ → ℕ
unfolding order_from
size_to_order size = order_from (max_order - min_order) min_order (add32 size header_size)

-- the end of `kheap_init`: one free block in the pages just mapped, whatever they hold
pub init : (ℕ → Header) → Heap
init memory = fl_add max_order 0 (record {
  header = update memory 0 (record { magic = buddy_magic; order = max_order; is_free = true });
  free_lists = λ k. [];
})

-- The smallest order from `k` on with a free block, `n` orders before the end: the order, its
-- first block and the blocks behind it.
pub find_order : ℕ → ℕ → Heap → Option (ℕ × ℕ × List ℕ)
find_order zero k h = none
find_order (suc n) k h =
    let rest = find_order n (k + 1) h in
    elim (h.free_lists k) [ [] ↦ rest | o ∷ os ↦ some (k, o, os) ]

-- one round of the split: the upper half of the block of order `k + 1` becomes a free block
pub split_step : ℕ → ℕ → Heap → Heap
split_step k o h = set_order o k (
    fl_add k (o + 2 ^ k) (record h {
      header =
          update h.header (o + 2 ^ k) (record { magic = buddy_magic; order = k; is_free = true });
    }))

-- `while (k > order)`, with `d` rounds to go
pub split : ℕ → ℕ → ℕ → Heap → Heap
split zero order o h = h
split (suc d) order o h = split d order o (split_step (order + d) o h)

-- What a caller of `kmalloc` sees. After a corruption the current process is made a zombie.
pub data Outcome : Type 0 where
  null corruption : Outcome
  pointer : ℕ → Outcome

-- the pointer to the user's bytes of a block
abbrev pub user_pointer : ℕ → ℕ
user_pointer o = add32 (add32 kheap_start o) header_size

-- the block taken off its list
abbrev pub popped : ℕ → List ℕ → Heap → Heap
popped k os h = record h { free_lists = update h.free_lists k os }

take_block : ℕ → ℕ → ℕ → Heap → Outcome × Heap
take_block order k o h =
    if not ((h.header o).magic == buddy_magic) || not (h.header o).is_free
    then (corruption, h)
    else (pointer (user_pointer o), set_free o false (split (k - order) order o h))

pub kmalloc : ℕ → Heap → Outcome × Heap
unfolding take_block
kmalloc size h =
    if size == 0
    then (null, h)
    else if ltb max_order (size_to_order size)
    then (null, h)
    else (elim (find_order (suc max_order - size_to_order size) (size_to_order size) h) [
      | none ↦ (null, h)
      | some (k, o, os) ↦ take_block (size_to_order size) k o (popped k os h)
    ])

-- the buddy's header passes the three tests of the loop of `kfree`
pub mergeable : Header → ℕ → Bool
mergeable b order = (b.magic == buddy_magic) && (b.is_free && (b.order == order))

-- `if (buddy < blk) blk = buddy`
abbrev pub lower : ℕ → ℕ → ℕ
lower b o = if ltb b o then b else o

pub merge_step : ℕ → ℕ → ℕ → Heap → Heap
merge_step order o b h =
    set_order (lower b o) (order + 1)
      (record h { free_lists = update h.free_lists order (fl_del b (h.free_lists order)) })

-- the loop of `kfree`, `n` rounds before BUDDY_MAX_ORDER: the final order, block and heap
pub coalesce : ℕ → ℕ → ℕ → Heap → ℕ × ℕ × Heap
coalesce zero order o h = (order, o, h)
coalesce (suc n) order o h = elim (buddy_of o order) [
  | none ↦ (order, o, h)
  | some b ↦ elim (mergeable (h.header b) order) [
    | true ↦ coalesce n (order + 1) (lower b o) (merge_step order o b h)
    | false ↦ (order, o, h)
  ]
]

give_back : ℕ × ℕ × Heap → Heap
give_back (order, o, h) = fl_add order o h

pub data Freed : Type 0 where
  ignored freed bad_magic double_free : Freed

-- the block of a user pointer
abbrev pub block_of : ℕ → ℕ
block_of ptr = sub32 (sub32 ptr header_size) kheap_start

-- `kfree` from the block's header on
free_block : ℕ → Heap → Freed × Heap
unfolding give_back
free_block o h =
    if not ((h.header o).magic == buddy_magic)
    then (bad_magic, h)
    else if (h.header o).is_free
    then (double_free, h)
    else (freed, give_back (coalesce (max_order - k) k o (set_free o true h)))
  where
    k : ℕ
    k = (h.header o).order

pub kfree : ℕ → Heap → Freed × Heap
unfolding free_block
kfree ptr h = if ptr == 0 then (ignored, h) else free_block (block_of ptr) h
