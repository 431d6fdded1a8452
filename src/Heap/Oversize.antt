-- ===== src/Heap/Oversize.antt =====
-- A fault of `kmalloc`: `size_to_order` stops at the last order, so the test `order >
-- BUDDY_MAX_ORDER` never holds, and a request that no block can hold is granted.
use adr_os.Prelude.{ℕ, ◌+◌, ◌<◌, ◌≡◌, refl, arith}
use adr_os.Heap.{Header, heap_size, header_size, init, kmalloc, pointer}
use adr_os.Heap.Order.{size_to_order_bounds}
use adr_os.Heap.Boot.{init-IsValid, root_only}
use adr_os.Heap.Malloc.{kmalloc-finds}

-- After `kheap_init`, a request that with its header is larger than the whole heap gets a pointer,
-- where the code means to return NULL.
pub kmalloc_oversize :
    (size : ℕ) (m : ℕ → Header)
    → heap_size < size + header_size
    → (ptr : ℕ) × ((kmalloc size (init m)).0 ≡ pointer ptr)
unfolding init
kmalloc_oversize size m h =
    kmalloc-finds size (init m) root_only 0 (init-IsValid m) (omega arith) refl refl
      (omega (arith, (size_to_order_bounds size).1))
