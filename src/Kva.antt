-- ===== src/Kva.antt =====
-- src/kernel/kva_alloc.c: ranges of kernel virtual pages between 0xC0500000 and 0xC0800000, kept
-- in a bitmap. Both calls run under `g_kva_lock`.
pub mod Laws
mod Tests
use adr_os.Prelude.{
  ℕ, zero, suc, ◌+◌, ◌-◌, ◌*◌, ◌/◌, Bool, true, false, ◌||◌, Option, none, some, if◌then◌else◌, ltb,
  leb, ◌==◌, add32,
}
use adr_os.Bitmap.{Bytes, bitmap_set, bitmap_unset, shifted_test}

abbrev pub alloc_base : ℕ
alloc_base = 0xC0500000

abbrev pub alloc_end : ℕ
alloc_end = 0xC0800000

-- KVA_ALLOC_PAGES
abbrev pub alloc_pages_count : ℕ
alloc_pages_count = 768

abbrev pub page_size : ℕ
page_size = 4096

-- `kva_alloc_init`
pub init : Bytes
init byte = 0

-- the inner loop of the search: are the `n` pages from `i` on free?
pub range_free : Bytes → ℕ → ℕ → Bool
range_free m i zero = true
range_free m i (suc n) =
    let rest = range_free m (i + 1) n in if shifted_test m i then false else rest

-- the outer loop, `n` rounds before its end
pub find_range : Bytes → ℕ → ℕ → ℕ → Option ℕ
find_range m page_count zero i = none
find_range m page_count (suc n) i =
    let rest = find_range m page_count n (i + 1) in
    if range_free m i page_count then some i else rest

-- the loops that mark and clear the `n` pages from `i` on
pub mark : ℕ → ℕ → Bytes → Bytes
mark zero i m = m
mark (suc n) i m = mark n (i + 1) (bitmap_set m i)

pub clear : ℕ → ℕ → Bytes → Bytes
clear zero i m = m
clear (suc n) i m = clear n (i + 1) (bitmap_unset m i)

-- 0 is the failure.
pub alloc_pages : ℕ → Bytes → ℕ × Bytes
alloc_pages page_count m =
    if page_count == 0 || ltb alloc_pages_count page_count
    then (0, m)
    else (elim (find_range m page_count (suc (alloc_pages_count - page_count)) 0) [
      | none ↦ (0, m)
      | some start ↦ (add32 alloc_base (start * page_size), mark page_count start m)
    ])

-- The sum of the guard wraps at 32 bits.
pub free_pages : ℕ → ℕ → Bytes → Bytes
free_pages virt page_count m =
    if ltb virt alloc_base || leb alloc_end virt
    then m
    else if ltb alloc_pages_count (add32 start page_count)
    then m
    else clear page_count start m
  where
    start : ℕ
    start = (virt - alloc_base) / page_size
