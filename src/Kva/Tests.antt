-- ===== src/Kva/Tests.antt =====
-- Runs of kva_alloc.c, and its theorems at a region with one range taken.
use adr_os.Prelude.{ℕ, ◌≡◌, ◌≢◌, refl, arith}
use adr_os.Bitmap.{Bytes, bitmap_set, bitmap_unset, bitmap_test, shifted_test}
use adr_os.Kva.{init, range_free, find_range, mark, clear, alloc_pages, free_pages}
use adr_os.Kva.Laws.{Granted, alloc_pages-Granted}

abbrev two_taken : Bytes
two_taken = (alloc_pages 2 init).1

-- what the tests run
code : ℕ
unfolding init alloc_pages find_range range_free mark clear free_pages bitmap_set bitmap_unset
    bitmap_test shifted_test
code = 0

after_two : (alloc_pages 3 two_taken).0 ≡ 0xC0502000
unfolding code
after_two = refl

not_zero : (alloc_pages 3 two_taken).0 ≢ 0
not_zero = omega (arith, after_two)

alloc_pages-Granted_example :
    Granted two_taken (alloc_pages 3 two_taken).0 3 (alloc_pages 3 two_taken).1
alloc_pages-Granted_example = alloc_pages-Granted 3 two_taken not_zero
