-- ===== src/Heap/Tests.antt =====
-- Runs of heap.c from a fresh heap, and its theorems at those heaps.
use adr_os.Prelude.{ℕ, ◌≤◌, ◌≡◌, ◌≢◌, ◌⊎◌, refl, Bool, true, false, arith, List, [], ◌∷◌}
use adr_os.Heap.{
  Heap, Header, init, kmalloc, kfree, null, pointer, corruption, freed, user_pointer, find_order,
  size_to_order, split, split_step, coalesce, merge_step, mergeable, buddy_of, fl_del,
}
use adr_os.Heap.Inv.{order_at, free_at, IsValid}
use adr_os.Heap.Boot.{init-IsValid, root_only}
use adr_os.Heap.Malloc.{Granted, kmalloc-Granted, kmalloc-finds, kmalloc_sound}
use adr_os.Heap.Free.{Returned, kfree-Returned}
use adr_os.Heap.History.{
  History, start, granted, returned, is_out, give_up, Separate, History-Separate, Tracked,
  History-Tracked,
}
use adr_os.Heap.Oversize.{kmalloc_oversize}

abbrev junk : ℕ → Header
junk o = record { magic = o; order = 7; is_free = false }

abbrev fresh : Heap
fresh = init junk

abbrev one_out : Heap
one_out = (kmalloc 100 fresh).1

abbrev two_out : Heap
two_out = (kmalloc 40 one_out).1

-- what the tests run
code : ℕ
unfolding init kmalloc find_order size_to_order split split_step kfree coalesce merge_step mergeable
    buddy_of fl_del is_out give_up
code = 0

first_block : (kmalloc 100 fresh).0 ≡ pointer (user_pointer 0)
unfolding code
first_block = refl

second_block : (kmalloc 40 one_out).0 ≡ pointer (user_pointer 128)
unfolding code
second_block = refl

-- freeing both gives the whole heap back
merged_again :
    (kfree (user_pointer 0) (kfree (user_pointer 128) two_out).1).1.free_lists 23 ≡ 0 ∷ []
unfolding code
merged_again = refl

zero_bytes : (kmalloc 0 fresh).0 ≡ null
unfolding code
zero_bytes = refl

kmalloc-Granted_example :
    (o : ℕ) × (live' : ℕ → Bool) × (user_pointer 0 ≡ user_pointer o)
    × Granted 100 fresh root_only o one_out live'
kmalloc-Granted_example =
    kmalloc-Granted 100 fresh root_only (init-IsValid junk) (omega arith) (omega arith) first_block

root_free : free_at fresh 0 ≡ true
unfolding code
root_free = refl

root_order : size_to_order 100 ≤ order_at fresh 0
unfolding code
root_order = omega arith

kmalloc-finds_example : (ptr : ℕ) × ((kmalloc 100 fresh).0 ≡ pointer ptr)
kmalloc-finds_example =
    kmalloc-finds 100 fresh root_only 0 (init-IsValid junk) (omega arith) refl root_free root_order

abbrev before_free : List (ℕ × ℕ)
before_free = (128, 40) ∷ (0, 100) ∷ []

two_grants : History two_out before_free
two_grants =
    granted 40 128
      (granted 100 0 (start junk) (omega arith) (omega arith) (omega arith) first_block)
      (omega arith) (omega arith) (omega arith) second_block

first_is_out : is_out before_free 0 ≡ true
unfolding code
first_is_out = refl

History-Separate_example : Separate (give_up 0 before_free)
History-Separate_example = History-Separate (returned 0 two_grants first_is_out)

kmalloc_oversize_example : (ptr : ℕ) × ((kmalloc 9000000 fresh).0 ≡ pointer ptr)
kmalloc_oversize_example = kmalloc_oversize 9000000 junk (omega arith)

-- the block of the first grant and where blocks start after it
abbrev first_grant :
    (o : ℕ) × (live' : ℕ → Bool) × (user_pointer 0 ≡ user_pointer o)
    × Granted 100 fresh root_only o one_out live'
first_grant =
    kmalloc-Granted 100 fresh root_only (init-IsValid junk) (omega arith) (omega arith) first_block

kfree-Returned_example :
    ((kfree (user_pointer first_grant.0) one_out).0 ≡ freed)
    × ((live' : ℕ → Bool) × Returned one_out first_grant.1 first_grant.0
          (kfree (user_pointer first_grant.0) one_out).1
          live')
kfree-Returned_example =
    kfree-Returned first_grant.0 one_out first_grant.1 first_grant.3.valid first_grant.3.taken

kmalloc_sound_example :
    ((kmalloc 100 fresh).0 ≢ corruption)
    × (((kmalloc 100 fresh).0 ≢ null) ⊎ ((kmalloc 100 fresh).1 ≡ fresh))
kmalloc_sound_example = kmalloc_sound 100 fresh root_only (init-IsValid junk)

History-Tracked_example : (live : ℕ → Bool) × Tracked two_out before_free live
History-Tracked_example = History-Tracked two_grants

init-IsValid_example : IsValid (init junk) root_only
init-IsValid_example = init-IsValid junk
