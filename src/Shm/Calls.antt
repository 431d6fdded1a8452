-- ===== src/Shm/Calls.antt =====
-- Every call of src/kernel/shm.c keeps the attach counts.
use adr_os.Prelude.{
  ℕ, ◌+◌, ◌/◌, ◌^◌, ◌≤◌, ◌<◌, true, false, Option, none, some, ltb, ◌==◌, update, add32, sub32,
  first_true, first_true-some, ◌≡◌, ◌≢◌, inl, inr, refl, sym, arith, Option-cases, if_cases,
}
use adr_os.Pmm.{page_size}
use adr_os.Shm.{
  Segment, Caller, Shm, Result, max_segments, max_pages, fresh, take_pages, Pages, filled, short,
  fill, create, create_new, found, look_up, shm_get, free_segment,
}
use adr_os.Shm.Counts.{Counts, AllCount, attachments, AllCount-update}

-- The counts of a state and a caller, where `others` are the mappings of the other processes.
abbrev pub Counted : (ℕ → ℕ) → Shm → Caller → Type 0
Counted others s c = AllCount others s.segments c.mmaps

pub true-ne-false : true ≢ false
true-ne-false h = cc

module _ (others : ℕ → ℕ) (s : Shm) (c : Caller) (v : Counted others s c) where
  -- A change of a segment that keeps its own counts.
  pub keep-Counted :
      (k : ℕ) (seg : Segment)
      → (k < max_segments → Counts (attachments k c.mmaps + others k) seg)
      → AllCount others (update s.segments k seg) c.mmaps
  keep-Counted k seg h = AllCount-update others s.segments c.mmaps c.mmaps k seg v h (λ id ne. refl)

  -- A free slot has no mappings, so its fresh segment counts none.
  fill-Counted :
      (key size npages slot : ℕ) (r : Pages)
      → (s.segments slot).used ≡ false
      → 1 ≤ npages
      → npages ≤ max_pages
      → Counted others (fill slot (fresh key size npages c (s.segments slot)) s r).1 c
  unfolding fill
  fill-Counted key size npages slot (filled pages p) free low high =
      keep-Counted slot (record (fresh key size npages c (s.segments slot)) { pages = pages })
        (λ h. (
          λ _. (sym ((v slot h).1 free), low, high, λ m. absurd (true-ne-false (sym m))),
          λ m. absurd (true-ne-false m),
        ))
  fill-Counted key size npages slot (short pages p) free low high =
      keep-Counted slot
        (record (fresh key size npages c (s.segments slot)) { pages = pages; used = false })
        (λ h. (λ m. absurd (true-ne-false (sym m)), λ _. (v slot h).1 free))

  create_new-Counted :
      (key size npages : ℕ)
      → 1 ≤ npages
      → npages ≤ max_pages
      → Counted others (create_new key size npages c s).1 c
  unfolding create_new create
  create_new-Counted key size npages low high =
      elim (Option-cases (first_true (free_segment s) max_segments 0)) [
        | inl e ↦ rw e v
        | inr (slot, e) ↦
            let (_, _, free) = first_true-some (free_segment s) max_segments 0 slot e in
            rw e (
              fill-Counted key size npages slot (take_pages npages 0 _ s.pmm) (ground (arith, free))
                low high)
      ]

  found-Counted :
      (key size npages flags : ℕ) (o : Option ℕ)
      → 1 ≤ npages
      → npages ≤ max_pages
      → Counted others (found key size npages flags c s o).1 c
  unfolding found
  found-Counted key size npages flags (some i) low high = v
  found-Counted key size npages flags none low high =
      if_cases (λ (r : Result × Shm). Counted others r.1 c) _ (create_new key size npages c s) _
        (λ _. create_new-Counted key size npages low high) (λ _. v)

  -- `shm_get` keeps the counts, for a size that does not wrap when it is rounded up to pages.
  pub shm_get-Counted :
      (key size flags : ℕ)
      → size + page_size ≤ 2 ^ 32
      → Counted others (shm_get key size flags c s).1 c
  unfolding shm_get look_up
  shm_get-Counted key size flags h =
      let P : Result × Shm → Type 0 = λ r. Counted others r.1 c in
      let npages = sub32 (add32 size page_size) 1 / page_size in
      if_cases P (size == 0) _ _ (λ _. v)
        λ nonzero.
          if_cases P (ltb max_pages npages) _ _ (λ _. v)
            λ few.
              let low : 1 ≤ npages = ground (arith, h, nonzero) in
              let high : npages ≤ max_pages = ground (arith, few) in
              if_cases P (key == 0) _ _ (λ _. create_new-Counted key size npages low high)
                (λ _. found-Counted key size npages flags _ low high)
