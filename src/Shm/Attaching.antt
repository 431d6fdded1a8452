-- ===== src/Shm/Attaching.antt =====
-- `shm_at`, `shm_dt` and `shm_ctl` keep the attach counts.
use adr_os.Prelude.{
  ℕ, ◌+◌, ◌-◌, ◌^◌, ◌<◌, Bool, true, not, ◌&&◌, Option, none, some, if◌then◌else◌, ltb, leb, ◌==◌,
  update, update_self, update-other, add32, mul32, first_true, first_true-some, ◌≡◌, ◌≢◌, refl, sym,
  ◌∙◌, subst, arith, if_cases,
}
use adr_os.Pmm.{page_size}
use adr_os.Shm.{
  Segment, Caller, Shm, cleared, max_segments, max_mmaps, shm_destroy, shm_perm_check, shm_rdonly,
}
use adr_os.Shm.Attach.{
  Outcome, attach, place, free_slot, at_slot, attach_used, shm_at, drop_attach, bad_place,
}
use adr_os.Shm.Counts.{
  Counts, attached, attachments, attachments-attach, attachments-other, AllCount-update,
}
use adr_os.Shm.Calls.{Counted, true-ne-false}

module _ (others : ℕ → ℕ) (s : Shm) (c : Caller) (v : Counted others s c) where
  attach-Counted :
      (shmid mslot vaddr : ℕ) (rdonly : Bool)
      → shmid < max_segments
      → (s.segments shmid).used ≡ true
      → mslot < max_mmaps
      → (c.mmaps mslot).length ≡ 0
      → attachments shmid c.mmaps + others shmid + 1 < 2 ^ 32
      → Counted others
          (attach shmid mslot vaddr rdonly s c).shm
          (attach shmid mslot vaddr rdonly s c).caller
  unfolding attach
  attach-Counted shmid mslot vaddr rdonly l used m empty few =
      let seg = s.segments shmid in
      let (counted, low, high, marked) = (v shmid l).0 used in
      let len = mul32 seg.npages page_size in
      let more =
        attachments-attach shmid mslot vaddr len c.mmaps m empty (omega (arith, low, high)) in
      let mmaps =
        update c.mmaps mslot (record { base = vaddr; length = len; shmid = some shmid }) in
      AllCount-update others s.segments c.mmaps mmaps shmid
        (record seg { nattch = add32 seg.nattch 1 }) v
        (λ _. (
          λ _. (omega (arith, counted, more, few), low, high, λ _. omega (arith, more)),
          λ free. absurd (true-ne-false (sym used ∙ free)),
        ))
        (λ id ne.
          attachments-other id mslot (record { base = vaddr; length = len; shmid = some shmid })
            c.mmaps (unfold attached in ground (arith, empty)) (ground (arith, ne)))

  place-Counted :
      (kern_base free_area shmid mslot shmaddr : ℕ) (rdonly : Bool)
      → shmid < max_segments
      → (s.segments shmid).used ≡ true
      → mslot < max_mmaps
      → (c.mmaps mslot).length ≡ 0
      → attachments shmid c.mmaps + others shmid + 1 < 2 ^ 32
      → (let r = place kern_base free_area shmid mslot shmaddr rdonly s c in
          Counted others r.shm r.caller)
  unfolding place
  place-Counted kern_base free_area shmid mslot shmaddr rdonly l used m empty few =
      let P : Outcome → Type 0 = λ r. Counted others r.shm r.caller in
      let put : (vaddr : ℕ) → P (attach shmid mslot vaddr rdonly s c) =
        λ vaddr. attach-Counted shmid mslot vaddr rdonly l used m empty few in
      if_cases P (not (shmaddr == 0)) _ _
        (λ _.
          if_cases P (bad_place kern_base shmaddr (mul32 (s.segments shmid).npages page_size)) _ _
            (λ _. v) (λ _. put shmaddr))
        (λ _. if_cases P (free_area == 0) _ _ (λ _. v) (λ _. put free_area))

  at_slot-Counted :
      (kern_base free_area shmid shmaddr : ℕ) (rdonly : Bool) (o : Option ℕ)
      → shmid < max_segments
      → (s.segments shmid).used ≡ true
      → first_true (free_slot c) max_mmaps 0 ≡ o
      → attachments shmid c.mmaps + others shmid + 1 < 2 ^ 32
      → (let r = at_slot kern_base free_area shmid shmaddr rdonly s c o in
          Counted others r.shm r.caller)
  unfolding at_slot
  at_slot-Counted kern_base free_area shmid shmaddr rdonly none l used e few = v
  at_slot-Counted kern_base free_area shmid shmaddr rdonly (some mslot) l used e few =
      let (_, m, empty) = first_true-some (free_slot c) max_mmaps 0 mslot e in
      place-Counted kern_base free_area shmid mslot shmaddr rdonly l used (omega (arith, m))
        (ground (arith, empty)) few

  -- `shm_at` keeps the counts, while fewer mappings of the segment exist than a count can hold.
  pub shm_at-Counted :
      (kern_base free_area shmid shmaddr shmflg : ℕ)
      → attachments shmid c.mmaps + others shmid + 1 < 2 ^ 32
      → (let r = shm_at kern_base free_area shmid shmaddr shmflg s c in
          Counted others r.shm r.caller)
  unfolding shm_at attach_used
  shm_at-Counted kern_base free_area shmid shmaddr shmflg few =
      let P : Outcome → Type 0 = λ r. Counted others r.shm r.caller in
      let seg = s.segments shmid in
      let rdonly = shm_rdonly shmflg in
      if_cases P (leb max_segments shmid) _ _ (λ _. v)
        λ small.
          if_cases P (not seg.used) _ _ (λ _. v)
            λ used.
              if_cases P seg.marked_rm _ _ (λ _. v)
                λ live.
                  if_cases P (not (shm_perm_check c seg 4)) _ _ (λ _. v)
                    λ readable.
                      if_cases P (not rdonly && not (shm_perm_check c seg 2)) _ _ (λ _. v)
                        λ writable.
                          at_slot-Counted kern_base free_area shmid shmaddr rdonly _
                            (ground (arith, small)) (ground (arith, used)) refl few

  -- The entry of a detached segment is emptied, and the segment counts one less, or is destroyed.
  pub detached-Counts :
      (shmid n : ℕ)
      → Counts (n + 1) (s.segments shmid)
      → (s.segments shmid).used ≡ true
      → Counts n ((drop_attach shmid s).segments shmid)
  unfolding drop_attach shm_destroy
  detached-Counts shmid n h used =
      let seg = s.segments shmid in
      let (counted, low, high, marked) = h.0 used in
      let fewer = if ltb 0 seg.nattch then seg.nattch - 1 else seg.nattch in
      let left : fewer ≡ n = ground (arith, counted) in
      let seg' : Segment = record seg { nattch = fewer } in
      let s' : Shm = record s { segments = update s.segments shmid seg' } in
      if_cases (λ (t : Shm). Counts n (t.segments shmid)) ((fewer == 0) && seg.marked_rm)
        (shm_destroy shmid s') s'
        (λ e.
          subst (Counts n) (sym (update_self (update s.segments shmid seg') shmid cleared))
            (λ m. absurd (true-ne-false (sym m)), λ _. ground (arith, left, e)))
        (λ e. subst (Counts n) (sym (update_self s.segments shmid seg')) (
          λ _. (left, low, high, λ m. ground (arith, left, e, m)),
          λ free. absurd (true-ne-false (sym used ∙ free)),
        ))

  -- Other segments stay.
  pub drop_attach-other :
      (shmid id : ℕ) → shmid ≢ id → (drop_attach shmid s).segments id ≡ s.segments id
  unfolding drop_attach shm_destroy
  drop_attach-other shmid id ne =
      let seg = s.segments shmid in
      let fewer = if ltb 0 seg.nattch then seg.nattch - 1 else seg.nattch in
      let seg' : Segment = record seg { nattch = fewer } in
      let s' : Shm = record s { segments = update s.segments shmid seg' } in
      let same : s'.segments id ≡ s.segments id = update-other s.segments shmid id seg' ne in
      if_cases (λ (t : Shm). t.segments id ≡ s.segments id) ((fewer == 0) && seg.marked_rm)
        (shm_destroy shmid s') s' (λ _. update-other s'.segments shmid id cleared ne ∙ same)
        (λ _. same)
