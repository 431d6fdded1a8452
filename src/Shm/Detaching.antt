-- ===== src/Shm/Detaching.antt =====
-- `shm_dt` and `shm_ctl` keep the attach counts.
use adr_os.Prelude.{
  ℕ, ◌+◌, ◌≤◌, ◌<◌, true, false, not, ◌&&◌, ◌||◌, Option, none, some, ltb, leb, ◌==◌, update,
  first_true, first_true-some, ◌≡◌, ◌≢◌, refl, sym, subst, arith, ℕ_discrete, if_cases,
}
use adr_os.Shm.{
  Mapping, Caller, Shm, Result, cleared, max_segments, max_mmaps, shm_destroy, shm_perm_check,
}
use adr_os.Shm.Attach.{drop_attach, detach_segment, mapped_at, detach, shm_dt}
use adr_os.Shm.Control.{Buffer, remove, set_mode, stat, shm_ctl, not_owner}
use adr_os.Shm.Counts.{
  Counts, AllCount, attached, attachments, attachments-other, attachments-detach, attachments-one,
}
use adr_os.Shm.Calls.{Counted, keep-Counted, true-ne-false}
use adr_os.Shm.Attaching.{detached-Counts, drop_attach-other}

abbrev empty_entry : Mapping
empty_entry = record { base = 0; length = 0; shmid = none }

module _ (others : ℕ → ℕ) (s : Shm) (c : Caller) (v : Counted others s c) where
  -- The entry `mslot` is in use and maps `shmid`.
  detach_segment-Counted :
      (mslot : ℕ) (shmid : Option ℕ)
      → mslot < max_mmaps
      → 1 ≤ (c.mmaps mslot).length
      → (c.mmaps mslot).shmid ≡ shmid
      → AllCount others (detach_segment shmid s).segments (update c.mmaps mslot empty_entry)
  unfolding detach_segment
  detach_segment-Counted mslot none m mapped e id l =
      subst (λ (n : ℕ). Counts (n + others id) (s.segments id))
        (sym (
          attachments-other id mslot empty_entry c.mmaps (unfold attached in ground (arith, e))
            (ground arith)))
        (v id l)
  detach_segment-Counted mslot (some k) m mapped e id l =
      if_cases
        (λ (t : Shm).
          Counts (attachments id (update c.mmaps mslot empty_entry) + others id) (t.segments id))
        (ltb k max_segments && (s.segments k).used) (drop_attach k s) s
        (λ live. elim (ℕ_discrete k id) [
          | yes same ↦
              subst
                (λ (j : ℕ).
                  Counts (attachments j (update c.mmaps mslot empty_entry) + others j)
                    ((drop_attach k s).segments j))
                same (mine live)
          | no ne ↦
              subst (Counts (attachments id (update c.mmaps mslot empty_entry) + others id))
                (sym (drop_attach-other others s c v k id ne)) (other id l ne)
        ])
        (λ dead. other id l (not_live dead))
    where
      here : attached k c.mmaps mslot ≡ true
      here = unfold attached in ground (arith, e, mapped)

      gone : attachments k c.mmaps ≡ attachments k (update c.mmaps mslot empty_entry) + 1
      gone = attachments-detach k mslot c.mmaps m here

      other :
          (j : ℕ)
          → j < max_segments
          → k ≢ j
          → Counts (attachments j (update c.mmaps mslot empty_entry) + others j) (s.segments j)
      other j h ne =
          subst (λ (n : ℕ). Counts (n + others j) (s.segments j))
            (sym (
              attachments-other j mslot empty_entry c.mmaps
                (unfold attached in ground (arith, e, ne)) (ground arith)))
            (v j h)

      mine :
          (ltb k max_segments && (s.segments k).used) ≡ true
          → Counts
              (attachments k (update c.mmaps mslot empty_entry) + others k)
              ((drop_attach k s).segments k)
      mine live =
          detached-Counts others s c v k
            (attachments k (update c.mmaps mslot empty_entry) + others k)
            (subst (λ (n : ℕ). Counts n (s.segments k)) (omega (arith, gone))
              (v k (ground (arith, live))))
            (ground (arith, live))

      positive : attachments k c.mmaps + others k ≢ 0
      positive z = omega (arith, z, attachments-one k mslot c.mmaps m here)

      not_live : (ltb k max_segments && (s.segments k).used) ≡ false → k ≢ id
      not_live dead same =
          let small : k < max_segments = omega (arith, l, same) in
          let unused : (s.segments k).used ≡ false = ground (arith, dead, small) in
          absurd (positive ((v k small).1 unused))

  -- `shm_dt` keeps the counts.
  pub shm_dt-Counted : (addr : ℕ) → (let r = shm_dt addr s c in Counted others r.shm r.caller)
  unfolding shm_dt detach
  shm_dt-Counted addr = go (first_true (mapped_at addr c) max_mmaps 0) refl
    where
      go :
          (o : Option ℕ)
          → first_true (mapped_at addr c) max_mmaps 0 ≡ o
          → (let r = detach addr s c o in Counted others r.shm r.caller)
      go none e = v
      go (some mslot) e =
          let (_, m, mapped) = first_true-some (mapped_at addr c) max_mmaps 0 mslot e in
          detach_segment-Counted mslot (c.mmaps mslot).shmid (omega (arith, m))
            (ground (arith, mapped)) refl

  -- `shm_ctl` keeps the counts: it destroys a segment only when no process maps it.
  pub shm_ctl-Counted :
      (shmid cmd : ℕ) (buf : Option Buffer) → Counted others (shm_ctl shmid cmd buf c s).1 c
  unfolding shm_ctl stat remove shm_destroy set_mode
  shm_ctl-Counted shmid cmd buf =
      let P : Result × Shm → Type 0 = λ r. Counted others r.1 c in
      let seg = s.segments shmid in
      if_cases P (leb max_segments shmid || not seg.used) _ _ (λ _. v)
        λ there.
          if_cases P (cmd == 1) _ _
            (λ _. if_cases P (not (shm_perm_check c seg 4)) _ _ (λ _. v) (λ _. v))
            λ _.
              if_cases P (cmd == 0) _ _ (λ _. removal (ground (arith, there)))
                λ _.
                  if_cases P (cmd == 2) _ _
                    (λ _. if_cases P (not_owner c seg) _ _ (λ _. v) (λ _. mode buf)) (λ _. v)
    where
      removal : ((s.segments shmid).used ≡ true) → Counted others (remove shmid c s).1 c
      removal used =
          let P : Result × Shm → Type 0 = λ r. Counted others r.1 c in
          if_cases P (not_owner c (s.segments shmid)) _ _ (λ _. v)
            λ _.
              if_cases P ((s.segments shmid).nattch == 0) _ _
                (λ zero_left. keep-Counted others s c v shmid cleared (λ l.
                  let (counted, _, _, _) = (v shmid l).0 used in
                  (λ m. absurd (true-ne-false (sym m)), λ _. ground (arith, zero_left, counted))))
                (λ some_left.
                  keep-Counted others s c v shmid (record (s.segments shmid) { marked_rm = true })
                    (λ l.
                      let (counted, low, high, _) = (v shmid l).0 used in
                      (
                        λ _. (counted, low, high, λ _. ground (arith, some_left, counted)),
                        (v shmid l).1,
                      )))

      mode : (b : Option Buffer) → Counted others (set_mode shmid b s).1 c
      mode none = v
      mode (some b) =
          if_cases (λ (r : Result × Shm). Counted others r.1 c) b.copied _ _
            (λ _. keep-Counted others s c v shmid _ (v shmid)) (λ _. v)
