-- ===== src/Shm/Counts.antt =====
-- The attach counts of src/kernel/shm.c against the mappings of the processes.
use adr_os.Prelude.{
  ℕ, ◌+◌, ◌≤◌, ◌<◌, Bool, true, false, ◌&&◌, Option, none, some, ltb, ◌==◌, update, update_self,
  update-other, ◌≡◌, ◌≢◌, refl, sym, ap, ◌∙◌, subst, arith, ℕ_discrete, count_true, count_true-on,
  count_true-congr, count_true-one, count_true-le, count_true-none,
}
use adr_os.Shm.{Segment, Mapping, max_segments, max_mmaps, max_pages}

-- Whether an option is the number `id`.
abbrev pub is_id : Option ℕ → ℕ → Bool
is_id none id = false
is_id (some k) id = k == id

-- Entry `i` of a process maps segment `id`.
unfoldable pub attached : ℕ → (ℕ → Mapping) → ℕ → Bool
attached id mmaps i = ltb 0 (mmaps i).length && is_id (mmaps i).shmid id

-- How many entries of a process map segment `id`.
pub attachments : ℕ → (ℕ → Mapping) → ℕ
attachments id mmaps = count_true (attached id mmaps) max_mmaps

-- A segment with `n` mappings: a live one counts them, has pages, and is marked for removal only
-- while there are any; one that is not in use has none.
abbrev pub Counts : ℕ → Segment → Type 0
Counts n seg =
    (seg.used ≡ true
      → (seg.nattch ≡ n)
        × (1 ≤ seg.npages)
        × (seg.npages ≤ max_pages)
        × (seg.marked_rm ≡ true → 1 ≤ n))
    × (seg.used ≡ false → n ≡ 0)

-- Every segment counts the mappings of the caller and those of the other processes.
abbrev pub AllCount : (ℕ → ℕ) → (ℕ → Segment) → (ℕ → Mapping) → Type 0
AllCount others segs mmaps =
    (id : ℕ) → id < max_segments → Counts (attachments id mmaps + others id) (segs id)

-- The entry that is filled counts one more for its segment, and none for another.
pub attachments-attach :
    (id i base length : ℕ) (mmaps : ℕ → Mapping)
    → i < max_mmaps
    → (mmaps i).length ≡ 0
    → 1 ≤ length
    → attachments id (update mmaps i (record { base = base; length = length; shmid = some id }))
      ≡ attachments id mmaps + 1
unfolding attachments attached
attachments-attach id i base length mmaps h e l =
    let new : Mapping = record { base = base; length = length; shmid = some id } in
    count_true-on (attached id mmaps) (attached id (update mmaps i new)) i max_mmaps h
      (ground (arith, e))
      (ap (λ (m : Mapping). ltb 0 m.length && is_id m.shmid id) (update_self mmaps i new)
        ∙ ground (arith, l))
      (λ j ne.
        sym (
          ap (λ (m : Mapping). ltb 0 m.length && is_id m.shmid id) (update-other mmaps i j new ne)))

-- An entry that does not map segment `id`, before or after, changes no count of it.
pub attachments-other :
    (id i : ℕ) (new : Mapping) (mmaps : ℕ → Mapping)
    → attached id mmaps i ≡ false
    → (ltb 0 new.length && is_id new.shmid id) ≡ false
    → attachments id (update mmaps i new) ≡ attachments id mmaps
unfolding attachments attached
attachments-other id i new mmaps old e =
    count_true-congr (attached id (update mmaps i new)) (attached id mmaps) max_mmaps (λ j h.
      elim (ℕ_discrete i j) [
        | yes s ↦
            ap (λ (m : Mapping). ltb 0 m.length && is_id m.shmid id)
              (ap (update mmaps i new) (sym s) ∙ update_self mmaps i new)
            ∙ e
            ∙ sym old
            ∙ ap (λ (k : ℕ). ltb 0 (mmaps k).length && is_id (mmaps k).shmid id) s
        | no ne ↦
            ap (λ (m : Mapping). ltb 0 m.length && is_id m.shmid id) (update-other mmaps i j new ne)
      ])

-- The entry that is emptied counts one less for its segment.
pub attachments-detach :
    (id i : ℕ) (mmaps : ℕ → Mapping)
    → i < max_mmaps
    → attached id mmaps i ≡ true
    → attachments id mmaps
      ≡ attachments id (update mmaps i (record { base = 0; length = 0; shmid = none })) + 1
unfolding attachments attached
attachments-detach id i mmaps h e =
    let new : Mapping = record { base = 0; length = 0; shmid = none } in
    count_true-on (attached id (update mmaps i new)) (attached id mmaps) i max_mmaps h
      (ap (λ (m : Mapping). ltb 0 m.length && is_id m.shmid id) (update_self mmaps i new) ∙ refl) e
      (λ j ne.
        ap (λ (m : Mapping). ltb 0 m.length && is_id m.shmid id) (update-other mmaps i j new ne))

pub attachments-one :
    (id i : ℕ) (mmaps : ℕ → Mapping)
    → i < max_mmaps
    → attached id mmaps i ≡ true
    → 1 ≤ attachments id mmaps
unfolding attachments attached
attachments-one id i mmaps h e = count_true-one (attached id mmaps) i max_mmaps h e

-- A change of one segment keeps the counts of all, if it keeps that one's.
pub AllCount-update :
    (others : ℕ → ℕ) (segs : ℕ → Segment) (mmaps mmaps' : ℕ → Mapping) (k : ℕ) (seg : Segment)
    → AllCount others segs mmaps
    → (k < max_segments → Counts (attachments k mmaps' + others k) seg)
    → ((id : ℕ) → k ≢ id → attachments id mmaps' ≡ attachments id mmaps)
    → AllCount others (update segs k seg) mmaps'
AllCount-update others segs mmaps mmaps' k seg v h keep id l = elim (ℕ_discrete k id) [
  | yes e ↦
      subst (λ (j : ℕ). Counts (attachments j mmaps' + others j) (update segs k seg j)) e
        (subst (Counts (attachments k mmaps' + others k)) (sym (update_self segs k seg))
          (h (subst (λ (j : ℕ). j < max_segments) (sym e) l)))
  | no ne ↦
      subst (Counts (attachments id mmaps' + others id)) (sym (update-other segs k id seg ne))
        (subst (λ (n : ℕ). Counts (n + others id) (segs id)) (sym (keep id ne)) (v id l))
]

pub attachments-le : (id : ℕ) (mmaps : ℕ → Mapping) → attachments id mmaps ≤ max_mmaps
unfolding attachments
attachments-le id mmaps = count_true-le (attached id mmaps) max_mmaps

-- A process with no entries in use maps nothing.
pub attachments-none :
    (id : ℕ) (mmaps : ℕ → Mapping) → ((i : ℕ) → (mmaps i).length ≡ 0) → attachments id mmaps ≡ 0
unfolding attachments attached
attachments-none id mmaps h =
    count_true-congr (attached id mmaps) (λ i. false) max_mmaps (λ j l. ground (arith, h j))
    ∙ count_true-none max_mmaps
