-- ===== src/Shm/Granted.antt =====
-- What `shm_at` grants, and that a refusal changes nothing.
use adr_os.Prelude.{
  ℕ, zero, suc, ◌*◌, List, ◌∷◌, length, if◌then◌else◌, ap₂, ◌∙◌, update_self, update-other, add32,
  ◌+◌, ◌%◌, ◌^◌, ◌≤◌, ◌<◌, Bool, true, false, not, ◌&&◌, Option, none, some, [], leb, ◌==◌, mul32,
  first_true, first_true-some, ◌≡◌, ◌≢◌, refl, sym, ap, subst, arith, if_cases,
}
use native.Mathlib.Nat.{zero-add}
use adr_os.Pmm.{page_size}
use adr_os.Shm.{Caller, Shm, ok, err, Error, max_segments, max_mmaps, shm_perm_check, shm_rdonly}
use adr_os.Shm.Attach.{
  Call, map_page, map_calls, map_flags, Outcome, refuse, attach, place, free_slot, at_slot,
  attach_used, shm_at, bad_place,
}

-- The call number `i` of a list.
unfoldable pub call_at : List Call → ℕ → Option Call
call_at [] i = none
call_at (k ∷ ks) zero = some k
call_at (k ∷ ks) (suc i) = call_at ks i

-- The calls map each page of a segment at its place behind `vaddr`, for the user and not executable,
-- and writable (0x2) unless the attachment is read-only.
pub record MapsPages (vaddr npages : ℕ) (pages : ℕ → ℕ) (rdonly : Bool) (calls : List Call)
    : Type 0 where
  pub each :
      (i : ℕ)
      → i < npages
      → call_at calls i
        ≡ some (
            map_page
              (pages i)
              ((vaddr + i * 4096) % 2 ^ 32)
              (if rdonly then 0x405 else 0x405 + 0x2))
  pub no_more : length calls ≡ npages

map_calls-at :
    (n k : ℕ) (pages : ℕ → ℕ) (vaddr flags i : ℕ)
    → i < n
    → call_at (map_calls n k pages vaddr flags) i
      ≡ some (map_page (pages (k + i)) ((vaddr + (k + i) * 4096) % 2 ^ 32) flags)
unfolding map_calls call_at
map_calls-at zero k pages vaddr flags i l = absurd (omega arith)
map_calls-at (suc n) k pages vaddr flags zero l =
    let here : k + 0 ≡ k = omega arith in
    ap₂ (λ (j a : ℕ). some (map_page (pages j) a flags)) (sym here) (omega arith)
map_calls-at (suc n) k pages vaddr flags (suc i) l =
    let next : k + 1 + i ≡ k + suc i = omega arith in
    map_calls-at n (k + 1) pages vaddr flags i (omega (arith, l))
    ∙ ap (λ (j : ℕ). some (map_page (pages j) ((vaddr + j * 4096) % 2 ^ 32) flags)) next

length-map_calls :
    (n k : ℕ) (pages : ℕ → ℕ) (vaddr flags : ℕ) → length (map_calls n k pages vaddr flags) ≡ n
unfolding map_calls
length-map_calls zero k pages vaddr flags = refl
length-map_calls (suc n) k pages vaddr flags = ap suc (length-map_calls n (k + 1) pages vaddr flags)

-- What an attachment changes: the count of the segment goes up by one, the entry is filled, the
-- pages are mapped, and nothing else is changed.
pub record Effects (shmid mslot vaddr : ℕ) (rdonly : Bool) (s : Shm) (c : Caller) (r : Outcome)
    : Type 0 where
  pub counted :
      r.shm.segments shmid
      ≡ record (s.segments shmid) { nattch = ((s.segments shmid).nattch + 1) % 2 ^ 32 }
  pub others : (id : ℕ) → shmid ≢ id → r.shm.segments id ≡ s.segments id
  pub frames : r.shm.pmm ≡ s.pmm
  pub filled : r.caller.mmaps mslot ≡ record {
    base = vaddr;
    length = (s.segments shmid).npages * 4096 % 2 ^ 32;
    shmid = some shmid;
  }
  pub entries : (i : ℕ) → mslot ≢ i → r.caller.mmaps i ≡ c.mmaps i
  pub maps : MapsPages vaddr (s.segments shmid).npages (s.segments shmid).pages rdonly r.calls

attach-Effects :
    (shmid mslot vaddr : ℕ) (rdonly : Bool) (s : Shm) (c : Caller)
    → Effects shmid mslot vaddr rdonly s c (attach shmid mslot vaddr rdonly s c)
unfolding attach
attach-Effects shmid mslot vaddr rdonly s c =
    let seg = s.segments shmid in
    record {
      counted = update_self s.segments shmid (record seg { nattch = add32 seg.nattch 1 });
      others =
          λ id n. update-other s.segments shmid id (record seg { nattch = add32 seg.nattch 1 }) n;
      frames = refl;
      filled = update_self c.mmaps mslot _;
      entries = λ i n. update-other c.mmaps mslot i _ n;
      maps = record {
        each = λ i l.
            map_calls-at seg.npages 0 seg.pages vaddr (map_flags rdonly) i l
            ∙ ap
                (λ (j : ℕ).
                  some (map_page (seg.pages j) ((vaddr + j * 4096) % 2 ^ 32) (map_flags rdonly)))
                (zero-add i);
        no_more = length-map_calls seg.npages 0 seg.pages vaddr (map_flags rdonly);
      };
    }

-- An attachment of segment `shmid` at `vaddr`: who may have it, where it lies, and what it changes.
pub record Attached (kern_base shmid shmaddr vaddr : ℕ) (rdonly : Bool) (s : Shm) (c : Caller)
    (r : Outcome) : Type 0 where
  pub in_table : shmid < max_segments
  pub live : (s.segments shmid).used ≡ true
  pub kept : (s.segments shmid).marked_rm ≡ false
  pub readable : shm_perm_check c (s.segments shmid) 4 ≡ true
  pub writable : rdonly ≡ false → shm_perm_check c (s.segments shmid) 2 ≡ true
  pub asked :
      shmaddr ≢ 0
      → (vaddr ≡ shmaddr)
        × (vaddr % 2 ^ 12 ≡ 0)
        × (vaddr + mul32 (s.segments shmid).npages page_size ≤ kern_base)
  pub mslot : ℕ
  pub entry : mslot < max_mmaps
  pub was_free : (c.mmaps mslot).length ≡ 0
  pub done : Effects shmid mslot vaddr rdonly s c r

module _ (kern_base free_area shmid shmaddr : ℕ) (rdonly : Bool) (s : Shm) (c : Caller) where
  -- What a result comes with: an address with an attachment, an error with nothing changed.
  abbrev Answer : Outcome → Type 0
  Answer r =
      ((vaddr : ℕ) → r.result ≡ ok vaddr → Attached kern_base shmid shmaddr vaddr rdonly s c r)
      × ((e : Error) → r.result ≡ err e → (r.shm ≡ s) × (r.caller ≡ c) × (r.calls ≡ []))

  refuse-Answer : (e : Error) → Answer (refuse (err e) s c)
  refuse-Answer e = (λ vaddr h. absurd (not_ok h), λ _ _. (refl, refl, refl))
    where
      not_ok : {v : ℕ} → err e ≢ ok v
      not_ok h = cc

  attach-Answer :
      (mslot vaddr : ℕ)
      → ((v : ℕ)
          → vaddr ≡ v
          → Attached kern_base shmid shmaddr v rdonly s c (attach shmid mslot vaddr rdonly s c))
      → Answer (attach shmid mslot vaddr rdonly s c)
  unfolding attach
  attach-Answer mslot vaddr h = (λ v e. h v (cc e), λ x e. absurd (not_err e))
    where
      not_err : {e : Error} → ok vaddr ≢ err e
      not_err e = cc

  at_slot-Answer :
      (o : Option ℕ)
      → first_true (free_slot c) max_mmaps 0 ≡ o
      → shmid < max_segments
      → kern_base < 2 ^ 32
      → shmaddr < 2 ^ 32
      → (s.segments shmid).used ≡ true
      → (s.segments shmid).marked_rm ≡ false
      → shm_perm_check c (s.segments shmid) 4 ≡ true
      → (rdonly ≡ false → shm_perm_check c (s.segments shmid) 2 ≡ true)
      → Answer (at_slot kern_base free_area shmid shmaddr rdonly s c o)
  unfolding at_slot place
  at_slot-Answer none e l kb sa used kept r w = refuse-Answer _
  at_slot-Answer (some mslot) e l kb sa used kept r w =
      let (_, m, empty) = first_true-some (free_slot c) max_mmaps 0 mslot e in
      let len = mul32 (s.segments shmid).npages page_size in
      let grant : (vaddr v : ℕ)
          → vaddr ≡ v
          → (shmaddr ≢ 0 → (v ≡ shmaddr) × (v % 2 ^ 12 ≡ 0) × (v + len ≤ kern_base))
          → Attached kern_base shmid shmaddr v rdonly s c (attach shmid mslot vaddr rdonly s c) =
        λ vaddr v same place. record {
          in_table = l;
          live = used;
          kept = kept;
          readable = r;
          writable = w;
          asked = place;
          mslot = mslot;
          entry = omega (arith, m);
          was_free = ground (arith, empty);
          done =
              subst (λ (t : ℕ). Effects shmid mslot v rdonly s c (attach shmid mslot t rdonly s c))
                (sym same) (attach-Effects shmid mslot v rdonly s c);
        } in
      if_cases Answer (not (shmaddr == 0)) _ _
        (λ given.
          if_cases Answer (bad_place kern_base shmaddr len) _ _ (λ _. refuse-Answer _)
            λ good.
              let high : len < 2 ^ 32 = omega arith in
              let fits : (shmaddr % 2 ^ 12 ≡ 0) × (shmaddr + len ≤ kern_base) =
                ground (arith, good, kb, sa, high) in
              attach-Answer mslot shmaddr λ v same. grant shmaddr v same (λ _. (
                sym same,
                subst (λ (t : ℕ). t % 2 ^ 12 ≡ 0) same fits.0,
                subst (λ (t : ℕ). t + len ≤ kern_base) same fits.1,
              )))
        (λ not_given.
          if_cases Answer (free_area == 0) _ _ (λ _. refuse-Answer _)
            λ _. attach-Answer mslot free_area λ v same.
              grant free_area v same (λ nonzero. absurd (nonzero (ground (arith, not_given)))))

-- `shm_at` on every branch, for 32-bit addresses. It returns an address only for a live segment that
-- is not marked for removal and that the caller may read, and write unless the attachment is
-- read-only; an address that the caller asked for is page aligned and the whole mapping lies below
-- the kernel; and then exactly a free entry of the caller is filled, the segment counts one mapping
-- more in 32 bits and no other segment changes, and its pages, all and only they, are mapped in their
-- order, not executable and writable unless the attachment is read-only. An error changes nothing and maps nothing.
pub shm_at-Attached :
    (kern_base free_area shmid shmaddr shmflg : ℕ) (s : Shm) (c : Caller)
    → kern_base < 2 ^ 32
    → shmaddr < 2 ^ 32
    → (let r = shm_at kern_base free_area shmid shmaddr shmflg s c in
        ((vaddr : ℕ)
          → r.result ≡ ok vaddr
          → Attached kern_base shmid shmaddr vaddr (shm_rdonly shmflg) s c r)
        × ((e : Error) → r.result ≡ err e → (r.shm ≡ s) × (r.caller ≡ c) × (r.calls ≡ [])))
unfolding shm_at attach_used
shm_at-Attached kern_base free_area shmid shmaddr shmflg s c kb sa =
    let rdonly = shm_rdonly shmflg in
    let seg = s.segments shmid in
    let P = Answer kern_base free_area shmid shmaddr rdonly s c in
    let no = refuse-Answer kern_base free_area shmid shmaddr rdonly s c in
    if_cases P (leb max_segments shmid) _ _ (λ _. no _)
      λ small.
        if_cases P (not seg.used) _ _ (λ _. no _)
          λ used.
            if_cases P seg.marked_rm _ _ (λ _. no _)
              λ kept.
                if_cases P (not (shm_perm_check c seg 4)) _ _ (λ _. no _)
                  λ readable.
                    if_cases P (not rdonly && not (shm_perm_check c seg 2)) _ _ (λ _. no _)
                      λ writable.
                        at_slot-Answer kern_base free_area shmid shmaddr rdonly s c _ refl
                          (ground (arith, small)) kb sa (ground (arith, used)) kept
                          (ground (arith, readable)) (λ h. ground (arith, writable, h))
