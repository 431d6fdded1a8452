-- ===== src/TimerQueue/Alarms/Setting.antt =====
-- `process_alarm_set` of src/kernel/scheduler.c.
use adr_os.Prelude.{
  ℕ, ◌<◌, ◌≡◌, ◌≢◌, refl, sym, ◌∙◌, ap, not, List, if◌then◌else◌, ◌==◌, arith, Bool-cases, subst₂,
  inl, inr, update,
}
use adr_os.Links.{null, without}
use adr_os.Links.Remove.{without-Distinct}
use adr_os.TimerQueue.{address_limit, insert, remove}
use adr_os.TimerQueue.Sorted.{insert_before}
use adr_os.TimerQueue.Insert.{tick-insert}
use adr_os.TimerQueue.Remove.{tick-remove}
use adr_os.TimerQueue.Alarms.{Alarms, set_tick, process_alarm_set}
use adr_os.TimerQueue.Alarms.Sorting.{InOrder, remove-InOrder, set_tick-InOrder, put_back-InOrder}

-- who waits once the alarm of `p` is set
abbrev pub waiting_after : ℕ → ℕ → Alarms → List ℕ → List ℕ
waiting_after p tick a xs =
    if tick == 0 then without p xs else insert_before (update a.queue.tick p tick) p (without p xs)

-- Setting the alarm of a process, whether one was set or not, returns the former time and leaves
-- the queue in order: the process waits by its new time among the others, or not at all where the
-- time is 0.
pub process_alarm_set-InOrder :
    (p tick : ℕ) (a : Alarms) (xs : List ℕ)
    → InOrder a.queue xs
    → p ≢ null
    → p < address_limit
    → ((process_alarm_set p tick a).0 ≡ a.queue.tick p)
      × InOrder (process_alarm_set p tick a).1.queue (waiting_after p tick a xs)
      × ((process_alarm_set p tick a).1.queue.tick ≡ update a.queue.tick p tick)
unfolding process_alarm_set
process_alarm_set-InOrder p tick a xs o np low =
    let absent = without-Distinct p xs o.holds.distinct in
    let removed = remove-InOrder a.queue p xs o in
    let same = ap (λ f. update f p tick) (tick-remove p a.queue) in
    elim (Bool-cases (tick == 0)) [
      | inl e ↦
          let zeroed : tick ≡ 0 = ground (arith, e) in
          let q : (process_alarm_set p tick a).1.queue ≡ set_tick p 0 (remove p a.queue) =
            ap
              (λ b.
                if not b
                then insert p (set_tick p tick (remove p a.queue))
                else set_tick p 0 (remove p a.queue))
              e in
          (
            refl,
            subst₂ InOrder (sym q) (ground (arith, e))
                (set_tick-InOrder (remove p a.queue) p 0 (without p xs) removed absent),
            ap (λ k. k.tick) q ∙ ap (λ v. update (remove p a.queue).tick p v) (sym zeroed) ∙ same,
          )
      | inr e ↦
          let q : (process_alarm_set p tick a).1.queue
              ≡ insert p (set_tick p tick (remove p a.queue)) =
            ap
              (λ b.
                if not b
                then insert p (set_tick p tick (remove p a.queue))
                else set_tick p 0 (remove p a.queue))
              e in
          (
            refl,
            subst₂ InOrder (sym q)
                (ap (λ f. insert_before (update f p tick) p (without p xs)) (tick-remove p a.queue)
                  ∙ ground (arith, e))
                (put_back-InOrder (remove p a.queue) p tick (without p xs) removed absent np low),
            ap (λ k. k.tick) q ∙ tick-insert p (set_tick p tick (remove p a.queue)) ∙ same,
          )
    ]
