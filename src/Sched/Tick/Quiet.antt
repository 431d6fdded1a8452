-- ===== src/Sched/Tick/Quiet.antt =====
-- A tick of src/kernel/scheduler.c at which nobody wakes and no alarm rings.
use adr_os.TimerQueue.{TimerQueue}
