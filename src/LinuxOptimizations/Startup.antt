-- ===== src/LinuxOptimizations/Startup.antt =====
-- What `initializeHftOptimizations` leaves behind.
use mathlib.Core.List.{append_assoc}
use trading_matcher.Base.{
  ◌≡◌, ◌↔◌, ℤ, pos, eqb_ℤ_iff, Bool, true, List, [], ◌∷◌, ◌++◌, ◌∙◌, if◌then◌else◌,
}
use trading_matcher.LinuxOptimizations.{
  SysCall, Kernel, done, initialize_hft_optimizations, set_cpu_affinity, pin_thread_to_cpu,
  set_realtime_priority, lock_memory, numa_setup,
}

-- Whatever fails before, the last three calls set the affinity of the process, that of the thread and
-- the priority; the affinity of both is the CPU asked for, also after a binding to a NUMA node. The
-- result is true exactly if `sched_setaffinity` succeeds.
pub initialize_hft_optimizations_lem :
    (cpu_id rt_priority : ℤ) (numa_aware : Bool) (k : Kernel) (calls : List SysCall)
    → let (ok, calls') = initialize_hft_optimizations cpu_id rt_priority numa_aware k calls in
      (before : List SysCall) × (calls'
        ≡ before
          ++ SysCall.sched_setaffinity cpu_id
            ∷ SysCall.set_own_affinity cpu_id
            ∷ SysCall.sched_setscheduler rt_priority
            ∷ [])
      × ((ok ≡ true) ↔ ((k.answer before (SysCall.sched_setaffinity cpu_id)).value ≡ pos 0))
unfolding initialize_hft_optimizations set_cpu_affinity pin_thread_to_cpu set_realtime_priority
    lock_memory
initialize_hft_optimizations_lem cpu_id rt_priority numa_aware k calls =
    let before =
      (if numa_aware then numa_setup cpu_id else done true) k (calls ++ SysCall.mlockall ∷ []) in
    let value = (k.answer before.1 (SysCall.sched_setaffinity cpu_id)).value in
    (
      before.1,
      append_assoc (before.1 ++ SysCall.sched_setaffinity cpu_id ∷ [])
            (SysCall.set_own_affinity cpu_id ∷ []) _
          ∙ append_assoc before.1 (SysCall.sched_setaffinity cpu_id ∷ []) _,
      eqb_ℤ_iff value (pos 0),
    )
