-- ===== src/Tests/Tuning.antt =====
-- A kernel with one NUMA node, and clocks, under the tuning functions and the timers.
use trading_matcher.Base.{
  ◌+◌, ◌*◌, ◌-◌, ◌%◌, ◌^◌, ◌≡◌, ◌↔◌, refl, pos, negsuc, ◌+ℤ◌, ◌-ℤ◌, ◌*ℤ◌, true, false, List, [],
  ◌∷◌, ◌++◌, ltb,
}
use trading_matcher.LinuxOptimizations.{
  SysCall, Answer, Kernel, initialize_hft_optimizations, bind_thread_to_numa_node, lock_memory,
  set_cpu_affinity, pin_thread_to_cpu, pin_other_thread_to_cpu, has_numa, get_numa_node,
  cpus_of_node, get_cpus_on_numa_node, allocate_on_numa_node, set_memory_policy,
  set_realtime_priority, enable_huge_pages, set_network_priority, numa_setup, get_cpu_count,
}
use trading_matcher.LinuxOptimizations.Startup.{initialize_hft_optimizations_lem}
use trading_matcher.Timestamp.{Clock, to_ns, get_timestamp_ns, get_timestamp_us, get_monotonic_ns}
use trading_matcher.Timestamp.Timers.{
  CycleCounter, elapsed_ns, elapsed_us, elapsed_cycles, new_timer, Readings, new_calibrator,
  measure, calibrate, cycles_to_ns, ns_to_cycles, get_timestamp_ns_rdtsc, rdtsc_elapsed_ns,
  rdtsc_elapsed_us,
}
use trading_matcher.Tests.Fractions.{fractions}

-- Two CPUs, of which the node has the second; only the superuser's calls fail.
abbrev numa_answer : List SysCall → SysCall → Answer
numa_answer calls SysCall.mlockall = record { value = negsuc 0; bit = λ i. false }
numa_answer calls (SysCall.sched_setscheduler priority) = record {
  value = negsuc 0;
  bit = λ i. false;
}
numa_answer calls call = record { value = pos 0; bit = ltb 0 }

abbrev numa_machine : Kernel
numa_machine = record { built_with_numa = true; possible_cpus = 2; answer = numa_answer }

abbrev plain_machine : Kernel
plain_machine = record { built_with_numa = false; possible_cpus = 2; answer = numa_answer }

initialize_hft_optimizations_lem_example :
    let (ok, calls') = initialize_hft_optimizations (pos 0) (pos 50) true numa_machine [] in
    (before : List SysCall) × (calls'
      ≡ before
        ++ SysCall.sched_setaffinity (pos 0)
          ∷ SysCall.set_own_affinity (pos 0)
          ∷ SysCall.sched_setscheduler (pos 50)
          ∷ [])
    × ((ok ≡ true)
        ↔ ((numa_machine.answer before (SysCall.sched_setaffinity (pos 0))).value ≡ pos 0))
initialize_hft_optimizations_lem_example =
    initialize_hft_optimizations_lem (pos 0) (pos 50) true numa_machine []

-- All calls of `initializeHftOptimizations(0, 50)` on the machine with NUMA support.
initialize_run : initialize_hft_optimizations (pos 0) (pos 50) true numa_machine [] ≡ (
  true,
  SysCall.mlockall
      ∷ SysCall.numa_available
      ∷ SysCall.numa_node_of_cpu (pos 0)
      ∷ SysCall.numa_available
      ∷ SysCall.set_mempolicy (pos 0)
      ∷ SysCall.numa_available
      ∷ SysCall.numa_node_to_cpus (pos 0)
      ∷ SysCall.set_own_affinity (pos 1)
      ∷ SysCall.sched_setaffinity (pos 0)
      ∷ SysCall.set_own_affinity (pos 0)
      ∷ SysCall.sched_setscheduler (pos 50)
      ∷ [],
)
unfolding initialize_hft_optimizations lock_memory numa_setup get_numa_node has_numa
    set_memory_policy bind_thread_to_numa_node get_cpus_on_numa_node cpus_of_node pin_thread_to_cpu
    set_cpu_affinity set_realtime_priority
initialize_run = refl

plain_run :
    ((pin_other_thread_to_cpu 7 (pos 1) plain_machine []).0 ≡ true)
    × ((allocate_on_numa_node 64 (pos 0) plain_machine []).1 ≡ SysCall.malloc 64 ∷ [])
    × ((enable_huge_pages plain_machine []).0 ≡ true)
    × ((set_network_priority plain_machine []).0 ≡ true)
    × ((get_cpu_count plain_machine []).0 ≡ pos 0)
unfolding pin_other_thread_to_cpu allocate_on_numa_node has_numa enable_huge_pages
    set_network_priority get_cpu_count
plain_run = (refl, refl, refl, refl, refl)

-- Two seconds and five microseconds pass between the readings of the clock, and 30 cycles between
-- those of the counter, which wraps.
abbrev ticking : Clock
ticking n = record { tv_sec = pos (2 * n); tv_nsec = pos (5000 * n) }

abbrev cycles : CycleCounter
cycles n = (2 ^ 64 - 10 + 30 * n) % 2 ^ 64

timer_run :
    (get_timestamp_us ticking 1 ≡ pos 2_000_005)
    × (elapsed_ns ticking 1 (new_timer ticking 0) ≡ pos 2_000_005_000)
    × (elapsed_us ticking 1 (new_timer ticking 0) ≡ pos 2_000_005)
unfolding elapsed_us elapsed_ns get_timestamp_us get_timestamp_ns get_monotonic_ns to_ns ◌+ℤ◌ ◌-ℤ◌
    ◌*ℤ◌
timer_run = (refl, refl, refl)

abbrev unread : Readings
unread = record { clock_reads = 0; cycle_reads = 0 }

-- 30 cycles are 2000005000 nanoseconds.
conversion_run :
    let d = fractions in
    ((cycles_to_ns d ticking cycles unread (new_calibrator d) 3).2 ≡ pos 200_000_500)
    × ((ns_to_cycles d ticking cycles unread (new_calibrator d) (pos 200_000_500)).2 ≡ 3)
    × ((rdtsc_elapsed_us d ticking cycles unread
          (new_calibrator d)
          (record { start_cycles = 2 ^ 64 - 13 })).2
        ≡ pos 200_000)
unfolding rdtsc_elapsed_us rdtsc_elapsed_ns cycles_to_ns ns_to_cycles calibrate measure
    elapsed_cycles ◌+ℤ◌ ◌-ℤ◌ ◌*ℤ◌
conversion_run = (refl, refl, refl)

counter_run :
    (get_timestamp_ns_rdtsc fractions ticking cycles unread
      (new_calibrator fractions)).0.cycle_reads
    ≡ 3
unfolding get_timestamp_ns_rdtsc cycles_to_ns calibrate
counter_run = refl
