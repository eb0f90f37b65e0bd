-- ===== src/LinuxOptimizations.antt =====
-- include/utils/LinuxOptimizations.hpp: each function as an action that makes system calls in order.
-- What the kernel and libnuma answer is a parameter, and may depend on all calls before.
pub mod Startup
pub mod Nodes
use trading_matcher.Base.{
  ℕ, zero, suc, ◌+◌, ℤ, pos, ◌*ℤ◌, eqb_ℤ, leb_ℤ, Bool, true, false, not, List, [], ◌∷◌, ◌++◌,
  if◌then◌else◌,
}

pub data SysCall : Type 0 where
  mlockall : SysCall
  sched_setaffinity : (cpu_id : ℤ) → SysCall  -- of the process, to this one CPU
  set_own_affinity : (cpu_id : ℤ) → SysCall  -- `pthread_setaffinity_np(pthread_self(), …)`
  set_thread_affinity : (thread : ℕ) (cpu_id : ℤ) → SysCall
  numa_available : SysCall
  numa_node_of_cpu : (cpu_id : ℤ) → SysCall
  numa_node_to_cpus : (node_id : ℤ) → SysCall
  open_cpu_node : (cpu_id : ℤ) → SysCall  -- opens /sys/devices/system/cpu/cpu<cpu_id>/node0
  read_node : SysCall
  open_node_cpus : (node_id : ℤ) → SysCall  -- opens /sys/devices/system/node/node<node_id>/cpulist
  numa_alloc_onnode : (size : ℕ) (node_id : ℤ) → SysCall
  malloc : (size : ℕ) → SysCall
  set_mempolicy : (node_id : ℤ) → SysCall  -- MPOL_PREFERRED, with the mask of this one node
  sched_setscheduler : (priority : ℤ) → SysCall  -- SCHED_FIFO
  sysconf : SysCall  -- _SC_NPROCESSORS_ONLN

-- The value of a call, and the bits of the mask that it fills. An address is its number, and a file
-- opens if the value is not 0.
pub record Answer : Type 0 where
  pub value : ℤ
  pub bit : ℕ → Bool

pub record Kernel : Type 0 where
  pub built_with_numa : Bool  -- HFT_NUMA_AVAILABLE
  pub possible_cpus : ℕ  -- `numa_num_possible_cpus()`
  pub answer : List SysCall → SysCall → Answer

-- The calls so far are passed on, oldest first.
abbrev pub Action : Type 0 → Type 0
Action A = Kernel → List SysCall → A × List SysCall

infixl 5 ◌>>=◌ ◌>>◌
abbrev pub ◌>>=◌ : {A B : Type 0} → Action A → (A → Action B) → Action B
(m >>= f) k calls = let (a, calls') = m k calls in f a k calls'

abbrev pub ◌>>◌ : {A B : Type 0} → Action A → Action B → Action B
m >> n = m >>= λ _. n

abbrev pub done : {A : Type 0} → A → Action A
done a k calls = (a, calls)

abbrev pub query : SysCall → Action Answer
query c k calls = (k.answer calls c, calls ++ c ∷ [])

abbrev pub machine : Action Kernel
machine k calls = (k, calls)

-- `… == 0` on the value of the call.
abbrev pub succeeds : SysCall → Action Bool
succeeds c = do a ← query c; done (eqb_ℤ a.value (pos 0))

unfoldable pub lock_memory : Action Bool
lock_memory = succeeds mlockall

unfoldable pub set_cpu_affinity : ℤ → Action Bool
set_cpu_affinity cpu_id = succeeds (sched_setaffinity cpu_id)

-- `pinThreadToCpu(cpu_id)`, and the version that names a thread.
unfoldable pub pin_thread_to_cpu : ℤ → Action Bool
pin_thread_to_cpu cpu_id = succeeds (set_own_affinity cpu_id)

unfoldable pub pin_other_thread_to_cpu : ℕ → ℤ → Action Bool
pin_other_thread_to_cpu thread cpu_id = succeeds (set_thread_affinity thread cpu_id)

-- `HFT_NUMA_AVAILABLE` and `numa_available() >= 0`
unfoldable pub has_numa : Action Bool
has_numa = do
  k ← machine
  if k.built_with_numa
      then (do a ← query numa_available; done (leb_ℤ (pos 0) a.value))
      else done false

unfoldable pub get_numa_node : ℤ → Action ℤ
get_numa_node cpu_id = do
  numa ← has_numa
  if numa then (do a ← query (numa_node_of_cpu cpu_id); done a.value) else (do
    file ← query (open_cpu_node cpu_id)
    if eqb_ℤ file.value (pos 0) then done (pos 0) else (do node ← query read_node; done node.value))

-- The loop over the bits of the mask, from `i` on with `left` to go.
abbrev pub set_bits : (ℕ → Bool) → ℕ → ℕ → List ℤ
set_bits bit i zero = []
set_bits bit i (suc left) =
    let rest = set_bits bit (i + 1) left in if bit i then pos i ∷ rest else rest

-- The two ways of `getCpusOnNumaNode`: by libnuma, and by the estimate from sysfs.
abbrev pub cpus_by_mask : Kernel → Answer → List ℤ
cpus_by_mask k mask = if eqb_ℤ mask.value (pos 0) then set_bits mask.bit 0 k.possible_cpus else []

unfoldable pub cpus_of_node : ℤ → Bool → Action (List ℤ)
unfolding ◌*ℤ◌
cpus_of_node node_id true = do
  k ← machine
  mask ← query (numa_node_to_cpus node_id)
  done (cpus_by_mask k mask)
cpus_of_node node_id false = do
  file ← query (open_node_cpus node_id)
  done (if eqb_ℤ file.value (pos 0) then [] else (node_id *ℤ pos 8) ∷ [])

unfoldable pub get_cpus_on_numa_node : ℤ → Action (List ℤ)
get_cpus_on_numa_node node_id = do numa ← has_numa; cpus_of_node node_id numa

unfoldable pub allocate_on_numa_node : ℕ → ℤ → Action ℤ
allocate_on_numa_node size node_id = do
  numa ← has_numa
  if numa
      then (do
        ptr ← query (numa_alloc_onnode size node_id)
        if eqb_ℤ ptr.value (pos 0)
            then (do fallback ← query (malloc size); done fallback.value)
            else done ptr.value)
      else (do fallback ← query (malloc size); done fallback.value)

unfoldable pub set_memory_policy : ℤ → Action Bool
set_memory_policy node_id = do
  numa ← has_numa
  if numa then succeeds (set_mempolicy node_id) else done false

abbrev pub pin_to_first : List ℤ → Action Bool
pin_to_first [] = done false
pin_to_first (cpu ∷ cpus) = pin_thread_to_cpu cpu

unfoldable pub bind_thread_to_numa_node : ℤ → Action Bool
bind_thread_to_numa_node node_id = do cpus ← get_cpus_on_numa_node node_id; pin_to_first cpus

unfoldable pub set_realtime_priority : ℤ → Action Bool
set_realtime_priority priority = succeeds (sched_setscheduler priority)

-- `disableCpuFrequencyScaling` is empty, and `enableHugePages` and `setNetworkPriority` return true.
unfoldable pub enable_huge_pages : Action Bool
enable_huge_pages = done true

unfoldable pub set_network_priority : Action Bool
set_network_priority = done true

unfoldable pub numa_setup : ℤ → Action Bool
numa_setup cpu_id = do
  node ← get_numa_node cpu_id
  set_memory_policy node
  bind_thread_to_numa_node node

unfoldable pub initialize_hft_optimizations : ℤ → ℤ → Bool → Action Bool
initialize_hft_optimizations cpu_id rt_priority numa_aware = do
  lock_memory
  if numa_aware then numa_setup cpu_id else done true
  success ← set_cpu_affinity cpu_id
  pin_thread_to_cpu cpu_id
  set_realtime_priority rt_priority
  done success

unfoldable pub get_cpu_count : Action ℤ
get_cpu_count = do a ← query sysconf; done a.value
