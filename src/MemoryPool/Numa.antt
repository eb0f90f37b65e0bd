-- ===== src/MemoryPool/Numa.antt =====
-- The constructor of `OrderMemoryPool` with a NUMA node.
use trading_matcher.Base.{
  ℕ, ◌*◌, ◌≡◌, ◌⊎◌, inl, inr, refl, ℤ, pos, leb_ℤ, eqb_ℤ, Bool-cases, true, List, [], ◌∷◌, ◌++◌,
  if◌then◌else◌,
}
use trading_matcher.PriceLevel.{Heap}
use trading_matcher.LinuxOptimizations.{
  Kernel, SysCall, Action, ◌>>=◌, done, has_numa, allocate_on_numa_node, malloc, numa_alloc_onnode,
}
use trading_matcher.MemoryPool.{MemoryPool, new_pool}

-- `OrderMemoryPool(numa_node)`; `order_size` is `sizeof(Order)`. What is allocated is not used.
unfoldable pub new_pool_on : ℕ → ℕ → ℤ → Heap → Action MemoryPool
new_pool_on order_size pool_size numa_node memory =
    if leb_ℤ (pos 0) numa_node
    then (do
      numa_ptr ← allocate_on_numa_node (order_size * pool_size) numa_node
      done (new_pool memory))
    else done (new_pool memory)

-- The pool is the one that the constructor makes without a node; with a node, its last call allocates
-- memory for all orders, and nothing gives it back.
pub new_pool_on-wastes :
    (order_size pool_size : ℕ) (numa_node : ℤ) (memory : Heap) (k : Kernel) (calls : List SysCall)
    → leb_ℤ (pos 0) numa_node ≡ true
    → let (pool, calls') = new_pool_on order_size pool_size numa_node memory k calls in
      (pool ≡ new_pool memory)
      × ((before : List SysCall) × (call : SysCall) × (calls' ≡ before ++ call ∷ [])
          × ((call ≡ malloc (order_size * pool_size))
              ⊎ (call ≡ numa_alloc_onnode (order_size * pool_size) numa_node)))
unfolding new_pool_on allocate_on_numa_node
new_pool_on-wastes order_size pool_size numa_node memory k calls h =
    let size = order_size * pool_size in
    let (numa, asked) = has_numa k calls in
    elim (Bool-cases (has_numa k calls).0) [
      | inr e ↦ rw (h, e) (refl, (_, _, refl, inl refl))
      | inl e ↦
          elim (Bool-cases (
            eqb_ℤ (k.answer (has_numa k calls).1 (numa_alloc_onnode size numa_node)).value
              (pos 0))) [
                | inl z ↦ rw (h, e, z) (refl, (_, _, refl, inl refl))
                | inr z ↦ rw (h, e, z) (refl, (_, _, refl, inr refl))
              ]
    ]
