-- ===== src/LinuxOptimizations/Nodes.antt =====
-- The CPUs of a NUMA node, as libnuma gives them.
use trading_matcher.Base.{
  ℕ, zero, suc, ◌+◌, ◌≤◌, ◌<◌, ◌≡◌, ◌∙◌, ◌↔◌, inl, inr, refl, sym, subst, ap, ℤ, pos, leb_ℤ,
  eqb_ℤ_iff, Bool, Bool-cases, true, false, List, [], ◌∷◌, ◌++◌, if◌then◌else◌, arith,
}
use trading_matcher.LinuxOptimizations.{
  SysCall, Kernel, has_numa, set_bits, get_cpus_on_numa_node, pin_to_first, pin_thread_to_cpu,
  cpus_of_node, query, done, ◌>>=◌, bind_thread_to_numa_node,
}

-- What the loop over the mask finds first.
abbrev pub First : (ℕ → Bool) → ℕ → ℕ → List ℤ → Type 0
First bit i end [] = (c : ℕ) → i ≤ c → c < end → bit c ≡ false
First bit i end (cpu ∷ cpus) =
    (c : ℕ) × (cpu ≡ pos c) × (c < end) × (bit c ≡ true) × ((j : ℕ) → i ≤ j → j < c → bit j ≡ false)

First-earlier :
    (bit : ℕ → Bool) (i end : ℕ) (cpus : List ℤ)
    → bit i ≡ false
    → First bit (i + 1) end cpus
    → First bit i end cpus
First-earlier bit i end [] e f = λ c h k. ground (arith, f c, e)
First-earlier bit i end (cpu ∷ cpus) e (c, same, inside, set, f) =
    (c, same, inside, set, λ j h k. ground (arith, f j, e))

set_bits-First :
    (bit : ℕ → Bool) (i left end : ℕ) → i + left ≡ end → First bit i end (set_bits bit i left)
set_bits-First bit i zero end h = λ c l k. absurd (omega arith)
set_bits-First bit i (suc left) end h = elim (Bool-cases (bit i)) [
  | inl e ↦ rw e (i, refl, omega arith, e, λ j l k. absurd (omega arith))
  | inr e ↦ rw e (
      First-earlier bit i end (set_bits bit (i + 1) left) e
        (set_bits-First bit (i + 1) left end (omega arith)))
]

-- What a binding to a node comes to, from the CPUs of the node: the thread is pinned to the first.
abbrev pub Bound : Kernel → List SysCall → List ℤ → Bool × List SysCall → Type 0
Bound k asked [] (ok, calls) = (ok ≡ false) × (calls ≡ asked)
Bound k asked (cpu ∷ cpus) (ok, calls) =
    (calls ≡ asked ++ SysCall.set_own_affinity cpu ∷ [])
    × ((ok ≡ true) ↔ ((k.answer asked (SysCall.set_own_affinity cpu)).value ≡ pos 0))

pin_to_first-Bound :
    (k : Kernel) (asked : List SysCall) (cpus : List ℤ)
    → Bound k asked cpus (pin_to_first cpus k asked)
unfolding pin_thread_to_cpu
pin_to_first-Bound k asked [] = (refl, refl)
pin_to_first-Bound k asked (cpu ∷ cpus) =
    (refl, eqb_ℤ_iff (k.answer asked (SysCall.set_own_affinity cpu)).value (pos 0))

has_numa-true :
    (k : Kernel) (calls : List SysCall)
    → k.built_with_numa ≡ true
    → leb_ℤ (pos 0) (k.answer calls SysCall.numa_available).value ≡ true
    → has_numa k calls ≡ (true, calls ++ SysCall.numa_available ∷ [])
unfolding has_numa
has_numa-true k calls b a =
    ap
      (λ t.
        (if t
            then (do x ← query SysCall.numa_available; done (leb_ℤ (pos 0) x.value))
            else done false)
          k calls)
      b
    ∙ ap (λ t. (t, calls ++ SysCall.numa_available ∷ [])) a

get_cpus-mask :
    (node_id : ℤ) (k : Kernel) (calls : List SysCall)
    → k.built_with_numa ≡ true
    → leb_ℤ (pos 0) (k.answer calls SysCall.numa_available).value ≡ true
    → let mask =
        k.answer (calls ++ SysCall.numa_available ∷ []) (SysCall.numa_node_to_cpus node_id) in
      mask.value ≡ pos 0
      → get_cpus_on_numa_node node_id k calls ≡ (
        set_bits mask.bit 0 k.possible_cpus,
        calls ++ SysCall.numa_available ∷ [] ++ SysCall.numa_node_to_cpus node_id ∷ [],
      )
unfolding get_cpus_on_numa_node cpus_of_node
get_cpus-mask node_id k calls b a z =
    let asked = calls ++ SysCall.numa_available ∷ [] in
    let mask = k.answer asked (SysCall.numa_node_to_cpus node_id) in
    ap (λ found. cpus_of_node node_id found.0 k found.1) (has_numa-true k calls b a)
    ∙ ap
        (λ t. (
          if t then set_bits mask.bit 0 k.possible_cpus else [],
          asked ++ SysCall.numa_node_to_cpus node_id ∷ [],
        ))
        ((eqb_ℤ_iff mask.value (pos 0)).1 z)

-- With libnuma answering, `bindThreadToNumaNode` asks for the CPUs of the node, and pins the thread to
-- the lowest of them, or fails without pinning it if the node has none.
pub bind_thread_to_numa_node-Bound :
    (node_id : ℤ) (k : Kernel) (calls : List SysCall)
    → k.built_with_numa ≡ true
    → leb_ℤ (pos 0) (k.answer calls SysCall.numa_available).value ≡ true
    → let mask =
        k.answer (calls ++ SysCall.numa_available ∷ []) (SysCall.numa_node_to_cpus node_id) in
      mask.value ≡ pos 0
      → (cpus : List ℤ) × First mask.bit 0 k.possible_cpus cpus
        × Bound k
            (calls ++ SysCall.numa_available ∷ [] ++ SysCall.numa_node_to_cpus node_id ∷ [])
            cpus
            (bind_thread_to_numa_node node_id k calls)
unfolding bind_thread_to_numa_node
bind_thread_to_numa_node-Bound node_id k calls b a z =
    let asked = calls ++ SysCall.numa_available ∷ [] ++ SysCall.numa_node_to_cpus node_id ∷ [] in
    let mask =
      k.answer (calls ++ SysCall.numa_available ∷ []) (SysCall.numa_node_to_cpus node_id) in
    (
      set_bits mask.bit 0 k.possible_cpus,
      set_bits-First mask.bit 0 k.possible_cpus k.possible_cpus (omega arith),
      subst
          (λ found.
            Bound k asked (set_bits mask.bit 0 k.possible_cpus) (pin_to_first found.0 k found.1))
          (sym (get_cpus-mask node_id k calls b a z)) (pin_to_first-Bound k asked _),
    )
