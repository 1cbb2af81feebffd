-- ===== src/Ping/Loop/Numbers.antt =====
-- The numbers of the probes, and the end of the loop.
use mathlib.Core.Option
use verkkokyyla.Ping.Loop.{LoopProbe, Surroundings, probe_turns, run_probe_loop}
use verkkokyyla.Prelude.Machine.{bump_u64_fits, u64_mod}
use verkkokyyla.Prelude.{
  ℕ, zero, suc, ◌+◌, ◌≤◌, ◌<◌, ◌≡◌, refl, true, List, [], ◌∷◌, Option, some, arith, length,
  if◌then◌else◌, Bool-cases, inl, inr,
}

-- `n` probes, numbered from the one after `seq`.
abbrev pub probes_after : Surroundings → ℕ → ℕ → List LoopProbe
probes_after w seq zero = []
probes_after w seq (suc n) =
    record { seq = seq + 1; result = w.engine (seq + 1) } ∷ probes_after w (seq + 1) n

pub length-probes_after : (w : Surroundings) (seq n : ℕ) → length (probes_after w seq n) ≡ n
length-probes_after w seq zero = refl
length-probes_after w seq (suc n) = omega (arith, length-probes_after w (seq + 1) n)

-- The loop ends with the probes up to some number, below the fuel.
abbrev pub Stops : Surroundings → ℕ → ℕ → Option (List LoopProbe) → Type 0
Stops w seq limit out = (n : ℕ) × (n ≤ limit) × (out ≡ some (probes_after w seq n))

turn-Stops :
    (w : Surroundings) (seq limit : ℕ) (rest : Option (List LoopProbe))
    → Stops w (seq + 1) limit rest
    → Stops w seq
        (suc limit)
        (Option.map (λ ps. record { seq = seq + 1; result = w.engine (seq + 1) } ∷ ps) rest)
turn-Stops w seq limit rest (n, le, e) = (suc n, omega (arith, le), rw e refl)

-- One turn, for what the later turns give.
turn_ends :
    (w : Surroundings) (seq k : ℕ) (rest : Option (List LoopProbe))
    → Stops w (seq + 1) k rest
    → Stops w seq (suc k) (
        if w.stop_set seq
        then some []
        else if w.sink_open (seq + 1)
        then if w.stop_wakes (seq + 1)
          then some (record { seq = seq + 1; result = w.engine (seq + 1) } ∷ [])
          else Option.map (λ ps. record { seq = seq + 1; result = w.engine (seq + 1) } ∷ ps) rest
        else some [])
turn_ends w seq k rest v = elim (Bool-cases (w.stop_set seq)) [
  | inl stop ↦ (0, omega arith, rw stop refl)
  | inr go ↦ elim (Bool-cases (w.sink_open (seq + 1))) [
    | inr shut ↦ (0, omega arith, rw (go, shut) refl)
    | inl taken ↦ elim (Bool-cases (w.stop_wakes (seq + 1))) [
      | inl wakes ↦ (1, omega arith, rw (go, taken, wakes) refl)
      | inr sleeps ↦ rw (go, taken, sleeps) (turn-Stops w seq k rest v)
    ]
  ]
]

probe_turns-Stops :
    (w : Surroundings) (k seq end : ℕ)
    → end ≡ seq + k
    → end + 1 < u64_mod
    → w.stop_set end ≡ true
    → Stops w seq k (probe_turns w (suc k) seq)
unfolding probe_turns
probe_turns-Stops w zero seq end at room h =
    let here : seq ≡ end = omega (arith, at) in rw (here, h) (0, omega arith, refl)
probe_turns-Stops w (suc k) seq end at room h =
    let next = probe_turns-Stops w k (seq + 1) end (omega (arith, at)) room h in
    rw (bump_u64_fits seq (omega (arith, at, room))) (turn_ends w seq k _ next)

-- A loop whose stop flag is set after `k` probes at the latest, fewer than 2^64, ends within k + 1
-- turns. The probes that reach the sink are the engine's answers to 1, 2, … with no gap.
pub run_probe_loop-Stops :
    (w : Surroundings) (k : ℕ)
    → k + 1 < u64_mod
    → w.stop_set k ≡ true
    → Stops w 0 k (run_probe_loop w (suc k))
unfolding run_probe_loop
run_probe_loop-Stops w k room h = probe_turns-Stops w k 0 k (omega arith) room h
