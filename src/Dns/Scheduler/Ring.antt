-- ===== src/Dns/Scheduler/Ring.antt =====
-- The bounds of a run and the content of its ring.
use verkkokyyla.Dns.Scheduler.{Sample, World, start_queries, push_sample}
use verkkokyyla.Prelude.{
  ℕ, zero, suc, ◌+◌, ◌-◌, ◌≤◌, ◌<◌, ◌≡◌, refl, ap, true, false, List, [], ◌∷◌, ◌++◌, arith, length,
  ltb, leb, Bool-cases, ◌⊎◌, inl, inr, min,
}

-- The inner loop moves queries from those that remain to those in flight, up to the bound.
pub start_queries_bound :
    {L : Type 0} (world : World L) (turn c r f : ℕ)
    → f ≤ c
    → ((start_queries world turn c r f).1 ≤ c)
      × ((start_queries world turn c r f).0 + (start_queries world turn c r f).1 ≡ r + f)
      × (f ≤ (start_queries world turn c r f).1)
unfolding start_queries
start_queries_bound world turn c zero f h = ground (arith, h)
start_queries_bound world turn c (suc r) f h =
    ground (arith, h, start_queries_bound world turn c r (f + 1))

-- With no cancellation the inner loop stops only for want of queries or at the bound.
pub start_queries_full :
    {L : Type 0} (world : World L) (turn c r f : ℕ)
    → ((n : ℕ) → world.is_cancelled turn n ≡ false)
    → ((start_queries world turn c r f).0 ≡ 0) ⊎ (c ≤ (start_queries world turn c r f).1)
unfolding start_queries
start_queries_full world turn c zero f h = inl refl
start_queries_full world turn c (suc r) f h = elim (Bool-cases (ltb f c)) [
  | inl e ↦ rw (e, h f) (start_queries_full world turn c r (f + 1) h)
  | inr e ↦ rw e (inr (ground (arith, e)))
]

-- `n` of the values `s lo, s (lo + 1), …`.
abbrev pub range_of : {A : Type 0} → (ℕ → A) → ℕ → ℕ → List A
range_of s lo zero = []
range_of s lo (suc n) = s lo ∷ range_of s (lo + 1) n

range_of-snoc :
    {A : Type 0} (s : ℕ → A) (lo n end : ℕ)
    → end ≡ lo + n
    → range_of s lo n ++ s end ∷ [] ≡ range_of s lo (suc n)
range_of-snoc s lo zero end e = ap (λ k. s k ∷ []) (omega (arith, e))
range_of-snoc s lo (suc n) end e =
    ap (λ xs. s lo ∷ xs) (range_of-snoc s (lo + 1) n end (omega (arith, e)))

pub length-range_of : {A : Type 0} (s : ℕ → A) (lo n : ℕ) → length (range_of s lo n) ≡ n
length-range_of s lo zero = refl
length-range_of s lo (suc n) = omega (arith, length-range_of s (lo + 1) n)

-- The latest `limit` of the first `count` values, all of them when there are fewer.
abbrev pub latest : {A : Type 0} → (ℕ → A) → ℕ → ℕ → List A
latest s limit count = range_of s (count - limit) (min count limit)

push_full :
    {L : Type 0} (s : ℕ → Sample L) (k count : ℕ)
    → leb (suc k) count ≡ true
    → push_sample (suc k) (s count) (latest s (suc k) count) (ltb (suc k) count)
      ≡ (latest s (suc k) (count + 1), ltb (suc k) (count + 1))
unfolding push_sample
push_full s k count full =
    let have : min count (suc k) ≡ suc k = ground (arith, full) in
    let have_next : min (count + 1) (suc k) ≡ suc k = ground (arith, full) in
    let low_next : count + 1 - suc k ≡ count - suc k + 1 = ground (arith, full) in
    let size : leb (suc k) (length (range_of s (count - suc k) (suc k))) ≡ true =
      ground (arith, length-range_of s (count - suc k) (suc k)) in
    let over : ltb (suc k) (count + 1) ≡ true = ground (arith, full) in
    rw (have, have_next, low_next, size, over)
      (ap (λ xs. (xs, true)) (range_of-snoc s (count - suc k + 1) k count (ground (arith, full))))

push_free :
    {L : Type 0} (s : ℕ → Sample L) (limit count : ℕ)
    → leb limit count ≡ false
    → push_sample limit (s count) (latest s limit count) (ltb limit count)
      ≡ (latest s limit (count + 1), ltb limit (count + 1))
unfolding push_sample
push_free s limit count free =
    let size : length (latest s limit count) ≡ count =
      ground (arith, free, length-range_of s (count - limit) (min count limit)) in
    let low : count - limit ≡ 0 = ground (arith, free) in
    let low_next : count + 1 - limit ≡ 0 = ground (arith, free) in
    let have : min count limit ≡ count = ground (arith, free) in
    let have_next : min (count + 1) limit ≡ suc count = ground (arith, free) in
    let b : ltb limit (count + 1) ≡ ltb limit count = ground (arith, free) in
    rw (size, free, have, have_next, low, low_next, b)
      (ap (λ xs. (xs, ltb limit count)) (range_of-snoc s 0 count count (omega arith)))

-- A new sample takes the place of the oldest one when the ring is full.
pub push_sample-latest :
    {L : Type 0} (s : ℕ → Sample L) (limit count : ℕ)
    → 0 < limit
    → push_sample limit (s count) (latest s limit count) (ltb limit count)
      ≡ (latest s limit (count + 1), ltb limit (count + 1))
push_sample-latest s zero count pos = elim pos [ ]
push_sample-latest s (suc k) count pos = elim (Bool-cases (leb (suc k) count)) [
  | inl full ↦ push_full s k count full
  | inr free ↦ push_free s (suc k) count free
]
