-- ===== src/Scan/Cidr/Hosts.antt =====
-- The expansion of a subnet against its description.
use native.Mathlib.Nat.{div-eq_of_lt-le, div-mul-le_self, lt-div-mul-add, pow-suc}
use verkkokyyla.Prelude.Results.{Result, ok, err}
use verkkokyyla.Prelude.Text.{Text, decimal, parse_uint-decimal}
use verkkokyyla.Prelude.{
  ℕ, zero, suc, ◌+◌, ◌-◌, ◌*◌, ◌/◌, ◌^◌, ◌≤◌, ◌<◌, ◌≡◌, ◌≢◌, ◌↔◌, ◌⊎◌, inl, inr, refl, Bool, true,
  false, List, [], ◌∷◌, ◌++◌, Option, some, arith, length, ltb, leb, ◌==◌, ◌&&◌, if◌then◌else◌,
  Bool-cases,
}
use verkkokyyla.Scan.Cidr.{
  CidrError, range_from, expand, expand_ipv4_cidr, check_prefix, split_once, invalid_prefix,
  range_too_large,
}

abbrev pub contains : ℕ → List ℕ → Bool
contains a [] = false
contains a (x ∷ xs) = if x == a then true else contains a xs

contains-range_from : (a lo n : ℕ) → contains a (range_from lo n) ≡ (leb lo a && ltb a (lo + n))
contains-range_from a lo zero = ground arith
contains-range_from a lo (suc n) = ground (arith, contains-range_from a (lo + 1) n)

length-range_from : (lo n : ℕ) → length (range_from lo n) ≡ n
length-range_from lo zero = refl
length-range_from lo (suc n) = omega (arith, length-range_from (lo + 1) n)

pow_pos : (k : ℕ) → 0 < 2 ^ k
pow_pos zero = omega arith
pow_pos (suc k) = rw (pow-suc 2 k) (omega (arith, pow_pos k))

-- `a` lies in the subnet of `base`, and is neither its first nor its last address.
abbrev pub IsHost : ℕ → ℕ → ℕ → Type 0
IsHost base size a =
    (a / size ≡ base / size) × (a ≢ base / size * size) × (a + 1 ≢ base / size * size + size)

same_block : (a q size : ℕ) → 0 < size → (a / size ≡ q) ↔ ((q * size ≤ a) × (a < q * size + size))
same_block a q size pos = (
  λ e. (rw (← e) (div-mul-le_self a size), rw (← e) (lt-div-mul-add pos)),
  λ h. div-eq_of_lt-le size h.0 (omega (arith, h.1)),
)

-- The hosts between the first and the last address of the block `q`.
between :
    (a q size : ℕ)
    → 2 < size
    → (contains a (range_from (q * size + 1) (size - 2)) ≡ true)
      ↔ ((a / size ≡ q) × (a ≢ q * size) × (a + 1 ≢ q * size + size))
between a q size big =
    let block = same_block a q size (omega (arith, big)) in
    rw (contains-range_from a (q * size + 1) (size - 2)) (
      λ e. (block.1 (ground arith, ground arith), ground arith, ground arith),
      λ h. let b = block.0 h.0 in ground (arith, b.0, b.1, h.1),
    )

contains-expand :
    (base prefix_len a : ℕ)
    → 0 < prefix_len
    → 2 < 2 ^ (32 - prefix_len)
    → (contains a (expand base prefix_len) ≡ true) ↔ IsHost base (2 ^ (32 - prefix_len)) a
unfolding expand
contains-expand base p a pos big =
    let nonzero : (p == 0) ≡ false = ground (arith, pos) in
    let large : leb (2 ^ (32 - p)) 2 ≡ false = ground (arith, big) in
    rw (nonzero, large) (between a (base / 2 ^ (32 - p)) (2 ^ (32 - p)) big)

length-expand : (base p : ℕ) → length (expand base p) ≡ 2 ^ (32 - p) - 2
unfolding expand
length-expand base p = elim (Bool-cases (leb (2 ^ (32 - p)) 2)) [
  | inl e ↦ rw e (ground (arith, e))
  | inr e ↦ rw e (length-range_from _ _)
]

-- A block of one or two addresses has no hosts.
no_hosts :
    (a q size : ℕ) → 0 < size → size ≤ 2 → a / size ≡ q → a ≢ q * size → a + 1 ≢ q * size + size → ⊥
no_hosts a q size pos small e first last =
    let b = (same_block a q size pos).0 e in omega (arith, b.0, b.1, first, last, small, pos)

contains-expand_all :
    (base prefix_len a : ℕ)
    → 0 < prefix_len
    → (contains a (expand base prefix_len) ≡ true) ↔ IsHost base (2 ^ (32 - prefix_len)) a
unfolding expand
contains-expand_all base p a pos = elim (Bool-cases (leb (2 ^ (32 - p)) 2)) [
  | inl e ↦ small e
  | inr e ↦ contains-expand base p a pos (ground (arith, e))
]
  where
    small :
        leb (2 ^ (32 - p)) 2 ≡ true
        → (contains a (expand base p) ≡ true) ↔ IsHost base (2 ^ (32 - p)) a
    small e = rw e (
      λ h. ground (arith, h),
      λ h. absurd (
          no_hosts a (base / 2 ^ (32 - p)) (2 ^ (32 - p)) (pow_pos (32 - p)) (ground (arith, e)) h.0
            h.1 h.2),
    )

-- The text has no `/`.
abbrev pub IsSlashFree : Text → Type 0
IsSlashFree [] = Unit
IsSlashFree (c ∷ cs) = ((c == b'/') ≡ false) × IsSlashFree cs

split_once-slash :
    (addr rest : Text)
    → IsSlashFree addr
    → split_once b'/' (addr ++ b'/' ∷ rest) ≡ some (addr, rest)
split_once-slash [] rest h = refl
split_once-slash (c ∷ cs) rest h = rw (h.0, split_once-slash cs rest h.1) refl

-- What the two tests on a prefix length answer.
abbrev pub IsExpansion : ℕ → ℕ → Result CidrError (List ℕ) → Type 0
IsExpansion base prefix_len answer =
    ((32 < prefix_len) × (answer ≡ err invalid_prefix))
    ⊎ ((prefix_len < 22) × (answer ≡ err (range_too_large prefix_len)))
    ⊎ ((hosts : List ℕ) × (22 ≤ prefix_len)
        × (prefix_len ≤ 32)
        × (answer ≡ ok hosts)
        × (length hosts ≡ 2 ^ (32 - prefix_len) - 2)
        × ((a : ℕ) → (contains a hosts ≡ true) ↔ IsHost base (2 ^ (32 - prefix_len)) a))

check_prefix-IsExpansion :
    (parse_ipv4 : Text → Option ℕ) (base p : ℕ)
    → IsExpansion base p (check_prefix parse_ipv4 base p)
unfolding check_prefix
check_prefix-IsExpansion parse base p = elim (Bool-cases (ltb 32 p)) [
  | inl e ↦ inl (ground (arith, e), rw e refl)
  | inr e ↦ elim (Bool-cases (ltb p 22)) [
    | inl f ↦ inr (inl (ground (arith, f), rw (e, f) refl))
    | inr f ↦ inr (
        inr (
          expand base p,
          ground (arith, f),
          ground (arith, e),
          rw (e, f) refl,
          length-expand base p,
          λ a. contains-expand_all base p a (ground (arith, f)),
        ))
  ]
]

-- The text `addr/prefix_len`, for an address that parses to `base`: a prefix length above 32 or
-- below 22 is refused with its own error; for every other one, and for no other, the answer lists
-- exactly the addresses of the subnet other than its first and its last, each once by the count.
pub expand_ipv4_cidr-IsExpansion :
    (parse_ipv4 : Text → Option ℕ) (addr : Text) (base prefix_len : ℕ)
    → IsSlashFree addr
    → parse_ipv4 addr ≡ some base
    → prefix_len ≤ 255
    → IsExpansion base prefix_len (expand_ipv4_cidr parse_ipv4 (addr ++ b'/' ∷ decimal prefix_len))
unfolding expand_ipv4_cidr
expand_ipv4_cidr-IsExpansion parse addr base p free parsed le =
    rw (split_once-slash addr (decimal p) free, parsed, parse_uint-decimal 255 p le)
      (check_prefix-IsExpansion parse base p)
