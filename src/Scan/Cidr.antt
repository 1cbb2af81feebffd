-- ===== src/Scan/Cidr.antt =====
-- scan/cidr.rs: the host addresses of a subnet. An IPv4 address is its u32 value; its parser is
-- `Ipv4Addr::from_str` of the standard library, a parameter here.
pub mod Hosts
use verkkokyyla.Prelude.Results.{Result, ok, err, ◌>>=◌}
use verkkokyyla.Prelude.Text.{Text, parse_uint}
use verkkokyyla.Prelude.{
  ℕ, zero, suc, ◌+◌, ◌-◌, ◌*◌, ◌/◌, ◌%◌, ◌^◌, List, [], ◌∷◌, Option, none, some, ltb, leb, ◌==◌,
  if◌then◌else◌,
}
use mathlib.Core.Option

abbrev pub max_prefix_len : ℕ
max_prefix_len = 22

pub data CidrError : Type 0 where
  invalid_format : CidrError
  invalid_prefix : CidrError
  range_too_large : ℕ → CidrError

-- `str::split_once` at the first such code point.
abbrev pub split_once : ℕ → Text → Option (Text × Text)
split_once sep [] = none
split_once sep (c ∷ cs) =
    if c == sep
    then some ([], cs)
    else Option.map (λ parts. (c ∷ parts.0, parts.1)) (split_once sep cs)

abbrev pub or_fail {ℓ} : {E : Type 0} {A : Type ℓ} → Option A → E → Result E A
or_fail none e = err e
or_fail (some a) e = ok a

-- `lo, lo + 1, …`, as many as the second argument says: the range `lo..lo + count`.
abbrev pub range_from : ℕ → ℕ → List ℕ
range_from lo zero = []
range_from lo (suc count) = lo ∷ range_from (lo + 1) count

-- `base & mask`, where the mask `u32::MAX << host_bits` clears the low bits of a u32.
abbrev pub base_and_mask : ℕ → ℕ → ℕ → ℕ
base_and_mask base prefix_len host_bits =
    if prefix_len == 0 then 0 else base / 2 ^ host_bits * 2 ^ host_bits

-- The addresses for a parsed address and a prefix length that passed the checks.
unfoldable pub expand : ℕ → ℕ → List ℕ
expand base prefix_len =
    let host_bits = 32 - prefix_len in
    let network = base_and_mask base prefix_len host_bits in
    let size = 2 ^ host_bits in if leb size 2 then [] else range_from (network + 1) (size - 2)

module _ (parse_ipv4 : Text → Option ℕ) where
  check_prefix : ℕ → ℕ → Result CidrError (List ℕ)
  check_prefix base prefix_len =
      if ltb 32 prefix_len
      then err invalid_prefix
      else if ltb prefix_len max_prefix_len
      then err (range_too_large prefix_len)
      else ok (expand base prefix_len)

  unfoldable pub expand_ipv4_cidr : Text → Result CidrError (List ℕ)
  unfolding check_prefix
  expand_ipv4_cidr cidr = do
    parts ← or_fail (split_once b'/' cidr) invalid_format
    base ← or_fail (parse_ipv4 parts.0) invalid_format
    prefix_len ← or_fail (parse_uint 255 parts.1) invalid_prefix
    check_prefix base prefix_len
