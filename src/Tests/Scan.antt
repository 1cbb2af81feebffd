-- ===== src/Tests/Scan.antt =====
-- The subnet 192.168.1.77/29.
use verkkokyyla.Prelude.Text.{Text, codes, decimal, text_eq}
use verkkokyyla.Prelude.{ℕ, ◌≡◌, refl, Option, none, some, arith, ◌++◌, [], ◌∷◌, if◌then◌else◌}
use verkkokyyla.Scan.Cidr.Hosts.{IsExpansion, expand_ipv4_cidr-IsExpansion}
use verkkokyyla.Scan.Cidr.{expand, expand_ipv4_cidr}

-- A parser that knows one address.
abbrev knows_one : Text → Option ℕ
knows_one text = if text_eq text (codes "192.168.1.77") then some 3232235853 else none

expand_run : expand 3232235853 30 ≡ 3232235853 ∷ 3232235854 ∷ []
unfolding expand
expand_run = refl

expand_ipv4_cidr-IsExpansion_example :
    IsExpansion 3232235853 29
      (expand_ipv4_cidr knows_one (codes "192.168.1.77" ++ b'/' ∷ decimal 29))
expand_ipv4_cidr-IsExpansion_example =
    expand_ipv4_cidr-IsExpansion knows_one (codes "192.168.1.77") 3232235853 29
      (
        refl,
        (refl, (refl, (refl, (refl, (refl, (refl, (refl, (refl, (refl, (refl, (refl, tt))))))))))),
      )
      refl (omega arith)
