-- ===== src/Accounts/Tests/Names.antt =====
-- The names and ports of two class accounts (subaccounts.py).
use ec2_wrappers.Prelude.{◌+◌, ◌≤◌, refl, arith, char_eq, nat_eq}
use ec2_wrappers.Accounts.{proxy_port_base, last_two, port_of}
use ec2_wrappers.Accounts.Names.{IsLower, proxy_port_base_lem}

IsLower-a : IsLower "a"
IsLower-a = record { low = omega arith; high = omega arith }

IsLower-b : IsLower "b"
IsLower-b = record { low = omega arith; high = omega arith }

proxy_port_base_lem_example : (40000 ≤ 40003 + 2) × (40003 + 2 ≤ 42027)
unfolding proxy_port_base last_two port_of
proxy_port_base_lem_example =
    proxy_port_base_lem "cs61c-" "a" "b" 40003 2 IsLower-a IsLower-b refl (omega arith)
