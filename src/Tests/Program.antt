-- ===== src/Tests/Program.antt =====
-- A run of `main` of CRUSH_Research.
use my_ceph.Common.{ℕ, refl, List, ℤ}
use my_ceph.Drivers.Correct.{init2_fuel}
use my_ceph.Program.{crush_main}
use my_ceph.Program.Completes.{Completes, crush_main-Completes}
use my_ceph.Tests.Run.{zeros}

-- Every new array holds 0.
abbrev all_zeros : ℕ → ℕ → List ℤ
all_zeros d i = zeros

crush_main-Completes_example : Completes (crush_main init2_fuel all_zeros)
crush_main-Completes_example = crush_main-Completes all_zeros (λ d i. refl)
