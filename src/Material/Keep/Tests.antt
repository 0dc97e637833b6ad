-- ===== src/Material/Keep/Tests.antt =====
-- A kept fraction of a half.
use fallingsand.Prelude.{◌≤◌, ◌≡◌, arith}
use fallingsand.Prelude.Int.{negsuc, neg, magnitude}
use fallingsand.Material.{apply}
use fallingsand.Material.Keep.{apply-le}

apply-le_example :
    (magnitude (apply 32_768 (negsuc 100)) ≤ magnitude (negsuc 100))
    × (apply 32_768 (neg (negsuc 100)) ≡ neg (apply 32_768 (negsuc 100)))
apply-le_example = apply-le 32_768 (negsuc 100) (omega arith) (omega arith)
