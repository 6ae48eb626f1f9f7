-- ===== src/Money/Tests.antt =====
-- The functions of poolMath.ts on concrete amounts.
use lucky_scratch.Prelude.{◌≡◌, refl}
use lucky_scratch.Money.{compute_bond_requirement_micro}

bond_test : compute_bond_requirement_micro 300000001500000000 ≡ 345000001500000000
unfolding compute_bond_requirement_micro
bond_test = refl
