-- ===== src/Tests/Calc.antt =====
-- The calculator on -7 by 2.
use eltex_systems.Base.{◌+◌, ◌*◌, ◌%◌, ◌-◌, ◌^◌, ◌<◌, ◌≡◌, refl, ◌⊎◌}
use eltex_systems.Base.Int.{ℤ, pos, negsuc}
use eltex_systems.Calculator.{value, zero_division, undefined, choose}
use eltex_systems.Calculator.Division.{magnitude, choose_division}

choose_division_example :
    ((pos 2 ≡ pos 0) × (choose (pos 4) (negsuc 6) (pos 2) ≡ zero_division))
    ⊎ ((negsuc 6 ≡ negsuc (2 ^ 31 - 1))
        × (pos 2 ≡ negsuc 0)
        × (choose (pos 4) (negsuc 6) (pos 2) ≡ undefined))
    ⊎ ((q : ℤ) × (choose (pos 4) (negsuc 6) (pos 2) ≡ value q)
        × (magnitude (pos 2) * magnitude q + magnitude (negsuc 6) % magnitude (pos 2)
            ≡ magnitude (negsuc 6))
        × (magnitude (negsuc 6) % magnitude (pos 2) < magnitude (pos 2)))
choose_division_example = choose_division (negsuc 6) (pos 2) refl refl
