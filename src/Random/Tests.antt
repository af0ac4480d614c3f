-- ===== src/Random/Tests.antt =====
-- Small runs of src/random.c, and its theorems at an input.
use scubed.Base.{◌+◌, ◌*◌, ◌/◌, ◌%◌, ◌^◌, ◌≡◌, refl, [], ◌∷◌, some, arith, ltb, if◌then◌else◌}
use scubed.Random.{limit, draw, random_custom}
use scubed.Random.Uniform.{limit_lem, random_custom_lem}

-- 2 ^ 32 is 1 more than a multiple of 3: only the largest word is skipped.
skips_the_last : random_custom (0xFFFFFFFF ∷ 7 ∷ []) 3 ≡ some (1, [])
unfolding random_custom draw limit
skips_the_last = refl

limit_lem_example : limit 13 + 1 ≡ 13 * (2 ^ 32 / 13)
limit_lem_example = limit_lem 13 (omega arith) (omega arith)

random_custom_lem_example :
    random_custom (100 ∷ []) 13
    ≡ (if ltb (100 / 13) (2 ^ 32 / 13) then some (100 % 13, []) else random_custom [] 13)
random_custom_lem_example = random_custom_lem 13 100 [] (omega arith) (omega arith)
