-- ===== src/Mapping/Tests.antt =====
-- Ten pairs, the last two of which are added to the Go map.
use oohttp.Base.{ℕ, true, List, [], ◌∷◌, some, ◌≡◌, refl, ◌↔◌, arith, ◌==◌}
use oohttp.Mapping.Finds.{IsDistinct, find-add_all, add_all}
use oohttp.Mapping.{empty_mapping, lookup, find, add, insert, fill}

decides : (a b : ℕ) → (a == b ≡ true) ↔ (a ≡ b)
decides a b = ground arith

abbrev ten : List (ℕ × ℕ)
ten =
    (1, 10)
    ∷ (2, 20)
    ∷ (3, 30)
    ∷ (4, 40)
    ∷ (5, 50)
    ∷ (6, 60)
    ∷ (7, 70)
    ∷ (8, 80)
    ∷ (9, 90)
    ∷ (10, 100)
    ∷ []

ten-IsDistinct : IsDistinct ◌==◌ decides ten
unfolding lookup
ten-IsDistinct = (refl, (refl, (refl, (refl, (refl, (refl, (refl, (refl, (refl, (refl, tt))))))))))

find-add_all_example : find ◌==◌ (add_all ◌==◌ decides empty_mapping ten) 9 ≡ lookup ◌==◌ ten 9
find-add_all_example = find-add_all ◌==◌ decides ten 9 ten-IsDistinct

-- The ninth pair moves all of them to the Go map.
run : (add_all ◌==◌ decides empty_mapping ten).m ≡ some ten
unfolding add_all add insert fill
run = refl
