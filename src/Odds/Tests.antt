-- ===== src/Odds/Tests.antt =====
-- Conversions, searches and averages at concrete inputs, in millionths.
use mathlib.Core.List.{Permᴰ}
use sportsbetting.Base.{◌≡◌, ◌⊎◌, refl, arith, String, false, none, some, List, [], ◌∷◌, All}
use sportsbetting.Base.Dict.{Dict}
use sportsbetting.Base.Int.{ℤ, pos, negsuc, ◌+ℤ◌, ◌-ℤ◌}
use sportsbetting.Base.Result.{ok, value_error}
use sportsbetting.Base.Sort.{sort_by}
use sportsbetting.Base.Text.{compare_text}
use sportsbetting.Float.{float, le, lt, abs, ◌≼◌, ◌⊖◌}
use sportsbetting.Float.Fixed.{fixed, fixed-IsFloat}
use sportsbetting.Odds.Convert.{american_to_prob, IsNoPrice, IsProb, american_to_prob_correct}
use sportsbetting.Odds.Bisect.{bisect, IsFound, bisect_correct}
use sportsbetting.Odds.Devig.{multiplicative_devig}
use sportsbetting.Odds.Devig.Sound.{IsMarket, multiplicative_devig_correct}
use sportsbetting.Odds.Consensus.{collect, consensus}
use sportsbetting.Odds.Consensus.Order.{consensus_congr}

-- -110 is 0.523809.
favourite : american_to_prob {F = ℤ} (negsuc 109) ≡ ok (pos 523_809)
unfolding american_to_prob ◌+ℤ◌
favourite = refl

american_to_prob_correct_example :
    (IsNoPrice (negsuc 109) × (american_to_prob {F = ℤ} (negsuc 109) ≡ value_error))
    ⊎ (¬ IsNoPrice (negsuc 109)
        × (p : ℤ) × (american_to_prob (negsuc 109) ≡ ok p)
        × IsProb fixed-IsFloat p)
american_to_prob_correct_example = american_to_prob_correct fixed-IsFloat (negsuc 109)

-- The root of x - 3 between 0 and 5.
abbrev minus_three : ℤ → ℤ
minus_three x = x ⊖ float 3

finds_three : bisect minus_three (pos 5) (float 0) (float 5) ≡ ok (pos 2_999_999)
unfolding bisect ◌+ℤ◌ ◌-ℤ◌
finds_three = refl

bisect_correct_example :
    ((root : ℤ) × (bisect minus_three (pos 5) (float 0) (float 5) ≡ ok root)
      × IsFound minus_three (pos 5) 200 (float 0) (float 5) root)
    ⊎ ((bisect minus_three (pos 5) (float 0) (float 5) ≡ value_error)
        × (le (abs (minus_three (float 0))) (pos 5) ≡ false)
        × (le (abs (minus_three (float 5))) (pos 5) ≡ false)
        × (lt (float 0) (minus_three (float 0)) ≡ lt (float 0) (minus_three (float 5))))
bisect_correct_example = bisect_correct minus_three (pos 5) fixed-IsFloat (float 0) (float 5) refl

abbrev two_way : List ℤ
two_way = pos 523_809 ∷ pos 523_809 ∷ []

two_way-IsMarket : IsMarket two_way
two_way-IsMarket = record { two = omega arith; opens = refl }

multiplicative_devig_correct_example :
    (out : List ℤ) × (multiplicative_devig two_way ≡ ok out)
    × All (λ p. (float 0 ≼ p) × (p ≼ float 1)) out
multiplicative_devig_correct_example =
    multiplicative_devig_correct fixed-IsFloat two_way two_way-IsMarket

abbrev book_weights : Dict ℤ
book_weights = ("pinnacle", float 3) ∷ ("fade", float 0) ∷ []

abbrev quotes : List (String × ℤ)
quotes = ("pinnacle", pos 520_000) ∷ ("espn", pos 500_000) ∷ ("fade", pos 900_000) ∷ []

abbrev reordered : List (String × ℤ)
reordered = ("espn", pos 500_000) ∷ ("pinnacle", pos 520_000) ∷ ("fade", pos 900_000) ∷ []

-- The book with weight 0 is left out, and the books are listed by name.
averages :
    consensus quotes book_weights (float 1) "power" none
    ≡ ok (
        some (record {
          value = pos 515_000;
          method = "power";
          n_books = 2;
          books_used = "espn" ∷ "pinnacle" ∷ [];
          line = none;
          per_book = ("espn", pos 500_000) ∷ ("pinnacle", pos 520_000) ∷ [];
        }))
unfolding consensus collect sort_by compare_text ◌+ℤ◌
averages = refl

consensus_congr_example :
    consensus quotes book_weights (float 1) "power" none
    ≡ consensus reordered book_weights (float 1) "power" none
consensus_congr_example =
    consensus_congr fixed-IsFloat book_weights (float 1) "power" none quotes reordered
      (Permᴰ.swap refl refl)
