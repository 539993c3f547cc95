-- ===== src/Matching/Fair/Sides.antt =====
-- The two sides of one bet, described by the market and the book's outcomes alone, and that
-- `_pair_for_book` finds such a pair in a book exactly where there is one.
use mathlib.Core.List.{Memᴰ}
use sportsbetting.Base.{
  ◌≡◌, ◌≢◌, ◌⊎◌, ◌↔◌, inl, inr, refl, sym, ap, ◌∙◌, arith, String, Bool, true, false, Option, none,
  some, List, [], ◌∷◌, str_eq, str_eq_refl, eq_iff, Bool-cases, Option-cases, and_true,
}
use sportsbetting.Base.Words.{strip, lower}
use sportsbetting.Float.{Float, decimal, ◌⊖◌, ◌≺◌, abs, neg}
use sportsbetting.Edge.Types.{PmMarket, PmOutcome, MarketType, moneyline, spread, total}
use sportsbetting.Matching.Match.{BookGame}
use sportsbetting.Matching.Names.{normalize_name, first_word}
use sportsbetting.Matching.Fair.{
  BookOutcome, BookMarket, BookQuote, opposite_side, find_first, both, total_side, opp_key_of,
  is_team, same_point, on_team_at, on_side, required_point,
}

-- The key under which a book lists the bets of a type.
abbrev pub IsKey : MarketType → String → Type 0
IsKey moneyline key = key ≡ "h2h"
IsKey spread key = key ≡ "spreads"
IsKey total key = key ≡ "totals"

-- The two sides of a total.
abbrev pub AreSides : String → String → Type 0
AreSides this opp = ((this ≡ "over") × (opp ≡ "under")) ⊎ ((this ≡ "under") × (opp ≡ "over"))

pub is_team_iff : (team : String) (k : Option String) → is_team team k ≡ true ↔ k ≡ some team
is_team_iff team none = (λ h. cc, λ h. cc)
is_team_iff team (some key) =
    (λ h. ap some ((eq_iff key team).0 h), λ h. ground (arith, h, eq_iff key team))

module _ {F : Type 0} where
  -- A book offers an outcome: one of its markets of that type lists it.
  abbrev pub IsOffered : MarketType → BookQuote F → BookOutcome F → Type 0
  IsOffered kind quote o =
      (m : BookMarket F) × Memᴰ m quote.markets × IsKey kind m.key × Memᴰ o m.outcomes

  -- The key of the other team: the other outcome's, or the other one of the game.
  abbrev pub IsOpponent : String → PmOutcome F → BookGame → String → Type 0
  IsOpponent key other game opp =
      (other.team_key ≡ some opp)
      ⊎ ((other.team_key ≡ none) × (key ≡ game.home_team_key) × (opp ≡ game.away_team_key))
      ⊎ ((other.team_key ≡ none) × (key ≢ game.home_team_key) × (opp ≡ game.home_team_key))

module _ {F : Type 0} ⦃fl : Float F⦄ where
  -- The outcome stands at this point, to nine decimals.
  abbrev pub IsAt : F → BookOutcome F → Type 0
  IsAt point o = (p : F) × (o.point ≡ some p) × (abs (p ⊖ point) ≺ decimal 1 9)

  -- The points that a team gets at the market's line: the line where the line is this team's, its
  -- negative where the line is the other team's.
  abbrev pub IsPoint : PmMarket F → String → PmOutcome F → F → Type 0
  IsPoint market key other point =
      (line : F) × (team : String) × (market.line ≡ some line)
      × (market.line_team_key ≡ some team)
      × (((team ≡ key) × (point ≡ line))
          ⊎ ((team ≢ key)
              × ((other.team_key ≡ none) ⊎ (other.team_key ≡ some team))
              × (point ≡ neg line)))

  -- The two sides of one bet at the market's line: the two teams, the two teams at mirrored points, or
  -- over and under at one total.
  abbrev pub IsOpposed :
      MarketType
      → PmMarket F
      → PmOutcome F
      → PmOutcome F
      → BookGame
      → BookOutcome F
      → BookOutcome F
      → Type 0
  IsOpposed moneyline market outcome other game this opp =
      (key opp_key : String) × (outcome.team_key ≡ some key)
      × IsOpponent key other game opp_key
      × (this.team_key ≡ some key)
      × (opp.team_key ≡ some opp_key)
  IsOpposed spread market outcome other game this opp =
      (key opp_key : String) × (point : F) × (outcome.team_key ≡ some key)
      × IsOpponent key other game opp_key
      × IsPoint market key other point
      × (this.team_key ≡ some key)
      × IsAt point this
      × (opp.team_key ≡ some opp_key)
      × IsAt (neg point) opp
  IsOpposed total market outcome other game this opp =
      (side opp_side : String) × (line : F) × (first_word (normalize_name outcome.name) ≡ side)
      × AreSides side opp_side
      × (market.line ≡ some line)
      × (lower (strip this.name) ≡ side)
      × IsAt line this
      × (lower (strip opp.name) ≡ opp_side)
      × IsAt line opp

  same_point_iff :
      (point : F) (a : Option F)
      → same_point a (some point) ≡ true
        ↔ ((p : F) × (a ≡ some p) × (abs (p ⊖ point) ≺ decimal 1 9))
  same_point_iff point none = (λ h. cc, λ (p, e, h). cc)
  same_point_iff point (some x) =
      (λ h. (x, refl, h), λ (p, e, h). let same : x ≡ p = cc in rw same h)

  pub on_team_at_iff :
      (team : String) (point : F) (o : BookOutcome F)
      → on_team_at team point o ≡ true ↔ (o.team_key ≡ some team) × IsAt point o
  on_team_at_iff team point o = (
    λ h.
        let (t, p) = and_true (is_team team o.team_key) (same_point o.point (some point)) h in
        ((is_team_iff team o.team_key).0 t, (same_point_iff point o.point).0 p),
    λ (t, p). rw ((is_team_iff team o.team_key).1 t, (same_point_iff point o.point).1 p) refl,
  )

  pub on_side_iff :
      (side : String) (point : F) (o : BookOutcome F)
      → on_side side point o ≡ true ↔ (lower (strip o.name) ≡ side) × IsAt point o
  on_side_iff side point o = (
    λ h.
        let (t, p) =
          and_true (str_eq (lower (strip o.name)) side) (same_point o.point (some point)) h in
        ((eq_iff (lower (strip o.name)) side).0 t, (same_point_iff point o.point).0 p),
    λ (t, p). rw (t, str_eq_refl side, (same_point_iff point o.point).1 p) refl,
  )

  -- What a search finds is in the list and passes the test; a search that fails had nothing to find.
  find_first-found :
      (test : BookOutcome F → Bool) (os : List (BookOutcome F)) {o : BookOutcome F}
      → find_first test os ≡ some o
      → Memᴰ o os × (test o ≡ true)
  find_first-found test [] e = cc
  find_first-found test (x ∷ os) {o} e = elim (Bool-cases (test x)) [
    | inl it ↦
        let e' : some x ≡ some o = rw it at e in
        let same : o ≡ x = cc in (Memᴰ.head same, rw same it)
    | inr other ↦ let (m, t) = find_first-found test os (rw other at e) in (Memᴰ.tail m, t)
  ]

  find_first-fails :
      (test : BookOutcome F → Bool) (os : List (BookOutcome F)) {o : BookOutcome F}
      → Memᴰ o os
      → test o ≡ true
      → find_first test os ≢ none
  find_first-fails test [] m t e = elim m [ ]
  find_first-fails test (x ∷ os) {o} (Memᴰ.head same) t e =
      let here : test x ≡ true = rw (← same) t in let e' : some x ≡ none = rw here at e in cc
  find_first-fails test (x ∷ os) {o} (Memᴰ.tail m) t e = elim (Bool-cases (test x)) [
    | inl it ↦ let e' : some x ≡ none = rw it at e in cc
    | inr other ↦ find_first-fails test os m t (rw other at e)
  ]

  pub both-found :
      (s t : BookOutcome F → Bool) (os : List (BookOutcome F)) {this opp : BookOutcome F}
      → both (find_first s os) (find_first t os) ≡ some (this, opp)
      → (Memᴰ this os × (s this ≡ true)) × (Memᴰ opp os × (t opp ≡ true))
  both-found s t os {this} {opp} e =
      let (first, second) = split (find_first s os) (find_first t os) e in
      (find_first-found s os first, find_first-found t os second)
    where
      split :
          (a b : Option (BookOutcome F))
          → both a b ≡ some (this, opp)
          → (a ≡ some this) × (b ≡ some opp)
      split (some x) (some y) e = (ground (arith, e), ground (arith, e))
      split (some x) none e = cc
      split none b e = cc

  pub both-fails :
      (s t : BookOutcome F → Bool) (os : List (BookOutcome F)) {this opp : BookOutcome F}
      → both (find_first s os) (find_first t os) ≡ none
      → Memᴰ this os
      → Memᴰ opp os
      → s this ≡ true
      → t opp ≡ true
      → ⊥
  both-fails s t os e m n p q =
      split (find_first s os) (find_first t os) e (find_first-fails s os m p)
        (find_first-fails t os n q)
    where
      split : (a b : Option (BookOutcome F)) → both a b ≡ none → a ≢ none → b ≢ none → ⊥
      split (some x) (some y) e h k = cc
      split (some x) none e h k = k refl
      split none b e h k = h refl

  pub opp_key_of-IsOpponent :
      (key : String) (other : PmOutcome F) (game : BookGame)
      → IsOpponent key other game (opp_key_of key other.team_key game)
  opp_key_of-IsOpponent key other game = by_key other.team_key refl
    where
      by_key :
          (k : Option String)
          → other.team_key ≡ k
          → IsOpponent key other game (opp_key_of key k game)
      by_key (some k) e = inl e
      by_key none e = elim (Bool-cases (str_eq key game.home_team_key)) [
        | inl home ↦ rw home (inr (inl (e, (eq_iff key game.home_team_key).0 home, refl)))
        | inr away ↦
            rw away (inr (inr (e, ground (arith, away, eq_iff key game.home_team_key), refl)))
      ]

  pub IsOpponent-opp_key_of :
      (key : String) (other : PmOutcome F) (game : BookGame) {opp : String}
      → IsOpponent key other game opp
      → opp_key_of key other.team_key game ≡ opp
  IsOpponent-opp_key_of key other game (inl e) = rw e refl
  IsOpponent-opp_key_of key other game (inr (inl (e, home, o))) =
      rw (e, home, str_eq_refl game.home_team_key) (sym o)
  IsOpponent-opp_key_of key other game (inr (inr (e, away, o))) =
      let no : str_eq key game.home_team_key ≡ false =
        ground (arith, away, eq_iff key game.home_team_key) in
      rw (e, no) (sym o)

  pub required_point-IsPoint :
      (market : PmMarket F) (key : String) (other : PmOutcome F) {point : F}
      → required_point key other.team_key market.line market.line_team_key ≡ some point
      → IsPoint market key other point
  required_point-IsPoint market key other {point} e = elim (Option-cases market.line) [
    | inl nothing ↦ let e' : none ≡ some point = rw nothing at e in cc
    | inr (line, is_line) ↦ elim (Option-cases market.line_team_key) [
      | inl nobody ↦ let e' : none ≡ some point = rw (is_line, nobody) at e in cc
      | inr (team, is_team) ↦ elim (Bool-cases (str_eq team key)) [
        | inl own ↦
            let e' : some line ≡ some point = rw (is_line, is_team, own) at e in
            (line, team, is_line, is_team, inl ((eq_iff team key).0 own, cc))
        | inr theirs ↦ elim (Option-cases other.team_key) [
          | inl unknown ↦
              let e' : some (neg line) ≡ some point = rw (is_line, is_team, theirs, unknown) at e in
              (
                line,
                team,
                is_line,
                is_team,
                inr (ground (arith, theirs, eq_iff team key), inl unknown, cc),
              )
          | inr (k, known) ↦ elim (Bool-cases (str_eq team k)) [
            | inl same ↦
                let e' : some (neg line) ≡ some point =
                  rw (is_line, is_team, theirs, known, same) at e in
                let here : team ≡ k = (eq_iff team k).0 same in
                (
                  line,
                  team,
                  is_line,
                  is_team,
                  inr (ground (arith, theirs, eq_iff team key), inr (rw here known), cc),
                )
            | inr foreign ↦
                let e' : none ≡ some point = rw (is_line, is_team, theirs, known, foreign) at e in
                cc
          ]
        ]
      ]
    ]
  ]

  pub IsPoint-required_point :
      (market : PmMarket F) (key : String) (other : PmOutcome F) {point : F}
      → IsPoint market key other point
      → required_point key other.team_key market.line market.line_team_key ≡ some point
  IsPoint-required_point market key other (line, team, l, t, inl (own, p)) =
      rw (l, t, own, str_eq_refl key) (ap some (sym p))
  IsPoint-required_point market key other (line, team, l, t, inr (theirs, whose, p)) =
      let no : str_eq team key ≡ false = ground (arith, theirs, eq_iff team key) in
      elim whose [
        | inl unknown ↦ rw (l, t, no, unknown) (ap some (sym p))
        | inr known ↦ rw (l, t, no, known, str_eq_refl team) (ap some (sym p))
      ]

  pub total_side-AreSides :
      (outcome : PmOutcome F) {side : String}
      → total_side outcome ≡ some side
      → (first_word (normalize_name outcome.name) ≡ side) × AreSides side (opposite_side side)
  unfolding total_side
  total_side-AreSides outcome {side} e =
      let word = first_word (normalize_name outcome.name) in
      elim (Bool-cases (str_eq word "over")) [
        | inl over ↦
            let e' : some word ≡ some side = rw over at e in
            let same : word ≡ side = cc in
            let here : side ≡ "over" = sym same ∙ (eq_iff word "over").0 over in
            (same, rw here (inl (refl, refl)))
        | inr not_over ↦ elim (Bool-cases (str_eq word "under")) [
          | inl under ↦
              let e' : some word ≡ some side = rw (not_over, under) at e in
              let same : word ≡ side = cc in
              let here : side ≡ "under" = sym same ∙ (eq_iff word "under").0 under in
              (same, rw here (inr (refl, refl)))
          | inr neither ↦ let e' : none ≡ some side = rw (not_over, neither) at e in cc
        ]
      ]

  pub AreSides-total_side :
      (outcome : PmOutcome F) {side opp : String}
      → first_word (normalize_name outcome.name) ≡ side
      → AreSides side opp
      → (total_side outcome ≡ some side) × (opposite_side side ≡ opp)
  unfolding total_side
  AreSides-total_side outcome w (inl (over, under)) =
      let here : first_word (normalize_name outcome.name) ≡ "over" = w ∙ over in
      (rw (here, over) refl, rw (over, under) refl)
  AreSides-total_side outcome w (inr (under, over)) =
      let here : first_word (normalize_name outcome.name) ≡ "under" = w ∙ under in
      (rw (here, under) refl, rw (under, over) refl)
