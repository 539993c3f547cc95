-- ===== src/Matching/Match/Nearest.antt =====
-- What the loop over the candidate games finds, and that the two lists of the page add up.
use mathlib.Core.List.{Memᴰ}
use sportsbetting.Base.{
  ℕ, ◌≤◌, ◌≡◌, ◌⊎◌, inl, inr, refl, sym, ap, ◌∙◌, arith, String, true, false, Option, none, some,
  List, [], ◌∷◌, if◌then◌else◌, Bool-cases, Option-cases, All,
}
use sportsbetting.Matching.Match.{
  BookGame, found, Best, distance, closer, within_league_window, look, nearest, outcome_of,
  match_among,
}

some_inj {ℓ} : {A : Type ℓ} {a b : A} → some a ≡ some b → a ≡ b
some_inj h = cc

module _ (game_day : ℕ → ℕ) (league : String) (start window : ℕ) where
  -- How far a game is, if the windows of the caller and of the league let it in.
  abbrev pub reach_of : BookGame → Option ℕ
  reach_of game = elim game.commence_time [
    | none ↦ none
    | some commence ↦
        if within_league_window game_day league start commence window
        then some (distance commence start)
        else none
  ]

  -- A game that is out of reach or not nearer than `delta`.
  abbrev pub IsNoNearer : ℕ → BookGame → Type 0
  IsNoNearer delta game =
      (reach_of game ≡ none) ⊎ ((other : ℕ) × (reach_of game ≡ some other) × (delta ≤ other))

  abbrev better : BookGame → Option ℕ → Option (BookGame × ℕ) → Option (BookGame × ℕ)
  better game none best = best
  better game (some delta) best = if closer best delta then some (game, delta) else best

  look-better :
      (game : BookGame) (best : Best)
      → (look game_day league start window game best).0 ≡ better game (reach_of game) best.0
  look-better game best = elim (Option-cases game.commence_time) [
    | inl unknown ↦ rw unknown refl
    | inr (commence, known) ↦
        elim (Bool-cases (within_league_window game_day league start commence window)) [
          | inl near ↦ rw (known, near) refl
          | inr far ↦ rw (known, far) refl
        ]
  ]

  -- The best game so far is at least as far.
  abbrev IsNoWorse : Option (BookGame × ℕ) → ℕ → Type 0
  IsNoWorse best delta =
      (best ≡ none) ⊎ ((g : BookGame) × (d : ℕ) × (best ≡ some (g, d)) × (delta ≤ d))

  abbrev IsFrom : List BookGame → Option (BookGame × ℕ) → BookGame → ℕ → Type 0
  IsFrom games best g d = (best ≡ some (g, d)) ⊎ (Memᴰ g games × (reach_of g ≡ some d))

  -- What the loop over `games` makes of the best game so far.
  data IsWinner (games : List BookGame) (best : Option (BookGame × ℕ))
      (after : Option (BookGame × ℕ)) : Type 0 where
    nobody :
        after ≡ none → best ≡ none → All (λ h. reach_of h ≡ none) games → IsWinner games best after
    somebody :
        (g : BookGame) (d : ℕ)
        → after ≡ some (g, d)
        → IsFrom games best g d
        → IsNoWorse best d
        → All (IsNoNearer d) games
        → IsWinner games best after

  pass :
      {game : BookGame} {games : List BookGame} {best after : Option (BookGame × ℕ)}
      → reach_of game ≡ none
      → IsWinner games best after
      → IsWinner (game ∷ games) best after
  pass h (nobody a b all) = nobody a b (h, all)
  pass h (somebody g d a (inl e) w all) = somebody g d a (inl e) w (inl h, all)
  pass h (somebody g d a (inr (m, r)) w all) = somebody g d a (inr (Memᴰ.tail m, r)) w (inl h, all)

  at_most : {game : BookGame} {delta d : ℕ} → IsNoWorse (some (game, delta)) d → d ≤ delta
  at_most (inl e) = cc
  at_most {game} {delta} (inr (g, bound, e, le)) =
      let e' : (game, delta) ≡ (g, bound) = some_inj e in
      let same : delta ≡ bound = ap (λ p. p.1) e' in omega (arith, same, le)

  no_worse :
      (best : Option (BookGame × ℕ)) {delta d : ℕ}
      → closer best delta ≡ true
      → d ≤ delta
      → IsNoWorse best d
  no_worse none c h = inl refl
  no_worse (some (g, bound)) c h = inr (g, bound, refl, ground (arith, c, h))

  take_over :
      {game : BookGame} {games : List BookGame} {best after : Option (BookGame × ℕ)} {delta : ℕ}
      → reach_of game ≡ some delta
      → closer best delta ≡ true
      → IsWinner games (some (game, delta)) after
      → IsWinner (game ∷ games) best after
  take_over h c (nobody a b all) = cc
  take_over {game = game} {games = games} {best = best} {delta = delta} h c
        (somebody g d a from w all) =
      let d_le : d ≤ delta = at_most w in
      somebody g d a (origin from) (no_worse best c d_le) (inr (delta, h, d_le), all)
    where
      origin : IsFrom games (some (game, delta)) g d → IsFrom (game ∷ games) best g d
      origin (inl e) =
          let e' : (game, delta) ≡ (g, d) = some_inj e in
          let same : game ≡ g = ap (λ p. p.0) e' in
          let near : delta ≡ d = ap (λ p. p.1) e' in
          inr (Memᴰ.head (sym same), rw (← same, ← near) h)
      origin (inr (m, r)) = inr (Memᴰ.tail m, r)

  stay :
      {game : BookGame} {games : List BookGame} {best after : Option (BookGame × ℕ)} {delta : ℕ}
      → reach_of game ≡ some delta
      → closer best delta ≡ false
      → IsWinner games best after
      → IsWinner (game ∷ games) best after
  stay {best = none} h c winner = cc
  stay {best = some (g₁, d₁)} h c (nobody a b all) = cc
  stay {game = game} {games = games} {best = some (g₁, d₁)} {delta = delta} h c
        (somebody g d a from w all) =
      let d_le : d ≤ d₁ = at_most w in
      somebody g d a (later from) w (inr (delta, h, ground (arith, d_le, c)), all)
    where
      later : IsFrom games (some (g₁, d₁)) g d → IsFrom (game ∷ games) (some (g₁, d₁)) g d
      later (inl e) = inl e
      later (inr (m, r)) = inr (Memᴰ.tail m, r)

  nearest-IsWinner :
      (games : List BookGame) (best : Best)
      → IsWinner games best.0 (nearest game_day league start window games best).0
  unfolding nearest
  nearest-IsWinner [] best = elim (Option-cases best.0) [
    | inl empty ↦ nobody empty empty tt
    | inr ((g, d), full) ↦ somebody g d full (inl full) (inr (g, d, full, omega arith)) tt
  ]
  nearest-IsWinner (game ∷ games) best =
      let best₁ = look game_day league start window game best in
      let ih = nearest-IsWinner games best₁ in
      let step = look-better game best in
      elim (Option-cases (reach_of game)) [
        | inl out ↦ let same : best₁.0 ≡ best.0 = rw out at step in pass out (rw same at ih)
        | inr (delta, inside) ↦ elim (Bool-cases (closer best.0 delta)) [
          | inl nearer ↦
              let same : best₁.0 ≡ some (game, delta) = rw (inside, nearer) at step in
              take_over inside nearer (rw same at ih)
          | inr farther ↦
              let same : best₁.0 ≡ best.0 = rw (inside, farther) at step in
              stay inside farther (rw same at ih)
        ]
      ]

  -- A market with a start time is matched with a nearest game: one of the candidates within the
  -- windows, such that every other candidate is out of reach or at least as far away.
  pub match_among_nearest :
      (games : List BookGame) {game : BookGame}
      → match_among game_day league (some start) window games ≡ found game
      → Memᴰ game games × (delta : ℕ) × (reach_of game ≡ some delta) × All (IsNoNearer delta) games
  match_among_nearest [] h = cc
  match_among_nearest (first ∷ games) {game} h =
      result (nearest game_day league start window (first ∷ games) (none, false))
        (nearest-IsWinner (first ∷ games) (none, false)) h
    where
      result :
          (best : Best)
          → IsWinner (first ∷ games) none best.0
          → outcome_of game_day best ≡ found game
          → Memᴰ game (first ∷ games)
            × (delta : ℕ) × (reach_of game ≡ some delta)
            × All (IsNoNearer delta) (first ∷ games)
      result (none, in_window) winner e = cc
      result (some (g, d), in_window) (nobody a b all) e = cc
      result (some (g, d), in_window) (somebody g₁ d₁ a (inl none_before) w all) e = cc
      result (some (g, d), in_window) (somebody g₁ d₁ a (inr (m, r)) w all) e =
          let same₁ : (g, d) ≡ (g₁, d₁) = some_inj a in
          let same₂ : g ≡ game = cc in
          let same : game ≡ g₁ = sym same₂ ∙ ap (λ p. p.0) same₁ in (rw same m, d₁, rw same r, all)
