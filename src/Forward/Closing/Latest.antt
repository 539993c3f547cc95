-- ===== src/Forward/Closing/Latest.antt =====
-- What `capture_closing` writes for one market: the ask of the latest sample of each token.
use mathlib.Core.Path.{subst}
use mathlib.Core.List.{Memᴰ}
use sportsbetting.Base.{
  ℕ, suc, ◌≤◌, ◌≡◌, ◌⊎◌, inl, inr, refl, sym, arith, String, Bool, true, false, none, List, [], ◌∷◌,
  str_eq, eq_iff, leb, ◌==◌, Bool-cases, Option-cases, All, ◌∙◌,
}
use sportsbetting.Base.Group.{
  Groups, group_by, gather, with_key, IsGrouped, group_by-IsGrouped, gather-group_by_nil,
}
use sportsbetting.Base.Member.{
  All_look, filter-Mem, Mem-filter, filter-IsSorted, Mem-sort_by, sort_by-Mem, gather-own,
  gather-Mem,
}
use sportsbetting.Base.Sort.{IsSorted, sort_by-IsSorted}
use sportsbetting.Float.{Float}
use sportsbetting.Forward.Record.{ForwardSample}
use sportsbetting.Forward.Closing.{is_open, has_id, last_ask, by_time, in_market, capture_closing}
use sportsbetting.Forward.Closing.Pass.{IsLast, IsOutside, IsPass, closed_at, close_groups-IsPass}

module _ {F : Type 0} ⦃fl : Float F⦄ where
  has_id-Mem :
      (id : ℕ) (samples : List (ForwardSample F))
      → has_id {F = F} id samples ≡ true
      → (s : ForwardSample F) × Memᴰ s samples × (s.id ≡ id)
  has_id-Mem id [] h = cc
  has_id-Mem id (sample ∷ samples) h = elim (Bool-cases (sample.id == id)) [
    | inl here ↦ (sample, Memᴰ.head refl, ground arith)
    | inr there ↦ let (s, m, e) = has_id-Mem id samples (rw there at h) in (s, Memᴰ.tail m, e)
  ]

  Mem-has_id :
      (id : ℕ) (samples : List (ForwardSample F)) {s : ForwardSample F}
      → Memᴰ s samples
      → s.id ≡ id
      → has_id {F = F} id samples ≡ true
  Mem-has_id id [] m e = elim m [ ]
  Mem-has_id id (sample ∷ samples) (Memᴰ.head same) e =
      let own : sample.id ≡ id = rw (← same) e in
      let here : (sample.id == id) ≡ true = ground arith in rw here refl
  Mem-has_id id (sample ∷ samples) (Memᴰ.tail m) e =
      let rest = Mem-has_id id samples m e in
      elim (Bool-cases (sample.id == id)) [ inl here ↦ rw here refl | inr there ↦ rw there rest ]

  abbrev earlier : ForwardSample F → ForwardSample F → Bool
  earlier r s = leb r.sampled_at s.sampled_at

  -- The last of some rows in order is a latest one.
  last_ask-latest :
      (sample : ForwardSample F) (samples : List (ForwardSample F))
      → IsSorted earlier (sample ∷ samples)
      → (l : ForwardSample F) × Memᴰ l (sample ∷ samples)
        × (last_ask sample.ask samples ≡ l.ask)
        × All (λ r. r.sampled_at ≤ l.sampled_at) (sample ∷ samples)
  last_ask-latest sample [] h = (sample, Memᴰ.head refl, refl, (omega arith, tt))
  last_ask-latest sample (next ∷ samples) ((first, _), h) =
      let (l, m, e, all) = last_ask-latest next samples h in
      (l, Memᴰ.tail m, e, (ground (arith, first, all.0), all))

  -- The closing price of a row: of the market's samples of the same token as the row's, the latest
  -- one has this ask.
  abbrev pub IsClosing : String → List (ForwardSample F) → ForwardSample F → F → Type 0
  IsClosing id table row closing =
      (s l : ForwardSample F) × Memᴰ s table
      × (s.id ≡ row.id)
      × (s.market_id ≡ id)
      × Memᴰ l table
      × (l.market_id ≡ id)
      × (l.token ≡ s.token)
      × ((r : ForwardSample F)
          → Memᴰ r table
          → r.market_id ≡ id
          → r.token ≡ s.token
          → r.sampled_at ≤ l.sampled_at)
      × (closing ≡ l.ask)

  -- Two tables, row by row: a row of the market without a closing price gets that of its token and
  -- the difference to its own ask, and all others stand; the number counts the changed rows.
  pub data AreClosed (id : String) (table : List (ForwardSample F))
      : List (ForwardSample F) → List (ForwardSample F) → ℕ → Type 0 where
    nothing : AreClosed id table [] [] 0
    kept :
        {t u : List (ForwardSample F)} {n : ℕ} (row : ForwardSample F)
        → ((closing : F) → row.closing_pm_price ≡ none → ¬ IsClosing id table row closing)
        → AreClosed id table t u n
        → AreClosed id table (row ∷ t) (row ∷ u) n
    filled :
        {t u : List (ForwardSample F)} {n : ℕ} (row : ForwardSample F) (closing : F)
        → row.closing_pm_price ≡ none
        → IsClosing id table row closing
        → AreClosed id table t u n
        → AreClosed id table (row ∷ t) (closed_at closing row ∷ u) (suc n)

  module _ (id : String) (table : List (ForwardSample F)) where
    abbrev of_market : List (ForwardSample F)
    of_market = by_time id table

    abbrev by_token : Groups (ForwardSample F)
    by_token = group_by (λ r. r.token) [] of_market

    by_time-Mem : {r : ForwardSample F} → Memᴰ r of_market → Memᴰ r table × (r.market_id ≡ id)
    by_time-Mem {r} m =
        let (i, q) =
          filter-Mem (λ s. str_eq s.market_id id) table
            (sort_by-Mem earlier (in_market id table) m) in
        (i, (eq_iff r.market_id id).0 q)

    Mem-by_time : {r : ForwardSample F} → Memᴰ r table → r.market_id ≡ id → Memᴰ r of_market
    Mem-by_time {r} m e =
        Mem-sort_by earlier (in_market id table)
          (Mem-filter (λ s. str_eq s.market_id id) table m ((eq_iff r.market_id id).1 e))

    token_rows : (k : String) → gather k by_token ≡ with_key (λ r. r.token) k of_market
    token_rows k = gather-group_by_nil (λ r. r.token) k of_market

    IsOutside-IsClosing :
        (row : ForwardSample F) (closing : F)
        → IsOutside row by_token
        → ¬ IsClosing id table row closing
    IsOutside-IsClosing row closing out (s, l, m, same, mine, _, _, _, _, _) =
        let here : Memᴰ s (with_key (λ r. r.token) s.token of_market) =
          Mem-filter (λ r. str_eq r.token s.token) of_market (Mem-by_time m mine)
            ((eq_iff s.token s.token).1 refl) in
        let there : Memᴰ s (gather s.token by_token) =
          subst (λ rows. Memᴰ s rows) (sym (token_rows s.token)) here in
        let (g, i, own) = gather-Mem s.token by_token there in
        let inside = Mem-has_id row.id g.1 own same in
        let outside = All_look (λ g. has_id {F = F} row.id g.1 ≡ false) by_token out i in cc

    grouped : IsGrouped (λ r. r.token) by_token
    grouped = group_by-IsGrouped (λ r. r.token) [] of_market tt

    in_group :
        (k : String) (samples : List (ForwardSample F))
        → samples ≡ with_key (λ r. r.token) k of_market
        → {r : ForwardSample F} → Memᴰ r samples
        → Memᴰ r table × (r.market_id ≡ id) × (r.token ≡ k)
    in_group k samples e {r} m =
        let m' : Memᴰ r (with_key (λ r. r.token) k of_market) = subst (λ rows. Memᴰ r rows) e m in
        let (i, q) = filter-Mem (λ r. str_eq r.token k) of_market m' in
        let (j, mine) = by_time-Mem i in (j, mine, (eq_iff r.token k).0 q)

    with_key-IsSorted :
        (k : String) (samples : List (ForwardSample F))
        → samples ≡ with_key (λ r. r.token) k of_market
        → IsSorted earlier samples
    with_key-IsSorted k samples e =
        let sorted : IsSorted earlier of_market =
          sort_by-IsSorted earlier (λ x y z p q. ground (arith, p, q)) (λ x y p. ground (arith, p))
            (in_market id table) in
        subst (IsSorted earlier) (sym e) (filter-IsSorted earlier _ of_market sorted)

    last_ask-IsClosing :
        (row : ForwardSample F) (closing : F) (k : String) (samples : List (ForwardSample F))
        → samples ≡ with_key (λ r. r.token) k of_market
        → has_id {F = F} row.id samples ≡ true
        → IsLast samples closing
        → IsClosing id table row closing
    last_ask-IsClosing row closing k [] e listed last = elim last [ ]
    last_ask-IsClosing row closing k (sample ∷ samples) e listed last =
        let (s, m, same) = has_id-Mem row.id (sample ∷ samples) listed in
        let (l, n, ask, all) =
          last_ask-latest sample samples (with_key-IsSorted k (sample ∷ samples) e) in
        let (s_there, s_mine, s_token) = in_group k (sample ∷ samples) e m in
        let (l_there, l_mine, l_token) = in_group k (sample ∷ samples) e n in
        (
          s,
          l,
          s_there,
          same,
          s_mine,
          l_there,
          l_mine,
          l_token ∙ sym s_token,
          λ r i mine token.
              let here : Memᴰ r (with_key (λ r. r.token) k of_market) =
                Mem-filter (λ r. str_eq r.token k) of_market (Mem-by_time i mine)
                  ((eq_iff r.token k).1 (token ∙ s_token)) in
              All_look (λ r. r.sampled_at ≤ l.sampled_at) (sample ∷ samples) all
                (subst (λ rows. Memᴰ r rows) (sym e) here),
          last ∙ ask,
        )

    group-IsClosing :
        (row : ForwardSample F) (closing : F) (g : String × List (ForwardSample F))
        → Memᴰ g by_token
        → has_id {F = F} row.id g.1 ≡ true
        → IsLast g.1 closing
        → IsClosing id table row closing
    group-IsClosing row closing g i listed last =
        last_ask-IsClosing row closing g.0 g.1
          (sym (gather-own (λ r. r.token) by_token grouped i) ∙ token_rows g.0) listed last

    open_row : (row : ForwardSample F) → is_open row ≡ true → row.closing_pm_price ≡ none
    open_row row h = elim (Option-cases row.closing_pm_price) [
      | inl none_yet ↦ none_yet
      | inr (price, is_some) ↦ let h' : false ≡ true = rw is_some at h in cc
    ]

    stays :
        (row : ForwardSample F) (closing : F)
        → (is_open row ≡ false) ⊎ IsOutside row by_token
        → row.closing_pm_price ≡ none
        → ¬ IsClosing id table row closing
    stays row closing (inl shut) none_yet c = let h : true ≡ false = rw none_yet at shut in cc
    stays row closing (inr out) none_yet c = IsOutside-IsClosing row closing out c

    IsPass-AreClosed :
        {t u : List (ForwardSample F)} {n : ℕ} → IsPass by_token t u n → AreClosed id table t u n
    IsPass-AreClosed IsPass.nothing = AreClosed.nothing
    IsPass-AreClosed (IsPass.kept row h p) =
        AreClosed.kept row (λ closing. stays row closing h) (IsPass-AreClosed p)
    IsPass-AreClosed (IsPass.filled row closing g running i listed last p) =
        AreClosed.filled row closing (open_row row running)
          (group-IsClosing row closing g i listed last) (IsPass-AreClosed p)

  recount_closed :
      {id : String} {table t u : List (ForwardSample F)} {m n : ℕ}
      → AreClosed id table t u m
      → m ≡ n
      → AreClosed id table t u n
  recount_closed {id} {table} {t} {u} p e = subst (λ k. AreClosed id table t u k) e p

  -- Closing a market fills exactly the market's samples that have no closing price, each with the ask
  -- of a latest sample of the same market and token and the difference to its own ask, to six
  -- decimals; every other sample stands. The number returned is that of the changed samples. Two
  -- rows with one `id` are one sample.
  pub capture_closing-AreClosed :
      (id : String) (table : List (ForwardSample F))
      → AreClosed id table table
          (capture_closing (id ∷ []) table).0
          (capture_closing (id ∷ []) table).1
  unfolding capture_closing
  capture_closing-AreClosed id table =
      recount_closed (IsPass-AreClosed id table (close_groups-IsPass (by_token id table) table))
        (omega arith)
