-- ===== src/Provider/Stripe/Select.antt =====
-- The subscription that `selectStripeSubscription` of server/integrations/provider-policy.ts takes.
use maintainflow.Prelude.{
  ℕ, ◌≤◌, ◌≡◌, ◌≢◌, Bool, true, false, ◌&&◌, ◌||◌, List, [], ◌∷◌, some, none, refl, arith, ◌⊎◌,
  Bool-cases, Option-cases, inl, inr, some-Ensures, ltb, ◌==◌,
}
use maintainflow.Prelude.All.{All, All-mono}
use maintainflow.Prelude.Text.{Str}
use maintainflow.Provider.Stripe.{
  PriceMap, StripeMode, Subscription, has_plan, keep_paid, is_behind, insert_subscription,
  sort_subscriptions, head_of, select_stripe_subscription,
}

abbrev pub IsIn : Subscription → List Subscription → Type 0
IsIn s [] = ⊥
IsIn s (t ∷ ts) = (s ≡ t) ⊎ IsIn s ts

All-IsIn : (ss : List Subscription) → All (λ s. IsIn s ss) ss
All-IsIn [] = tt
All-IsIn (s ∷ ss) = (inl refl, All-mono (λ t found. inr found) ss (All-IsIn ss))

-- The newest of a list.
pub record IsNewestOf (s : Subscription) (ss : List Subscription) : Type 0 where
  pub listed : IsIn s ss
  pub newest : All (λ t. t.created ≤ s.created) ss

-- Of those of a list that pay for a plan, the newest.
pub record IsNewestPayer (prices : PriceMap) (mode : StripeMode) (s : Subscription)
    (ss : List Subscription) : Type 0 where
  pub pays : has_plan prices mode s ≡ true
  pub listed : IsIn s ss
  pub newest : All (λ t. (has_plan prices mode t ≡ false) ⊎ (t.created ≤ s.created)) ss

head-All :
    (P : Subscription → Type 0) (ss : List Subscription) (s : Subscription)
    → All P ss
    → head_of ss ≡ some s
    → P s
head-All P [] s h e = cc
head-All P (t ∷ ts) s h e = some-Ensures P e h.0

behind_le : (a b : ℕ) (c : Bool) → (ltb a b || (a == b && c)) ≡ true → a ≤ b
behind_le a b c h = ground arith

ahead_le : (a b : ℕ) (c : Bool) → (ltb a b || (a == b && c)) ≡ false → b ≤ a
ahead_le a b c h = ground arith

module _ (before : Str → Str → Bool) where
  insert-All :
      (P : Subscription → Type 0) (a : Subscription) (ss : List Subscription)
      → P a
      → All P ss
      → All P (insert_subscription before a ss)
  unfolding insert_subscription
  insert-All P a [] p h = (p, tt)
  insert-All P a (b ∷ rest) p h = elim (Bool-cases (is_behind before a b)) [
    | inl t ↦ rw t (h.0, insert-All P a rest p h.1)
    | inr t ↦ rw t (p, h)
  ]

  sort-All :
      (P : Subscription → Type 0) (ss : List Subscription)
      → All P ss
      → All P (sort_subscriptions before ss)
  unfolding sort_subscriptions
  sort-All P [] h = tt
  sort-All P (s ∷ ss) h = insert-All P s (sort_subscriptions before ss) h.0 (sort-All P ss h.1)

  insert-head :
      (a : Subscription) (ss : List Subscription) (s : Subscription)
      → head_of (insert_subscription before a ss) ≡ some s
      → (a.created ≤ s.created) × ((b : Subscription) → head_of ss ≡ some b → b.created ≤ s.created)
  unfolding insert_subscription
  insert-head a [] s e = (some-Ensures (λ z. a.created ≤ z.created) e (omega arith), (λ b e1. cc))
  insert-head a (b ∷ rest) s e = elim (Bool-cases (is_behind before a b)) [
    | inl t ↦
        let at_least : a.created ≤ b.created = behind_le a.created b.created _ t in
        some-Ensures
          (λ z.
            (a.created ≤ z.created)
            × ((c : Subscription) → head_of (b ∷ rest) ≡ some c → c.created ≤ z.created))
          (rw t at e) (at_least, λ c e1. some-Ensures (λ z. z.created ≤ b.created) e1 (omega arith))
    | inr t ↦
        let at_most : b.created ≤ a.created = ahead_le a.created b.created _ t in
        some-Ensures
          (λ z.
            (a.created ≤ z.created)
            × ((c : Subscription) → head_of (b ∷ rest) ≡ some c → c.created ≤ z.created))
          (rw t at e) (omega arith, λ c e1. some-Ensures (λ z. z.created ≤ a.created) e1 at_most)
  ]

  insert_some :
      (a : Subscription) (ss : List Subscription) → head_of (insert_subscription before a ss) ≢ none
  unfolding insert_subscription
  insert_some a [] = λ e. cc
  insert_some a (b ∷ rest) = elim (Bool-cases (is_behind before a b)) [
    | inl t ↦ rw t (λ e. cc)
    | inr t ↦ rw t (λ e. cc)
  ]

  sort_none : (ss : List Subscription) → head_of (sort_subscriptions before ss) ≡ none → ss ≡ []
  unfolding sort_subscriptions
  sort_none [] e = refl
  sort_none (s ∷ ss) e = absurd (insert_some s (sort_subscriptions before ss) e)

  sort-head :
      (ss : List Subscription) (s : Subscription)
      → head_of (sort_subscriptions before ss) ≡ some s
      → All (λ t. t.created ≤ s.created) ss
  unfolding sort_subscriptions
  sort-head [] s e = tt
  sort-head (a ∷ ss) s e =
      let (mine, others) = insert-head a (sort_subscriptions before ss) s e in
      elim (Option-cases (head_of (sort_subscriptions before ss))) [
        | inl e1 ↦ let empty = sort_none ss e1 in (mine, rw empty tt)
        | inr (b, e1) ↦
            let below = others b e1 in
            (mine, All-mono (λ t le. omega (arith, le, below)) ss (sort-head ss b e1))
      ]

  head-IsNewestOf :
      (ss : List Subscription) (s : Subscription)
      → head_of (sort_subscriptions before ss) ≡ some s
      → IsNewestOf s ss
  head-IsNewestOf ss s e = record {
    listed =
        head-All (λ t. IsIn t ss) (sort_subscriptions before ss) s
          (sort-All (λ t. IsIn t ss) ss (All-IsIn ss)) e;
    newest = sort-head ss s e;
  }

  keep_paid-All :
      (prices : PriceMap) (mode : StripeMode) (ss : List Subscription)
      → All (λ s. has_plan prices mode s ≡ true) (keep_paid prices mode ss)
  unfolding keep_paid
  keep_paid-All prices mode [] = tt
  keep_paid-All prices mode (s ∷ ss) = elim (Bool-cases (has_plan prices mode s)) [
    | inl t ↦ rw t (t, keep_paid-All prices mode ss)
    | inr t ↦ rw t (keep_paid-All prices mode ss)
  ]

  -- What stands in the list of payers stands in the whole list, and the payers that are not newer
  -- than `s` leave no other that is.
  keep_paid-IsIn :
      (prices : PriceMap) (mode : StripeMode) (s : Subscription) (ss : List Subscription)
      → IsIn s (keep_paid prices mode ss)
      → IsIn s ss
  unfolding keep_paid
  keep_paid-IsIn prices mode s [] h = h
  keep_paid-IsIn prices mode s (t ∷ ss) h = elim (Bool-cases (has_plan prices mode t)) [
    | inl e ↦ elim (rw e at h) [
      | inl same ↦ inl same
      | inr found ↦ inr (keep_paid-IsIn prices mode s ss found)
    ]
    | inr e ↦ inr (keep_paid-IsIn prices mode s ss (rw e at h))
  ]

  keep_paid-newest :
      (prices : PriceMap) (mode : StripeMode) (s : Subscription) (ss : List Subscription)
      → All (λ t. t.created ≤ s.created) (keep_paid prices mode ss)
      → All (λ t. (has_plan prices mode t ≡ false) ⊎ (t.created ≤ s.created)) ss
  unfolding keep_paid
  keep_paid-newest prices mode s [] h = tt
  keep_paid-newest prices mode s (t ∷ ss) h = elim (Bool-cases (has_plan prices mode t)) [
    | inl e ↦ let k = rw e at h in (inr k.0, keep_paid-newest prices mode s ss k.1)
    | inr e ↦ (inl e, keep_paid-newest prices mode s ss (rw e at h))
  ]

  keep_paid-none :
      (prices : PriceMap) (mode : StripeMode) (ss : List Subscription)
      → keep_paid prices mode ss ≡ []
      → All (λ t. has_plan prices mode t ≡ false) ss
  unfolding keep_paid
  keep_paid-none prices mode [] h = tt
  keep_paid-none prices mode (t ∷ ss) h = elim (Bool-cases (has_plan prices mode t)) [
    | inl e ↦ let k = rw e at h in cc
    | inr e ↦ (e, keep_paid-none prices mode ss (rw e at h))
  ]

  -- Nothing is selected only of nothing. What is selected is in the list and pays for a plan, and
  -- no other that pays for one is newer; where none in the list does, it is the newest of all.
  pub select_stripe_subscription-IsNewestOf :
      (ss : List Subscription) (prices : PriceMap) (mode : StripeMode)
      → ((select_stripe_subscription before ss prices mode ≡ none) × (ss ≡ []))
        ⊎ ((s : Subscription) × (select_stripe_subscription before ss prices mode ≡ some s)
            × (IsNewestPayer prices mode s ss
                ⊎ (All (λ t. has_plan prices mode t ≡ false) ss × IsNewestOf s ss)))
  unfolding select_stripe_subscription
  select_stripe_subscription-IsNewestOf ss prices mode =
      let paid = keep_paid prices mode ss in
      elim (Option-cases (head_of (sort_subscriptions before paid))) [
        | inr (s, e) ↦
            let newest = head-IsNewestOf paid s e in
            inr (
              s,
              rw (e, select_stripe_subscription),
              inl (record {
                pays =
                    head-All (λ t. has_plan prices mode t ≡ true) (sort_subscriptions before paid) s
                      (sort-All (λ t. has_plan prices mode t ≡ true) paid
                        (keep_paid-All prices mode ss))
                      e;
                listed = keep_paid-IsIn prices mode s ss newest.listed;
                newest = keep_paid-newest prices mode s ss newest.newest;
              }),
            )
        | inl e ↦ elim (Option-cases (head_of (sort_subscriptions before ss))) [
          | inl e1 ↦ inl (rw (e, select_stripe_subscription, e1), sort_none ss e1)
          | inr (s, e1) ↦ inr (
            s,
            rw (e, select_stripe_subscription, e1),
            inr (keep_paid-none prices mode ss (sort_none paid e), head-IsNewestOf ss s e1),
          )
        ]
      ]
