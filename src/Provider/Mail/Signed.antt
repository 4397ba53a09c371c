-- ===== src/Provider/Mail/Signed.antt =====
-- To whom a received message is delivered: `deliveredRecipients` of
-- server/integrations/provider-policy.ts.
use maintainflow.Prelude.{
  ◌≡◌, ◌⊎◌, Bool, true, false, ◌||◌, List, [], ◌∷◌, Option, some, none, refl, sym, ap, Bool-cases,
  Option-cases, inl, inr, or_false, some-Ensures,
}
use maintainflow.Prelude.All.{All, All-mono}
use maintainflow.Prelude.Text.{is_listed, first_of_each, Str, str_eq, str_eq_iff, trim}
use maintainflow.Provider.Mail.{
  MailHost, any_of, is_control, with_some, mailbox_of, is_address, email_address, addresses,
  keep_listed, delivered_recipients,
}

-- Some value of the list passes.
abbrev pub SomeOf : (Str → Type 0) → List Str → Type 0
SomeOf P [] = ⊥
SomeOf P (v ∷ vs) = P v ⊎ SomeOf P vs

abbrev pub AreDistinct : List Str → Type 0
AreDistinct [] = Unit
AreDistinct (v ∷ vs) = All (λ w. str_eq w v ≡ false) vs × AreDistinct vs

or_lem : (a b : Bool) → (a || b) ≡ true → (a ≡ true) ⊎ (b ≡ true)
or_lem true b h = inl refl
or_lem false b h = inr h

with_some_lem :
    (address : Str) (o : Option Str) (rest : List Str)
    → is_listed address (with_some o rest) ≡ true
    → (o ≡ some address) ⊎ (is_listed address rest ≡ true)
unfolding is_listed
with_some_lem address none rest h = inr h
with_some_lem address (some a) rest h = elim (or_lem (str_eq address a) _ h) [
  | inl t ↦ inl (ap some (sym ((str_eq_iff address a).0 t)))
  | inr t ↦ inr t
]

with_some-All :
    (P : Str → Type 0) (o : Option Str) (rest : List Str)
    → ((a : Str) → o ≡ some a → P a)
    → All P rest
    → All P (with_some o rest)
with_some-All P none rest f h = h
with_some-All P (some a) rest f h = (f a refl, h)

keep_listed-All :
    (P : Str → Type 0) (signed list : List Str)
    → All P list
    → All (λ a. P a × (is_listed a signed ≡ true)) (keep_listed signed list)
unfolding keep_listed
keep_listed-All P signed [] h = tt
keep_listed-All P signed (a ∷ list) h = elim (Bool-cases (is_listed a signed)) [
  | inl t ↦ rw t ((h.0, t), keep_listed-All P signed list h.1)
  | inr t ↦ rw t (keep_listed-All P signed list h.1)
]

first_of_each-All :
    (P : Str → Type 0) (seen list : List Str) → All P list → All P (first_of_each seen list)
unfolding first_of_each
first_of_each-All P seen [] h = tt
first_of_each-All P seen (a ∷ list) h = elim (Bool-cases (is_listed a seen)) [
  | inl t ↦ rw t (first_of_each-All P seen list h.1)
  | inr t ↦ rw t (h.0, first_of_each-All P (a ∷ seen) list h.1)
]

first_of_each-unseen :
    (seen list : List Str) → All (λ a. is_listed a seen ≡ false) (first_of_each seen list)
unfolding first_of_each is_listed
first_of_each-unseen seen [] = tt
first_of_each-unseen seen (a ∷ list) = elim (Bool-cases (is_listed a seen)) [
  | inl t ↦ rw t (first_of_each-unseen seen list)
  | inr t ↦
      rw t (
        t,
        All-mono (λ b h. (or_false (str_eq b a) _ h).1) _ (first_of_each-unseen (a ∷ seen) list),
      )
]

first_of_each-AreDistinct : (seen list : List Str) → AreDistinct (first_of_each seen list)
unfolding first_of_each is_listed
first_of_each-AreDistinct seen [] = tt
first_of_each-AreDistinct seen (a ∷ list) = elim (Bool-cases (is_listed a seen)) [
  | inl t ↦ rw t (first_of_each-AreDistinct seen list)
  | inr t ↦ rw t (
    All-mono (λ b h. (or_false (str_eq b a) _ h).0) _ (first_of_each-unseen (a ∷ seen) list),
    first_of_each-AreDistinct (a ∷ seen) list,
  )
]

module _ (host : MailHost) where
  abbrev pub IsAddressOf : Str → Str → Type 0
  IsAddressOf address value = email_address host value ≡ some address

  address_lem :
      (address value : Str) → email_address host value ≡ some address → is_address address ≡ true
  unfolding email_address
  address_lem address value h = elim (Bool-cases (any_of is_control value)) [
    | inl t ↦ let wrong = rw t at h in cc
    | inr t ↦
        let h1 = rw t at h in
        elim (Option-cases (mailbox_of (trim value))) [
          | inl e ↦ let wrong = rw e at h1 in cc
          | inr (mailbox, e) ↦
              let h2 = rw e at h1 in
              elim (Bool-cases (is_address (host.lower (trim mailbox)))) [
                | inr t1 ↦ let wrong = rw t1 at h2 in cc
                | inl t1 ↦ some-Ensures (λ a. is_address a ≡ true) (rw t1 at h2) t1
              ]
        ]
  ]

  addresses-SomeOf :
      (address : Str) (values : List Str)
      → is_listed address (addresses host values) ≡ true
      → SomeOf (IsAddressOf address) values
  unfolding addresses is_listed
  addresses-SomeOf address [] h = cc
  addresses-SomeOf address (value ∷ values) h =
      elim (with_some_lem address (email_address host value) (addresses host values) h) [
        | inl e ↦ inl e
        | inr t ↦ inr (addresses-SomeOf address values t)
      ]

  abbrev IsReceived : List Str → Str → Type 0
  IsReceived values address = (is_address address ≡ true) × SomeOf (IsAddressOf address) values

  addresses-All : (values : List Str) → All (IsReceived values) (addresses host values)
  unfolding addresses
  addresses-All [] = tt
  addresses-All (value ∷ values) =
      with_some-All (IsReceived (value ∷ values)) (email_address host value) (addresses host values)
        (λ a e. (address_lem a value e, inl e))
        (All-mono (λ a known. (known.0, inr known.1)) _ (addresses-All values))

  -- What is known of an address that a message is delivered to.
  pub record IsDelivered (signed received : List Str) (address : Str) : Type 0 where
    pub complete : is_address address ≡ true
    pub was_signed : SomeOf (IsAddressOf address) signed
    pub was_received : SomeOf (IsAddressOf address) received

  -- A message is delivered to complete addresses only, each of them the address of a signed
  -- recipient and of a received one, and to no address twice.
  pub delivered_recipients-IsDelivered :
      (signed received : List Str)
      → All (IsDelivered signed received) (delivered_recipients host signed received)
        × AreDistinct (delivered_recipients host signed received)
  unfolding delivered_recipients
  delivered_recipients-IsDelivered signed received =
      let kept = keep_listed (addresses host signed) (addresses host received) in
      (
        All-mono
            (λ a known. record {
              complete = known.0.0;
              was_signed = addresses-SomeOf a signed known.1;
              was_received = known.0.1;
            })
            _
            (first_of_each-All _ [] kept (
              keep_listed-All (IsReceived received) (addresses host signed)
                (addresses host received) (addresses-All received))),
        first_of_each-AreDistinct [] kept,
      )
