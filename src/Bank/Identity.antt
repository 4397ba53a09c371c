-- ===== src/Bank/Identity.antt =====
-- `text`, `accountIdentity` and `bankAccountKey` of
-- server/core/bank-statement-domain.ts. Unicode normalisation and case mapping, the hash and the
-- platform's list of currencies are parameters.
use maintainflow.Prelude.{
  ℕ, Bool, true, false, not, ◌&&◌, ◌||◌, List, [], ◌∷◌, Option, some, none, length, leb, ◌==◌,
  if◌then◌else◌,
}
use maintainflow.Prelude.Text.{
  Str, codes, is_space, trim, fold_spaces, str_eq, lower_ascii, is_word,
}
use maintainflow.Bank.Types.{BankScalar, BankAccount}

-- What the host supplies: `normalize('NFKC')`, `toLowerCase`, `toUpperCase`, the currencies of
-- `Intl.supportedValuesOf`, and the hex SHA-256 of the JSON text of a list of texts and nulls.
pub record Platform : Type 0 where
  pub nfkc : Str → Str
  pub lower_case : Str → Str
  pub upper_case : Str → Str
  pub is_currency : Str → Bool
  pub digest : List BankScalar → Str

unfoldable pub empty_text : Str → Bool
empty_text [] = true
empty_text (_ ∷ _) = false

-- `value?.trim() || null`.
unfoldable pub text : BankScalar → BankScalar
unfolding trim empty_text
text none = none
text (some s) = let t = trim s in if empty_text t then none else some t

-- A word at the head of `s`, in any case, with no word character behind it.
unfoldable pub word_at : Str → Str → Bool
unfolding lower_ascii is_word
word_at [] [] = true
word_at (a ∷ s) [] = not (is_word a)
word_at [] (_ ∷ _) = false
word_at (a ∷ s) (b ∷ w) = (lower_ascii a == b) && word_at s w

unfoldable pub masking_word : Str → Bool
unfolding word_at
masking_word s =
    word_at s (codes "ending")
    || word_at s (codes "last")
    || word_at s (codes "masked")
    || word_at s (codes "unknown")
    || word_at s (codes "n/a")

-- The second character of `\.{2}` and `x{2,}`.
unfoldable pub doubles : ℕ → Str → Bool
unfolding lower_ascii
doubles c [] = false
doubles c (d ∷ s) =
    ((c == b'.') && (d == b'.')) || ((lower_ascii c == b'x') && (lower_ascii d == b'x'))

-- `/[*•…]|\.{2}|(?:x{2,})|\b(?:ending|last|masked|unknown|n\/a)\b/i.test(raw)`; the flag says that
-- a word character stands in front.
unfoldable pub is_masked : Bool → Str → Bool
unfolding masking_word doubles is_word
is_masked behind_word [] = false
is_masked behind_word (c ∷ s) =
    c == b'*'
    || c == 0x2022
    || c == 0x2026
    || doubles c s
    || (not behind_word && masking_word (c ∷ s))
    || is_masked (is_word c) s

-- `raw.replace(/[\s.\-]/g, '')`.
unfoldable pub drop_separators : Str → Str
unfolding is_space
drop_separators [] = []
drop_separators (c ∷ s) =
    let rest = drop_separators s in if is_space c || c == b'.' || c == b'-' then rest else c ∷ rest

unfoldable pub all_identifier : Str → Bool
all_identifier [] = true
all_identifier (c ∷ s) =
    ((leb b'A' c && leb c b'Z') || (leb b'0' c && leb c b'9')) && all_identifier s

-- `/^(unknown|n\/?a|not (?:provided|stated|known))$/.test(bank)`.
unfoldable pub is_unknown_bank : Str → Bool
is_unknown_bank bank =
    str_eq bank (codes "unknown")
    || str_eq bank (codes "na")
    || str_eq bank (codes "n/a")
    || str_eq bank (codes "not provided")
    || str_eq bank (codes "not stated")
    || str_eq bank (codes "not known")

pub record AccountBinding : Type 0 where
  pub bank : Str
  pub identifier : Str

module _ (host : Platform) where
  open host use {nfkc, lower_case, upper_case, digest}

  unfoldable pub bind_account : Str → Str → Option AccountBinding
  unfolding is_unknown_bank is_masked drop_separators all_identifier empty_text
  bind_account bank raw =
      let identifier = upper_case (drop_separators raw) in
      if empty_text bank || is_unknown_bank bank || empty_text raw || is_masked false raw
      then none
      else if all_identifier identifier && leb 6 (length identifier) && leb (length identifier) 64
      then some (record { bank = bank; identifier = identifier })
      else none

  unfoldable pub account_identity : BankAccount → Option AccountBinding
  unfolding bind_account text fold_spaces
  account_identity account = elim (text account.bank_name) [
    | none ↦ none
    | some name ↦ elim (text account.account_identifier) [
      | none ↦ none
      | some raw ↦ bind_account (fold_spaces false (lower_case (nfkc name))) (nfkc raw)
    ]
  ]

  unfoldable pub bank_account_key : BankAccount → BankScalar
  unfolding account_identity
  bank_account_key account =
      let key : BankScalar = elim (account_identity account) [
        | none ↦ none
        | some b ↦ some (digest (some b.bank ∷ some b.identifier ∷ []))
      ] in
      if account.excluded then none else key
