-- ===== src/Provider/Mail.antt =====
-- The rules for received mail in server/integrations/provider-policy.ts: `emailAddress`,
-- `deliveredRecipients`, `receivedEmailMatchesId`, `verifiedReceivingDomain`, the managed probe and
-- `receivedEmailBody`. `toLowerCase`, the UUIDs of zod and the length of a text in UTF-8 are
-- parameters. Of a message, and of a domain of the provider, only what the rules read is kept.
pub mod Signed
use maintainflow.Prelude.{
  ℕ, ◌+◌, ◌-◌, Bool, true, false, not, ◌&&◌, ◌||◌, List, [], ◌∷◌, ◌++◌, map, Option, some, none,
  Result, ok, ◌>>=◌, ◌>>◌, refuse, leb, ltb, ◌==◌, if◌then◌else◌, length, take, drop,
}
use maintainflow.Prelude.Json.{Json, get, as_string, as_array, equals_string}
use maintainflow.Prelude.Text.{
  is_listed, first_of_each, all_hex, Str, codes, str_eq, starts_with, split, trim, is_space,
  drop_spaces, is_digit,
}

pub record MailHost : Type 0 where
  pub lower : Str → Str
  pub is_uuid : Str → Bool
  pub byte_length : Str → ℕ

abbrev all_of : (ℕ → Bool) → Str → Bool
all_of test [] = true
all_of test (c ∷ s) = test c && all_of test s

abbrev pub any_of : (ℕ → Bool) → Str → Bool
any_of test [] = false
any_of test (c ∷ s) = test c || any_of test s

-- `/[\u0000-\u001f\u007f]/`
abbrev pub is_control : ℕ → Bool
is_control c = leb c 31 || c == 127

-- `([^<>]+)>$`, read from behind the first bracket.
unfoldable in_brackets : Str → Option Str
in_brackets [] = none
in_brackets (c ∷ []) = if c == b'>' then some [] else none
in_brackets (c ∷ s) = elim (in_brackets s) [
  | none ↦ none
  | some inner ↦ if c == b'<' || c == b'>' then none else some (c ∷ inner)
]

abbrev open_bracket : Str → Option Str
unfolding in_brackets
open_bracket [] = none
open_bracket (c ∷ s) = if c == b'<' then in_brackets s else none

-- `[^<>"@,;]*\s*<`
unfoldable after_words : Str → Option Str
unfolding in_brackets
after_words [] = none
after_words (c ∷ s) =
    let rest = after_words s in
    if c == b'<'
    then in_brackets s
    else if c == b'>' || c == b'"' || c == b'@' || c == b',' || c == b';'
    then none
    else rest

-- `.` matches no line terminator.
abbrev is_line_end : ℕ → Bool
is_line_end c = c == 10 || c == 13 || c == 0x2028 || c == 0x2029

-- `(?:[^"\\]|\\.)*"\s*<`, read from behind the first quote; the flag says that a backslash has
-- just been read.
unfoldable after_quoted : Bool → Str → Option Str
unfolding in_brackets drop_spaces
after_quoted escaped [] = none
after_quoted true (c ∷ s) = if is_line_end c then none else after_quoted false s
after_quoted false (c ∷ s) =
    let rest = after_quoted (c == 92) s in if c == b'"' then open_bracket (drop_spaces s) else rest

unfoldable pub mailbox_of : Str → Option Str
unfolding after_words after_quoted
mailbox_of [] = none
mailbox_of (c ∷ s) =
    let text = c ∷ s in
    if any_of (λ d. d == b'<' || d == b'>') text
    then (if c == b'"' then after_quoted false s else after_words text)
    else some text

abbrev is_letter : ℕ → Bool
is_letter c = (leb b'a' c && leb c b'z') || (leb b'A' c && leb c b'Z')

abbrev is_domain_char : ℕ → Bool
unfolding is_digit
is_domain_char c = is_letter c || is_digit c || c == b'.' || c == b'-'

-- One of the punctuation marks of the part before the `@`.
abbrev is_local_char : ℕ → Bool
unfolding is_digit
is_local_char c = is_letter c || is_digit c || any_of (λ d. d == c) (codes ".!#$%&'*+/=?^_`{|}~-")

abbrev last_piece : List Str → Str
last_piece [] = []
last_piece (w ∷ []) = w
last_piece (w ∷ v ∷ ws) = last_piece (v ∷ ws)

-- `[a-z0-9.-]+\.[a-z]{2,}`
unfoldable pub is_domain : Str → Bool
unfolding is_digit split
is_domain s =
    let top = last_piece (split b'.' s) in
    all_of is_domain_char s
    && leb 2 (length top)
    && all_of is_letter top
    && leb (length top + 2) (length s)

unfoldable pub is_address : Str → Bool
unfolding split is_digit is_domain
is_address s = elim (split b'@' s) [
  | local ∷ domain ∷ [] ↦ leb 1 (length local) && all_of is_local_char local && is_domain domain
  | _ ↦ false
]

unfoldable pub email_address : MailHost → Str → Option Str
unfolding trim mailbox_of is_address
email_address host value =
    let address_of : Option Str = elim (mailbox_of (trim value)) [
      | none ↦ none
      | some mailbox ↦
          let address = host.lower (trim mailbox) in
          if is_address address then some address else none
    ] in
    if any_of is_control value then none else address_of

abbrev pub with_some : Option Str → List Str → List Str
with_some none rest = rest
with_some (some address) rest = address ∷ rest

-- `map(emailAddress).filter(...)`
unfoldable pub addresses : MailHost → List Str → List Str
unfolding email_address
addresses host [] = []
addresses host (value ∷ values) = with_some (email_address host value) (addresses host values)

unfoldable pub keep_listed : List Str → List Str → List Str
unfolding is_listed
keep_listed signed [] = []
keep_listed signed (address ∷ rest) =
    let kept = keep_listed signed rest in if is_listed address signed then address ∷ kept else kept

unfoldable pub delivered_recipients : MailHost → List Str → List Str → List Str
unfolding addresses keep_listed first_of_each
delivered_recipients host signed received =
    first_of_each [] (keep_listed (addresses host signed) (addresses host received))

-- `z.object({id: z.string().uuid()})`
unfoldable pub received_email_matches_id : MailHost → Str → Json → Bool
unfolding get
received_email_matches_id host email_id email = elim (as_string (get "id" email)) [
  | none ↦ false
  | some id ↦
      host.is_uuid email_id && host.is_uuid id && str_eq (host.lower email_id) (host.lower id)
]

pub record DnsRecord : Type 0 where
  pub purpose : Str
  pub record_type : Str
  pub record_status : Str

pub record MailDomain : Type 0 where
  pub domain_name : Str
  pub receiving : Str
  pub records : List DnsRecord

abbrev has_receiving_record : List DnsRecord → Bool
has_receiving_record [] = false
has_receiving_record (r ∷ rs) =
    (str_eq r.purpose (codes "Receiving")
      && str_eq r.record_type (codes "MX")
      && str_eq r.record_status (codes "verified"))
    || has_receiving_record rs

unfoldable pub verified_receiving_domain : MailHost → MailDomain → Str → Bool
verified_receiving_domain host domain expected =
    str_eq (host.lower domain.domain_name) (host.lower expected)
    && str_eq domain.receiving (codes "enabled")
    && has_receiving_record domain.records

pub record Message : Type 0 where
  pub sender : Str
  pub recipients : List Str
  pub subject : Str
  pub text_body : Option Str
  pub html_body : Option Str

pub data MailFault : Type 0 where
  body_too_large : MailFault

abbrev clean_characters : Str → Str
clean_characters [] = []
clean_characters (c ∷ s) = (if c == 13 || c == 10 || c == 0 then 32 else c) ∷ clean_characters s

abbrev clean_header : Str → Str
clean_header s = take 500 (clean_characters s)

abbrev join_recipients : List Str → Str
join_recipients [] = []
join_recipients (r ∷ []) = clean_header r
join_recipients (r ∷ s ∷ rest) = clean_header r ++ codes ", " ++ join_recipients (s ∷ rest)

abbrev line_end : Str
line_end = 13 ∷ 10 ∷ []

-- `email.text === null && Boolean(email.html)`
abbrev is_html : Message → Bool
is_html m = elim m.text_body [
  | some text ↦ false
  | none ↦ elim m.html_body [ none ↦ false | some [] ↦ false | some (c ∷ s) ↦ true ]
]

abbrev text_or_none : Option Str → Str
text_or_none none = []
text_or_none (some text) = text

-- The text of the message; its bytes are those of the text in UTF-8.
unfoldable pub received_email_body : MailHost → Message → ℕ → Result MailFault Str
received_email_body host m max_bytes =
    let html = is_html m in
    let body = text_or_none (if html then m.html_body else m.text_body) in
    let eml =
      codes "From: "
      ++ clean_header m.sender
      ++ line_end
      ++ codes "To: "
      ++ join_recipients m.recipients
      ++ line_end
      ++ codes "Subject: "
      ++ clean_header m.subject
      ++ line_end
      ++ codes "MIME-Version: 1.0"
      ++ line_end
      ++ codes "Content-Type: "
      ++ (if html then codes "text/html" else codes "text/plain")
      ++ codes "; charset=utf-8"
      ++ line_end
      ++ line_end
      ++ body in
    do
      refuse (ltb max_bytes (host.byte_length body)) body_too_large
      refuse (ltb max_bytes (host.byte_length eml)) body_too_large
      ok eml
