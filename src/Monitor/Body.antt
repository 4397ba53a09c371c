-- ===== src/Monitor/Body.antt =====
-- The bytes of an answer, with a limit: the same lines of scripts/stale-monitor.ts,
-- scripts/monitor-artifact-state.ts, scripts/monitor-heartbeat.ts and
-- scripts/monitor-external-trigger.ts. A body that breaks off is not modelled.
use maintainflow.Prelude.{
  want, want-some, ℕ, ◌+◌, ◌≤◌, ◌≡◌, Bool, true, ◌&&◌, List, [], ◌∷◌, ◌++◌, Option, some, none,
  Result, ok, ◌>>=◌, ◌>>◌, require, leb, length, length-append, arith, bind-ok, require-ok,
  ok-Ensures, leb→le, refl, ap,
}
use maintainflow.Prelude.Text.{Str, only_digits, digits_value}

-- A byte is a number; the chunks of the body are in the order in which they come.
pub record Response : Type 0 where
  pub status : ℕ
  pub content_length : Option Str
  pub body : Option (List (List ℕ))

-- `Buffer.concat(chunks)`.
abbrev pub concat : List (List ℕ) → List ℕ
concat [] = []
concat (chunk ∷ chunks) = chunk ++ concat chunks

-- `/^\d+$/.test(length) && Number(length) <= limit`, where the header is there.
unfoldable pub is_length_allowed : ℕ → Option Str → Bool
unfolding only_digits digits_value
is_length_allowed limit none = true
is_length_allowed limit (some text) =
    leb 1 (length text) && only_digits text && leb (digits_value text 0) limit

module _ {E : Type 0} (limit : ℕ) (limit_code body_code : E) where
  -- The loop over the chunks.
  unfoldable pub read_chunks : ℕ → List (List ℕ) → Result E (List ℕ)
  read_chunks size [] = ok []
  read_chunks size (chunk ∷ chunks) =
      let rest = read_chunks (size + length chunk) chunks in
      do require (leb (size + length chunk) limit) limit_code; bytes ← rest; ok (chunk ++ bytes)

  unfoldable pub read_body : Response → Result E (List ℕ)
  unfolding is_length_allowed read_chunks
  read_body response = do
    require (is_length_allowed limit response.content_length) limit_code
    chunks ← want response.body body_code
    read_chunks 0 chunks

  -- The bytes are those of the chunks, and there are not more of them than the limit.
  read_chunks-IsWhole :
      (size : ℕ) (chunks : List (List ℕ)) (bytes : List ℕ)
      → size ≤ limit
      → read_chunks size chunks ≡ ok bytes
      → (bytes ≡ concat chunks) × (size + length bytes ≤ limit)
  unfolding read_chunks
  read_chunks-IsWhole size [] bytes small h =
      ok-Ensures (λ b. (b ≡ []) × (size + length b ≤ limit)) h (refl, omega (arith, small))
  read_chunks-IsWhole size (chunk ∷ chunks) bytes small h =
      require-ok (leb (size + length chunk) limit) _ _ h λ t h1.
        bind-ok (read_chunks (size + length chunk) chunks) _ h1 λ rest e h2.
          let (whole, within) =
            read_chunks-IsWhole (size + length chunk) chunks rest (leb→le _ _ t) e in
          ok-Ensures (λ b. (b ≡ chunk ++ concat chunks) × (size + length b ≤ limit)) h2
            (ap (λ z. chunk ++ z) whole, omega (arith, within, length-append chunk rest))

  pub read_body-IsWhole :
      (response : Response) (bytes : List ℕ)
      → read_body response ≡ ok bytes
      → (chunks : List (List ℕ)) × (response.body ≡ some chunks)
        × (bytes ≡ concat chunks)
        × (length bytes ≤ limit)
  unfolding read_body
  read_body-IsWhole response bytes h =
      require-ok (is_length_allowed limit response.content_length) _ _ h λ _ h1.
        bind-ok (want response.body _) _ h1 λ chunks body h2.
          let (whole, within) = read_chunks-IsWhole 0 chunks bytes (omega arith) h2 in
          (chunks, want-some _ _ body, whole, omega (arith, within))
