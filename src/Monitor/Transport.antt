-- ===== src/Monitor/Transport.antt =====
-- `json` of scripts/stale-monitor.ts and of scripts/monitor-artifact-state.ts: one request, with a
-- limit on the bytes of its answer. The request itself and `JSON.parse` are parameters.
use maintainflow.Monitor.Body.{Response, concat, read_body, read_body-IsWhole}
use maintainflow.Prelude.{
  want, want-some, ℕ, ◌≤◌, ◌≡◌, List, Option, some, Result, ok, ◌>>=◌, ◌>>◌, require, ◌==◌, length,
  ==_iff, bind-ok, require-ok,
}
use maintainflow.Prelude.Json.{Json}
use maintainflow.Prelude.Text.{Str}

abbrev pub response_limit : ℕ
response_limit = 1048576

-- The transport gives no response where it throws or is aborted.
pub record Http : Type 0 where
  pub request : Str → Option Response
  pub parse : List ℕ → Option Json

-- The codes of the three faults.
pub record ReadFaults (E : Type 0) : Type 0 where
  pub unavailable_code : E
  pub limit_code : E
  pub invalid_code : E

module _ {E : Type 0} (faults : ReadFaults E) where
  unfoldable pub read_json : Http → Str → Result E Json
  unfolding read_body
  read_json http url = do
    response ← want (http.request url) faults.unavailable_code
    require (response.status == 200) faults.unavailable_code
    bytes ← read_body response_limit faults.limit_code faults.invalid_code response
    want (http.parse bytes) faults.invalid_code

  -- An answer that is read has status 200 and at most 1 MiB, and it is what all bytes of the
  -- body, in their order, stand for.
  read_json-IsBounded :
      (http : Http) (url : Str) (value : Json)
      → read_json http url ≡ ok value
      → (response : Response) × (chunks : List (List ℕ)) × (http.request url ≡ some response)
        × (response.status ≡ 200)
        × (response.body ≡ some chunks)
        × (length (concat chunks) ≤ response_limit)
        × (http.parse (concat chunks) ≡ some value)
  unfolding read_json
  read_json-IsBounded http url value h = bind-ok (want (http.request url) _) _ h λ response sent h1.
      require-ok (response.status == 200) _ _ h1 λ good h2.
        bind-ok (read_body response_limit _ _ response) _ h2 λ bytes e h3.
          let (chunks, body, whole, within) =
            read_body-IsWhole response_limit _ _ response bytes e in
          (
            response,
            chunks,
            want-some _ _ sent,
            ((==_iff response.status 200).0 good),
            body,
            rw whole at within,
            (rw whole at (want-some (http.parse bytes) _ h3)),
          )
