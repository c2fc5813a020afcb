-- ===== src/Worker/Answers.antt =====
-- What runQuery of cmd/worker/worker.go answers.
use subtrace_docker_wireshar.Base.{
  ◌≤◌, ◌<◌, ◌≡◌, refl, arith, true, ◌⊎◌, Bool-cases, inl, inr, [], Option, none, some, Option-cases,
  ==_iff, length, take, ltb, ◌==◌,
}
use subtrace_docker_wireshar.Worker.Columns.{Bytes}
use subtrace_docker_wireshar.Worker.Queries.{
  max_result_bytes, Reply, Http, bad_endpoint, bad_request, no_answer, answers, Fault, Proxied,
  answered, Mode, plain, gzip, Result, Zipped, zipped, packed, proxy_clickhouse, result_of,
  run_query,
}

-- The reader of a result.
abbrev pub unpack : (Bytes → Option Bytes) → Mode → Bytes → Option Bytes
unpack gunzip plain bytes = some bytes
unpack gunzip gzip bytes = gunzip bytes

-- A result with no error, which unpacks to these bytes and is compressed from 4096 of them on.
pub record Carries (gunzip : Bytes → Option Bytes) (r : Result) (body : Bytes) : Type 0 where
  pub no_clickhouse_error : r.clickhouse_error ≡ none
  pub no_tunnel_error : r.tunnel_error ≡ none
  pub unpacks : unpack gunzip r.mode r.compressed ≡ some body
  pub threshold : (r.mode ≡ plain → length body < 4096) × (r.mode ≡ gzip → 4096 ≤ length body)

-- A result without data and with one error of the two.
abbrev pub Fails : Result → Type 0
Fails r =
    (r.compressed ≡ [])
    × (((f : Fault) × (r.tunnel_error ≡ some f) × (r.clickhouse_error ≡ none))
        ⊎ ((f : Fault) × (r.clickhouse_error ≡ some f) × (r.tunnel_error ≡ none)))

-- The body of an answer with status 200 that could be read.
abbrev pub IsBody : Http → Bytes → Type 0
IsBody http body = (r : Reply) × (http ≡ answers r) × (r.status ≡ 200) × (r.body ≡ some body)

module _ (compress : Bytes → Zipped) (gunzip : Bytes → Option Bytes) where
  -- The writer works, and the reader gives the bytes back.
  abbrev pub Inflates : Type 0
  Inflates = (b : Bytes) → (z : Bytes) × (compress b ≡ zipped z) × (gunzip z ≡ some b)

  packed-Carries :
      (id : Bytes) (p : Proxied) → Inflates → Carries gunzip (packed compress id p) p.result
  packed-Carries id p law = elim (Bool-cases (ltb (length p.result) 4096)) [
    | inl e ↦ rw e (record {
      no_clickhouse_error = refl;
      no_tunnel_error = refl;
      unpacks = refl;
      threshold = (λ h. ground (arith, e), λ h. cc);
    })
    | inr e ↦
        let (z, made, back) = law p.result in
        rw (e, made)
          (record {
            no_clickhouse_error = refl;
            no_tunnel_error = refl;
            unpacks = back;
            threshold = (λ h. cc, λ h. ground (arith, e));
          })
  ]

  no_body-Fails :
      (id : Bytes) (http : Http)
      → ((body : Bytes) → ¬ IsBody http body)
      → Fails (run_query compress id http)
  unfolding run_query proxy_clickhouse result_of
  no_body-Fails id bad_endpoint h = (refl, inl (_, refl, refl))
  no_body-Fails id bad_request h = (refl, inl (_, refl, refl))
  no_body-Fails id no_answer h = (refl, inl (_, refl, refl))
  no_body-Fails id (answers r) h = elim (Bool-cases (r.status == 200)) [
    | inr e ↦ rw e (refl, inr (_, refl, refl))
    | inl e ↦ elim (Option-cases r.body) [
      | inl unread ↦ rw (e, unread) (refl, inl (_, refl, refl))
      | inr (body, read) ↦ absurd (h body (r, refl, (==_iff r.status 200).0 e, read))
    ]
  ]

  body-Carries :
      (id : Bytes) (http : Http) (body : Bytes)
      → Inflates
      → IsBody http body
      → Carries gunzip (run_query compress id http) (take max_result_bytes body)
  unfolding run_query proxy_clickhouse result_of
  body-Carries id http body law (r, e, ok, read) =
      let fine : (r.status == 200) ≡ true = (==_iff r.status 200).1 ok in
      rw (e, fine, read) (packed-Carries id (answered r.clickhouse_query_id (some body)) law)

  answers-cases :
      (http : Http) → ((body : Bytes) × IsBody http body) ⊎ ((body : Bytes) → ¬ IsBody http body)
  answers-cases bad_endpoint = inr (λ body (r, e, ok, read). cc)
  answers-cases bad_request = inr (λ body (r, e, ok, read). cc)
  answers-cases no_answer = inr (λ body (r, e, ok, read). cc)
  answers-cases (answers r) = elim (Bool-cases (r.status == 200)) [
    | inr e ↦ inr (λ body (q, same, ok, read). ground (arith, e, same, ok))
    | inl e ↦ elim (Option-cases r.body) [
      | inl unread ↦ inr (λ body (q, same, ok, read). ground (arith, unread, same, read))
      | inr (body, read) ↦ inl (body, (r, refl, (==_iff r.status 200).0 e, read))
    ]
  ]

  -- Either ClickHouse's answer has status 200 and a body that can be read, and the result of runQuery
  -- unpacks, with no error in it, to the body up to 128 MiB, and is compressed just from 4096 bytes on; or
  -- there is no such answer, and the result has no data and one error of the two. Where gzip works and
  -- gives back what it packs.
  pub run_query-Carries :
      (id : Bytes) (http : Http)
      → Inflates
      → ((body : Bytes) × IsBody http body
          × Carries gunzip (run_query compress id http) (take max_result_bytes body))
        ⊎ (((body : Bytes) → ¬ IsBody http body) × Fails (run_query compress id http))
  run_query-Carries id http law = elim (answers-cases http) [
    | inl (body, h) ↦ inl (body, h, body-Carries id http body law h)
    | inr h ↦ inr (h, no_body-Fails id http h)
  ]
