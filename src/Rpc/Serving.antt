-- ===== src/Rpc/Serving.antt =====
-- internal/rpc/server.go: what a connection sends back.
use torrcli.Base.{
  ◌≡◌, ◌≢◌, ◌⊎◌, inl, inr, refl, ap, arith, Option, none, some, List, [], ◌∷◌, ◌++◌, dec_str, Error,
  Option-cases,
}
use torrcli.Rpc.{version, Request, Reply, Response}
use torrcli.Rpc.Server.{Wire, error_response, answer, check_request, handle, serve_conn}

module _ {R A S : Type 0} (wire : Wire R) (handler : Request R → S → S × Reply A) where
  -- The answers to the lines one after the other, the handler's state passed on.
  abbrev pub responses : List R → S → List (Response R A)
  responses [] s = []
  responses (raw ∷ lines) s = let r = handle wire handler raw s in r.1 ∷ responses lines r.0

  -- A connection sends the answers in the order of the lines. It stops early only with an error,
  -- and then what it has sent is the beginning of them.
  pub serve_conn-responses :
      (writes : List (Option Error)) (scan_error : Option Error) (lines : List R) (s : S)
      → ((unsent : List (Response R A)) × ((serve_conn wire handler writes scan_error lines s).1
              ++ unsent
            ≡ responses lines s))
        × ((serve_conn wire handler writes scan_error lines s).2 ≡ none
            → (serve_conn wire handler writes scan_error lines s).1 ≡ responses lines s)
  unfolding serve_conn
  serve_conn-responses writes scan_error [] s = (([], refl), λ e. refl)
  serve_conn-responses [] scan_error (raw ∷ lines) s =
      let r = handle wire handler raw s in
      let ((unsent, p), all) = serve_conn-responses [] scan_error lines r.0 in
      ((unsent, ap (λ l. r.1 ∷ l) p), λ e. ap (λ l. r.1 ∷ l) (all e))
  serve_conn-responses (none ∷ writes) scan_error (raw ∷ lines) s =
      let r = handle wire handler raw s in
      let ((unsent, p), all) = serve_conn-responses writes scan_error lines r.0 in
      ((unsent, ap (λ l. r.1 ∷ l) p), λ e. ap (λ l. r.1 ∷ l) (all e))
  serve_conn-responses (some x ∷ writes) scan_error (raw ∷ lines) s =
      ((responses (raw ∷ lines) s, refl), λ e. absurd (ground arith))

  -- An answer has the protocol's version, and either the handler was not called and the state is
  -- what it was, or the line is a request with a method and an ID, which the answer repeats.
  pub handle_cases :
      (raw : R) (s : S)
      → ((handle wire handler raw s).1.jsonrpc ≡ version)
        × (((handle wire handler raw s).0 ≡ s)
            ⊎ ((r : Request R) × (wire.parse raw ≡ some r)
                × (r.jsonrpc ≡ version)
                × (r.method ≢ "")
                × (r.id ≡ some (handle wire handler raw s).1.id)
                × ((handle wire handler raw s).0 ≡ (handler r s).0)
                × ((handle wire handler raw s).1.body ≡ (handler r s).1)))
  unfolding handle check_request error_response answer
  handle_cases raw s = elim (Option-cases (wire.parse raw)) [
    | inl e ↦ rw (e, handle) (refl, inl refl)
    | inr (r, e) ↦ elim (Option-cases r.id) [
      | inl i ↦ ground arith
      | inr (id, i) ↦ elim (dec_str r.jsonrpc version) [
        | no n ↦ ground arith
        | yes v ↦ elim (dec_str r.method "") [
          | yes m ↦ ground arith
          | no m ↦ (ground arith, inr (r, e, v, m, ground arith, ground arith, ground arith))
        ]
      ]
    ]
  ]
