-- ===== src/Rpc/Server.antt =====
-- internal/rpc/server.go: one connection, a request to a line.
use torrcli.Base.{String, Option, none, some, List, [], ◌∷◌, dec_str, ite, Error, canceled}
use torrcli.Rpc.{
  version, Request, text, unknown_method, failed, RpcError, Reply, refuse, Response,
  code_parse_error, code_invalid_request, code_method_not_found, code_invalid_params,
  code_internal_error, code_operation_failed,
}

unfoldable pub method_not_found : String → RpcError
method_not_found method = record { code = code_method_not_found; message = unknown_method method }

unfoldable pub invalid_params : RpcError
invalid_params = record { code = code_invalid_params; message = text "invalid params" }

unfoldable pub operation_failed : String → Error → RpcError
operation_failed operation e = record { code = code_operation_failed; message = failed operation e }

-- `errors.Is(err, context.Canceled)`, of an error that is not wrapped.
unfoldable pub internal_error : Error → RpcError
internal_error canceled = record { code = code_internal_error; message = text "request canceled" }
internal_error _ = record { code = code_internal_error; message = text "internal error" }

-- JSON of the requests, and its `null`.
pub record Wire (R : Type 0) : Type 0 where
  pub parse : R → Option (Request R)
  pub null : R

abbrev pub parse_failure : RpcError
parse_failure = record { code = code_parse_error; message = text "parse error" }

abbrev pub request_failure : RpcError
request_failure = record { code = code_invalid_request; message = text "invalid request" }

module _ {R A : Type 0} (wire : Wire R) where
  unfoldable pub error_response : Option R → RpcError → Response R A
  error_response none e = record { jsonrpc = version; id = wire.null; body = refuse e }
  error_response (some id) e = record { jsonrpc = version; id = id; body = refuse e }

module _ {R A S : Type 0} (wire : Wire R) (handler : Request R → S → S × Reply A) where
  unfoldable pub answer : Request R → R → S → S × Response R A
  answer request id s =
      let r = handler request s in (r.0, record { jsonrpc = version; id = id; body = r.1 })

  unfoldable pub check_request : Request R → S → S × Response R A
  unfolding error_response answer
  check_request request s =
      let refused : S × Response R A = (s, error_response wire request.id request_failure) in
      ite (dec_str request.jsonrpc version)
        (elim request.id [
          | none ↦ refused
          | some id ↦ ite (dec_str request.method "") refused (answer request id s)
        ])
        refused

  unfoldable pub handle : R → S → S × Response R A
  unfolding error_response check_request
  handle raw s = elim (wire.parse raw) [
    | none ↦ (s, error_response wire none parse_failure)
    | some request ↦ check_request request s
  ]

  -- The loop over the lines. `writes` is what writeResponse returns each time (it returns nil once
  -- the list is used up), and `scan_error` the scanner's error at the end. The result is the
  -- responses that were written and the error of the connection.
  unfoldable pub serve_conn :
      List (Option Error) → Option Error → List R → S → S × List (Response R A) × Option Error
  serve_conn writes scan_error [] s = (s, [], scan_error)
  serve_conn writes scan_error (raw ∷ lines) s =
      let r = handle raw s in
      let more = serve_conn (later writes) scan_error lines r.0 in
      elim (this writes) [ some e ↦ (r.0, [], some e) | none ↦ (more.0, r.1 ∷ more.1, more.2) ]
    where
      this : List (Option Error) → Option Error
      this [] = none
      this (w ∷ ws) = w

      later : List (Option Error) → List (Option Error)
      later [] = []
      later (w ∷ ws) = ws
