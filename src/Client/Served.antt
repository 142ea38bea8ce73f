-- ===== src/Client/Served.antt =====
-- internal/client and internal/rpc: a client's call through the server's connection.
use torrcli.Base.{◌≡◌, ◌≢◌, arith, String, Option, none, some, Result, ok, err, pure, other}
use torrcli.Rpc.{version, Request, Message, Reply, Response}
use torrcli.Rpc.Server.{Wire, handle, check_request, answer}
use torrcli.Client.{Link, call, result_of}

module _ {R A S : Type 0} (wire : Wire R) (handler : Request R → S → S × Reply A)
    (write : Request R → R) (marshal : A → Result R) (text_of : Message → String)
    (one no_params : R) where
  -- A connection that loses nothing, with the server at its other end. The state is the server's,
  -- and the response that the client has still to read.
  unfoldable pub served : Link R A (S × Option (Response R A))
  served = record {
    dial = pure tt;
    send = λ request (s, inbox).
        let r = handle wire handler (write request) s in ((r.0, some r.1), ok tt);
    receive = λ (s, inbox). elim inbox [
      | none ↦ ((s, none), err (other 0))
      | some response ↦ ((s, none), ok response)
    ];
    marshal = marshal;
    text_of = text_of;
    one = one;
    no_params = no_params;
  }

  -- The request that a call writes.
  abbrev request_of : String → R → Request R
  request_of method params = record {
    jsonrpc = version;
    id = some one;
    method = method;
    params = params;
  }

  -- A call runs the handler once, on a request with the method and the parameters, and what the
  -- client makes of the handler's reply is what the call returns, if the server parses what is
  -- written for this request as the request and the method has a name.
  pub call-served :
      {B : Type 0} (method : String) (params : R) (decode : R → Result B) (s : S)
      → method ≢ ""
      → wire.parse (write (request_of method params)) ≡ some (request_of method params)
      → let r = request_of method params in
        call served method (some (ok params)) decode (s, none)
        ≡ result_of served method decode (handler r s).1 ((handler r s).0, none)
  unfolding call served handle check_request answer
  call-served method params decode s h parsed = ground (arith, parsed)
