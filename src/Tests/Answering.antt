-- ===== src/Tests/Answering.antt =====
-- Requests to the daemon.
use torrcli.Base.{ℕ, ◌≡◌, ◌≢◌, ◌⊎◌, ◌+◌, ◌++◌, String, none, some, List, [], ◌∷◌, canceled}
use torrcli.Rpc.{Request, Reply, reply, Response}
use torrcli.Rpc.Server.{Wire, handle, serve_conn}
use torrcli.Rpc.Serving.{responses, serve_conn-responses, handle_cases}
use torrcli.Daemon.Handler.{handle_rpc}
use torrcli.Daemon.Refusals.{IsAnswered, handle_rpc-IsAnswered}
use torrcli.Tests.{plain_text, willing, daemon_a, digits, json, pause_a}

handle_rpc-IsAnswered_example :
    IsAnswered willing plain_text digits json pause_a daemon_a
      (handle_rpc willing plain_text digits json pause_a daemon_a).0
      (handle_rpc willing plain_text digits json pause_a daemon_a).1
handle_rpc-IsAnswered_example =
    handle_rpc-IsAnswered willing plain_text digits json pause_a daemon_a

abbrev wire : Wire String
wire = record {
  parse = λ raw. some (record { jsonrpc = "2.0"; id = some "1"; method = raw; params = "a" });
  null = "null";
}

abbrev echo : Request String → ℕ → ℕ × Reply String
echo r n = (n + 1, reply r.method)

serve_conn-responses_example :
    ((unsent : List (Response String String)) × ((serve_conn wire echo
            (none ∷ some canceled ∷ [])
            none
            ("x" ∷ "y" ∷ [])
            0).1
          ++ unsent
        ≡ responses wire echo ("x" ∷ "y" ∷ []) 0))
    × ((serve_conn wire echo (none ∷ some canceled ∷ []) none ("x" ∷ "y" ∷ []) 0).2 ≡ none
        → (serve_conn wire echo (none ∷ some canceled ∷ []) none ("x" ∷ "y" ∷ []) 0).1
          ≡ responses wire echo ("x" ∷ "y" ∷ []) 0)
serve_conn-responses_example =
    serve_conn-responses wire echo (none ∷ some canceled ∷ []) none ("x" ∷ "y" ∷ []) 0

handle_cases_example :
    ((handle wire echo "x" 0).1.jsonrpc ≡ "2.0")
    × (((handle wire echo "x" 0).0 ≡ 0)
        ⊎ ((r : Request String) × (wire.parse "x" ≡ some r)
            × (r.jsonrpc ≡ "2.0")
            × (r.method ≢ "")
            × (r.id ≡ some (handle wire echo "x" 0).1.id)
            × ((handle wire echo "x" 0).0 ≡ (echo r 0).0)
            × ((handle wire echo "x" 0).1.body ≡ (echo r 0).1)))
handle_cases_example = handle_cases wire echo "x" 0
