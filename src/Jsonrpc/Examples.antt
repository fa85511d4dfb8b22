-- ===== src/Jsonrpc/Examples.antt =====
-- A concrete exchange with the app server, at which the theorems of the client are applied.
use local_skill_orchestrator.Prelude.{
  ℕ, String, ◌≡◌, refl, true, false, some, is_some, List, [], ◌∷◌, ◌++◌, In, pos,
}
use local_skill_orchestrator.Prelude.Json.{Json, null, integer, string, object, end, field}
use local_skill_orchestrator.Prelude.Results.{Result, ok}
use local_skill_orchestrator.Jsonrpc.Framing.{read_stdout}
use local_skill_orchestrator.Jsonrpc.Framing.Chunks.{
  concat, lines_of, route_lines, read_stdout-lines,
}
use local_skill_orchestrator.Jsonrpc.Client.{
  process_ended, RpcClient, PendingRequest, finish_request, new_client,
}
use local_skill_orchestrator.Jsonrpc.Client.Steps.{
  starts, registers, receives, ends, begin, next, step, IsResponse,
}
use local_skill_orchestrator.Jsonrpc.Client.Answers.{
  finish_request-IsResponse, failed-finish_request,
}

abbrev collect : List ℕ → List (List ℕ) → Result String (List (List ℕ))
collect line lines = ok (lines ++ (line ∷ []))

-- "ab\nc" cut within a line
abbrev cut : List (List ℕ)
cut = (97 ∷ []) ∷ (98 ∷ 10 ∷ 99 ∷ []) ∷ []

read_stdout-lines_example :
    read_stdout collect cut [] [] ≡ route_lines collect (lines_of (concat cut)) []
read_stdout-lines_example = read_stdout-lines collect cut []

abbrev response : Json
response = object (field "id" (integer (pos 1)) (field "result" (string "done") end))

abbrev asked : RpcClient
unfolding step
asked = step registers (step starts new_client)

abbrev answered : RpcClient
unfolding step
answered = step (receives response) asked

finish_request-IsResponse_example :
    (m : Json) × In m (response ∷ []) × IsResponse 1 (string "done") m
unfolding step new_client
finish_request-IsResponse_example =
    finish_request-IsResponse (response ∷ []) answered 1 false (string "done")
      (next (receives response) (next registers (next starts begin))) refl

abbrev given_up : PendingRequest
unfolding step
given_up = record { answered = true; result = null; error = some process_ended }

failed-finish_request_example : is_some (finish_request 1 false (step ends asked)).0 ≡ true
unfolding step new_client
failed-finish_request_example =
    failed-finish_request [] (step ends asked) 1 given_up false
      (next ends (next registers (next starts begin))) refl refl
