-- ===== src/Serving/Vllm/Tests.antt =====
-- Calls of a vLLM container (llm_platform/services/model_server.py).
use foundation_ai_platform.Prelude.{ℕ, ◌≡◌, ◌+◌, refl, none, some}
use foundation_ai_platform.Prelude.Dict.{lookup}
use foundation_ai_platform.Prelude.Int.{pos}
use foundation_ai_platform.Exec.{ok, err, other}
use foundation_ai_platform.Value.{Value, int, hundredths, text, items, table, nil, cons, Fields}
use foundation_ai_platform.Samples.{tiny_up, hello}
use foundation_ai_platform.Serving.Remote.{get_key, get_first, chain}
use foundation_ai_platform.Serving.Vllm.{Post, payload, generate}

abbrev says_hello : Value
says_hello = table (
    Fields.field "choices"
      (items (
        cons
          (table (
            Fields.field "message" (table (Fields.field "content" (text "hello") Fields.end))
              Fields.end))
          nil))
      Fields.end)

-- A server that answers, and one that is down. The state counts the calls.
abbrev up : Post ℕ
up = λ url json w. (ok (200, "", ok says_hello), w + 1)

abbrev down : Post ℕ
down = λ url json w. (ok (500, "no memory", err (other "no JSON")), w + 1)

answered : generate up tiny_up none hello 0 ≡ (ok (text "hello"), 1)
unfolding generate get_key get_first chain lookup
answered = refl

refused : generate down tiny_up none hello 0 ≡ (err (other "vLLM server error: no memory"), 1)
unfolding generate
refused = refl

-- A temperature of zero is false.
replaced : lookup "temperature" (payload (some (int (pos 0))) hello) ≡ some (hundredths 70)
unfolding payload lookup
replaced = refl
