-- ===== src/Delegate/LocalModel/Examples.antt =====
-- The delegate call at a malformed reply and a good one.
use josu.Common.{ℕ, suc, String, none, [], ◌∷◌}
use josu.Delegate.Json.{Json, str, object, field, end, array, cons, nil, decoded}
use josu.Delegate.Client.{Exchange, responded}
use josu.Delegate.LocalModel.{Decoders}

abbrev envelope : Json
envelope = object (
    field "choices"
      (array (cons (object (field "message" (object (field "content" (str "{}") end)) end)) nil))
      end)

abbrev show : Json → String
show (str s) = s
show _ = "?"

abbrev decoders : Decoders
decoders = record {
  libraries = record { loads = λ bytes. decoded envelope; show = show };
  loads_text = λ text. decoded (object (field "result" (str "done") end));
}

-- A good reply to every exchange, or a busy server from the third on.
abbrev reply : ℕ → Exchange
reply status =
    responded
      (record { status_code = status; retry_after = none; chunks = (1 ∷ []) ∷ []; cut = none })

abbrev steady : ℕ → Exchange
steady n = reply 200

abbrev failing : ℕ → Exchange
failing (suc (suc n)) = reply 503
failing _ = reply 200
