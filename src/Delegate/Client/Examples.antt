-- ===== src/Delegate/Client/Examples.antt =====
-- The client and the delegate call at concrete exchanges.
use josu.Common.{none, some, []}
use josu.Delegate.Json.{decode_error}
use josu.Delegate.Client.{Response, Libraries}

abbrev plain : Libraries
plain = record { loads = λ body. decode_error; show = λ value. "" }

abbrev limited : Response
limited = record { status_code = 429; retry_after = some "30"; chunks = []; cut = none }
