-- ===== src/Wamp/Tests/Calling.antt =====
-- What the handler with a connection sends.
use rito.Common.{[], ◌∷◌, Bytes, codes, some, ◌≡◌, arith}
use rito.Wamp.Messages.Reading.{read_message, IsUnclosed}
use rito.Websocket.Handler.Sending.{Sends}
use rito.Wamp.Handler.{lifted, files_of, sleep_of, call_with}
use rito.Wamp.Handler
use rito.Wamp.Handler.Calling.{SendsOne, call_with-Sends, call-Sends, subscribe-Sends}
use rito.Wamp.Tests.{poco, files, wired}

call_with-Sends_example :
    (m : Bytes) × (read_message m ≡ some (2, codes "1" ∷ codes "/Exit" ∷ codes "a" ∷ []))
    × Sends
        (lifted poco)
        (files_of files)
        (sleep_of (λ w. w))
        m
        wired
        (call_with poco files (λ w. w) (codes "1") (codes "/Exit") (codes "a") [] wired).0
        (call_with poco files (λ w. w) (codes "1") (codes "/Exit") (codes "a") [] wired).1
call_with-Sends_example =
    call_with-Sends poco files (λ w. w) (codes "1") (codes "/Exit") (codes "a") [] wired
      (ground arith) (ground arith) (ground arith) tt

call-Sends_example :
    SendsOne poco files
      (λ w. w)
      (λ m. read_message m ≡ some (5, codes "1" ∷ codes "/Help" ∷ []))
      wired
      (Handler.call poco files (λ w. w) (codes "1") (codes "/Help") wired)
call-Sends_example =
    call-Sends poco files (λ w. w) (codes "1") (codes "/Help") wired (ground arith) (ground arith)

subscribe-Sends_example :
    SendsOne poco files
      (λ w. w)
      (IsUnclosed 5 (codes "OnJsonApiEvent"))
      wired
      (Handler.subscribe poco files (λ w. w) (codes "OnJsonApiEvent") wired)
    × SendsOne poco files
        (λ w. w)
        (IsUnclosed 6 (codes "OnJsonApiEvent"))
        wired
        (Handler.unsubscribe poco files (λ w. w) (codes "OnJsonApiEvent") wired)
subscribe-Sends_example =
    subscribe-Sends poco files (λ w. w) (codes "OnJsonApiEvent") wired (ground arith)
