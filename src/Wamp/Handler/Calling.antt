-- ===== src/Wamp/Handler/Calling.antt =====
-- What the calls of a WAMP handler put on the wire.
use rito.Common.{Bool, List, [], ◌∷◌, Bytes, some, ◌≡◌, All}
use rito.Process.FileSystem.{FileSystem}
use rito.Outcome.{Outcome}
use rito.Websocket.Client.{WebSocketApi}
use rito.Websocket.Handler.Sending.{Sends, send_message-Sends}
use rito.Wamp.Messages.{call_with_message, call_message, subscribe_message, unsubscribe_message}
use rito.Wamp.Messages.Reading.{
  read_message, IsPlain, read_message-call_with, read_message-call, IsUnclosed,
  subscribe_message-IsUnclosed, unsubscribe_message-IsUnclosed,
}
use rito.Wamp.Handler.{
  LcuWampHandler, lifted, files_of, sleep_of, call_with, call, subscribe, unsubscribe,
}

module _ {V : Type 0} (api : WebSocketApi V) (files : V → FileSystem) (sleep : V → V) where
  -- For texts with no quotation mark, no backslash and no control character, a call with arguments
  -- hands to the websocket handler's send_message one text that is the array of the number 2, the
  -- identifier, the function and the arguments in their order: it returns false and changes nothing where
  -- there is no client that is connected, and otherwise sends that text in one frame, returning
  -- true where Poco's send returns and ending the process where that throws.
  pub call_with-Sends :
      (identifier function arg : Bytes) (args : List Bytes) (s : LcuWampHandler V)
      → IsPlain identifier
      → IsPlain function
      → IsPlain arg
      → All IsPlain args
      → (m : Bytes) × (read_message m ≡ some (2, identifier ∷ function ∷ arg ∷ args))
        × Sends
            (lifted api)
            (files_of files)
            (sleep_of sleep)
            m
            s
            (call_with api files sleep identifier function arg args s).0
            (call_with api files sleep identifier function arg args s).1
  unfolding call_with
  call_with-Sends identifier function arg args s hi hf ha has =
      let m = call_with_message identifier function arg args in
      (
        m,
        read_message-call_with identifier function arg args hi hf ha has,
        send_message-Sends (lifted api) (files_of files) (sleep_of sleep) m s,
      )

  -- What a method does that sends one text with this property.
  abbrev pub SendsOne :
      (Bytes → Type 0) → LcuWampHandler V → Outcome Bool × LcuWampHandler V → Type 0
  SendsOne IsText s (r, t) =
      (m : Bytes) × IsText m × Sends (lifted api) (files_of files) (sleep_of sleep) m s r t

  -- A call without arguments, for texts with no quotation mark, no backslash and no control character,
  -- sends its identifier and its function in one text, as a call with arguments does, but with the
  -- number 5, that of a subscription; it returns false and changes nothing where there is no client that is
  -- connected.
  pub call-Sends :
      (identifier function : Bytes) (s : LcuWampHandler V)
      → IsPlain identifier
      → IsPlain function
      → SendsOne
          (λ m. read_message m ≡ some (5, identifier ∷ function ∷ []))
          s
          (call api files sleep identifier function s)
  unfolding call
  call-Sends identifier function s hi hf =
      let m = call_message identifier function in
      (
        m,
        read_message-call identifier function hi hf,
        send_message-Sends (lifted api) (files_of files) (sleep_of sleep) m s,
      )

  -- For an event with no quotation mark, no backslash and no control character, subscribe and
  -- unsubscribe each send one text that is no JSON array, since it does not end in a bracket; with a
  -- bracket appended it is the array of the number 5, or 6 for unsubscribe, and the event. They
  -- return false and change nothing where there is no client that is connected.
  pub subscribe-Sends :
      (event : Bytes) (s : LcuWampHandler V)
      → IsPlain event
      → SendsOne (IsUnclosed 5 event) s (subscribe api files sleep event s)
        × SendsOne (IsUnclosed 6 event) s (unsubscribe api files sleep event s)
  unfolding subscribe unsubscribe
  subscribe-Sends event s h =
      let send = send_message-Sends (lifted api) (files_of files) (sleep_of sleep) in
      (
        (
          subscribe_message event,
          subscribe_message-IsUnclosed event h,
          send (subscribe_message event) s,
        ),
        (
          unsubscribe_message event,
          unsubscribe_message-IsUnclosed event h,
          send (unsubscribe_message event) s,
        ),
      )
