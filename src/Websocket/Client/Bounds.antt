-- ===== src/Websocket/Client/Bounds.antt =====
-- How often a call of receive_message waits for a frame, and how long a message may be.
use rito.Common.{
  some, ◌≢◌, ℕ, zero, suc, ◌+◌, ◌*◌, ◌≤◌, length, length-append, Bool-cases, [], Bytes, ◌++◌, ◌≡◌,
  refl, inl, inr, arith, Option-cases,
}
use rito.Exception.{Thrown, poco_timeout, websocket_exception, message_exception, foreign}
use rito.Result.{Result, ok, throw}
use rito.Act.{Act-cases}
use rito.Websocket.Client.{
  WebSocketApi, ClientState, max_frames_per_message, receive_frames, receive_message,
  receive_failure, Received, max_frame_size, is_closing, is_last,
}

module _ {W : Type 0} (api : WebSocketApi W) (received : W → ℕ)
    (counts : (n : ℕ) (w : W) → received (api.receive_frame n w).1 ≡ suc (received w)) where
  frames-received :
      (n ws : ℕ) (buffer : Bytes) (s : ClientState W)
      → received (receive_frames api n ws buffer s).1.world ≤ received s.world + n
  unfolding receive_frames
  frames-received zero ws buffer s = omega arith
  frames-received (suc n) ws buffer s = elim (Act-cases (api.receive_frame ws s.world)) [
    | inr (x, w, e) ↦ ground (arith, counts ws s.world)
    | inl (r, w, e) ↦ ground (
      arith,
      counts ws s.world,
      frames-received n ws (buffer ++ r.payload) (record s { world = w }),
    )
  ]

  failure-received :
      (e : Thrown) (s : ClientState W) → received (receive_failure e s).1.world ≡ received s.world
  unfolding receive_failure
  failure-received (poco_timeout _) s = refl
  failure-received (websocket_exception _) s = refl
  failure-received (message_exception _) s = refl
  failure-received foreign s = refl
  failure-received _ s = refl

  message-received :
      (s : ClientState W) → received (receive_message api s).1.world ≤ received s.world + 255
  unfolding receive_message
  message-received s = elim (Option-cases s.websocket) [
    | inl e ↦ ground arith
    | inr (ws, e) ↦ elim (Act-cases (receive_frames api max_frames_per_message ws [] s)) [
      | inl (m, t, q) ↦ ground (arith, frames-received max_frames_per_message ws [] s)
      | inr (x, t, q) ↦
          ground (arith, frames-received max_frames_per_message ws [] s, failure-received x t)
    ]
  ]

-- A message has at most so many bytes.
abbrev pub IsShort : ℕ → Result Bytes → Type 0
IsShort k (ok m) = length m ≤ k
IsShort k (throw e) = Unit {0}

-- The websocket keeps to the size that set_max_payload_size was given.
abbrev pub IsCapped : {W : Type 0} → WebSocketApi W → ℕ → Type 0
IsCapped {W} api ws =
    (w w' : W) (r : Received)
    → api.receive_frame ws w ≡ (ok r, w')
    → length r.payload ≤ max_frame_size

module _ {W : Type 0} (api : WebSocketApi W) (ws : ℕ) (capped : IsCapped api ws) where
  frames-length :
      (n : ℕ) (buffer : Bytes) (s t : ClientState W) (m : Bytes)
      → receive_frames api n ws buffer s ≡ (ok m, t)
      → length m ≤ length buffer + n * 65536
  unfolding receive_frames
  frames-length zero buffer s t m h = absurd (ground arith)
  frames-length (suc n) buffer s t m h = elim (Act-cases (api.receive_frame ws s.world)) [
    | inr (x, w, e) ↦ absurd (ground arith)
    | inl (r, w, e) ↦ elim (Bool-cases (is_closing api r)) [
      | inl c ↦ absurd (ground arith)
      | inr c ↦ elim (Bool-cases (is_last api r)) [
        | inl l ↦
            let joined : m ≡ buffer ++ r.payload = ground arith in
            rw joined (omega (arith, length-append buffer r.payload, capped s.world w r e))
        | inr l ↦
            let later = record s { world = w } in
            let rest : receive_frames api n ws (buffer ++ r.payload) later ≡ (ok m, t) =
              ground arith in
            omega (
              arith,
              length-append buffer r.payload,
              capped s.world w r e,
              frames-length n (buffer ++ r.payload) later t m rest,
            )
      ]
    ]
  ]

  failure_no_message :
      (e : Thrown) (s t : ClientState W) (m : Bytes) → receive_failure e s ≢ (ok m, t)
  unfolding receive_failure
  failure_no_message (poco_timeout _) s t m h = ground arith
  failure_no_message (websocket_exception _) s t m h = ground arith
  failure_no_message (message_exception _) s t m h = ground arith
  failure_no_message foreign s t m h = ground arith
  failure_no_message _ s t m h = ground arith

  message-length :
      (s t : ClientState W) (m : Bytes)
      → s.websocket ≡ some ws
      → receive_message api s ≡ (ok m, t)
      → length m ≤ 16711680
  unfolding receive_message
  message-length s t m e h = elim (Act-cases (receive_frames api max_frames_per_message ws [] s)) [
    | inl (k, u, q) ↦ ground (arith, frames-length max_frames_per_message [] s u k q)
    | inr (x, u, q) ↦ absurd (failure_no_message x u t m (ground arith))
  ]

-- Where each call of receiveFrame is counted, a call of receive_message makes at most 255 of them,
-- however it ends. Where each frame of the websocket keeps to the size that set_max_payload_size
-- was given, a message that is returned has at most 16711680 bytes.
pub receive_message-le :
    {W : Type 0} (api : WebSocketApi W) (received : W → ℕ)
    → ((n : ℕ) (w : W) → received (api.receive_frame n w).1 ≡ suc (received w))
    → (s : ClientState W) (ws : ℕ) → s.websocket ≡ some ws
    → IsCapped api ws
    → (received (receive_message api s).1.world ≤ received s.world + 255)
      × IsShort 16711680 (receive_message api s).0
receive_message-le api received counts s ws e capped = (
  message-received api received counts s,
  elim (Act-cases (receive_message api s)) [
    | inl (m, t, h) ↦ rw h (message-length api ws capped s t m e h)
    | inr (x, t, h) ↦ rw h tt
  ],
)
