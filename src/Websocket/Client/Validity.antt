-- ===== src/Websocket/Client/Validity.antt =====
-- What each operation keeps of a client, and the exceptions that leave it.
use rito.Common.{ℕ, true, false, none, Bytes, ◌≡◌, ◌≢◌, refl, ap, subst, ◌⊎◌, inl, inr, arith}
use rito.Exception.{Thrown, foreign, websocket_exception, message_exception, poco_timeout, is_rito}
use rito.Result.{Result, ok, throw, Result-cases}
use rito.Act.{Act-cases}
use rito.Websocket.Client.{
  WebSocketApi, HttpsWebsocketClient, ClientState, set_connected, max_frame_size, start_failure,
  receive_failure, create, set_credentials, start, stop, send_message, receive_message,
}
use rito.Websocket.Client.Receive.{
  Receives, absent, present, whole, too_many, hung_up, failed, receive_message-Receives,
}

-- A client with no websocket does not call itself connected.
abbrev pub IsValid : HttpsWebsocketClient → Type 0
IsValid c = c.websocket ≡ none → c.connected ≡ false

-- Every exception that leaves a catch clause is rito's own, but for those that are no
-- std::exception.
abbrev pub IsOwn : Thrown → Type 0
IsOwn e = (is_rito e ≡ true) ⊎ (e ≡ foreign)

start_failure-IsOwn : (e : Thrown) → IsOwn (start_failure e)
unfolding start_failure is_rito
start_failure-IsOwn foreign = inr refl
start_failure-IsOwn _ = inl refl

receive_failure-IsOwn :
    {W : Type 0} (e : Thrown) (s : ClientState W)
    → (x : Thrown) × ((receive_failure e s).0 ≡ throw x) × IsOwn x
unfolding receive_failure is_rito
receive_failure-IsOwn foreign s = (foreign, refl, inr refl)
receive_failure-IsOwn _ s = (_, refl, inl refl)

receive_failure-websocket :
    {W : Type 0} (e : Thrown) (s : ClientState W)
    → ((receive_failure e s).1 ≡ s) ⊎ ((receive_failure e s).1 ≡ set_connected false s)
unfolding receive_failure
receive_failure-websocket foreign s = inl refl
receive_failure-websocket (websocket_exception _) s = inl refl
receive_failure-websocket (message_exception _) s = inl refl
receive_failure-websocket (poco_timeout _) s = inl refl
receive_failure-websocket _ s = inr refl

module _ {W : Type 0} (api : WebSocketApi W) where
  create_new :
      (host : Bytes) (port : ℕ) (w : W) {c : HttpsWebsocketClient} {w' : W}
      → create api host port w ≡ (ok c, w')
      → (c.connected ≡ false) × (c.websocket ≡ none)
  unfolding create
  create_new host port w e = ground arith

  -- What one call makes of a client.
  pub data Operation : ClientState W → ClientState W → Type 0 where
    set_credentials_op :
        (u p : Bytes) (s : ClientState W)
        → Operation s (record s { client = set_credentials api u p s.client })
    start_op : (s : ClientState W) → Operation s (start api s).1
    stop_op : (s : ClientState W) → Operation s (stop api s).1
    send_op : (m : Bytes) (s : ClientState W) → Operation s (send_message api m s).1
    receive_op : (s : ClientState W) → Operation s (receive_message api s).1

  start-IsValid : (s : ClientState W) → IsValid s.client → IsValid (start api s).1.client
  unfolding start
  start-IsValid s v = ground arith

  stop-IsValid : (s : ClientState W) → IsValid s.client → IsValid (stop api s).1.client
  unfolding stop
  stop-IsValid s v = ground arith

  send_message-IsValid :
      (m : Bytes) (s : ClientState W) → IsValid s.client → IsValid (send_message api m s).1.client
  unfolding send_message
  send_message-IsValid m s v = ground arith

  Receives-IsValid :
      (s : ClientState W) (r : Result Bytes) (t : ClientState W)
      → Receives api s r t
      → IsValid s.client
      → IsValid t.client
  Receives-IsValid s r t (absent e er et) v = rw et v
  Receives-IsValid s r t (present ws e (whole rs last w₁ w₂ fs h q c l er et)) v = rw et v
  Receives-IsValid s r t (present ws e (too_many rs w₁ fs h er et)) v = rw et v
  Receives-IsValid s r t (present ws e (hung_up rs last w₁ w₂ fs h q c er et)) v = rw et (λ _. refl)
  Receives-IsValid s r t (present ws e (failed rs x w₁ w₂ fs h q (er, et))) v =
      ground (arith, receive_failure-websocket x (record s { world = w₂ }))

  -- A client with no websocket is never connected: set_credentials, start, stop, send_message and
  -- receive_message keep this, whether they return or throw.
  pub Operation-IsValid :
      {s t : ClientState W} → Operation s t → IsValid s.client → IsValid t.client
  Operation-IsValid (set_credentials_op u p s) v = unfold set_credentials in v
  Operation-IsValid (start_op s) v = start-IsValid s v
  Operation-IsValid (stop_op s) v = stop-IsValid s v
  Operation-IsValid (send_op m s) v = send_message-IsValid m s v
  Operation-IsValid (receive_op s) v =
      let p = receive_message api s in Receives-IsValid s p.0 p.1 (receive_message-Receives api s) v

  -- On a valid client, stop leaves it disconnected. Where stop returns the websocket is gone; where
  -- the shutdown throws the websocket is still there.
  pub stop_disconnects :
      (s : ClientState W)
      → IsValid s.client
      → let (r, t) = stop api s in
        (t.connected ≡ false)
        × (((r ≡ ok tt) × (t.websocket ≡ none)) ⊎ ((r ≢ ok tt) × (t.websocket ≡ s.websocket)))
  unfolding stop
  stop_disconnects s v = elim (Result-cases (stop api s).0) [
    | inl (_, e) ↦ ground arith
    | inr (x, e) ↦ ground arith
  ]

  -- A start that returns, on a client with no websocket, leaves one that is connected.
  pub start_outcome :
      (s : ClientState W) {t : ClientState W}
      → s.websocket ≡ none
      → start api s ≡ (ok tt, t)
      → (t.connected ≡ true) × (t.websocket ≢ none)
  unfolding start
  start_outcome s e h = ground arith

  start-IsOwn : (s t : ClientState W) (e : Thrown) → start api s ≡ (throw e, t) → IsOwn e
  unfolding start
  start-IsOwn s t e h = elim (Act-cases (api.open_websocket s.session s.request s.world)) [
    | inr (x, w, q) ↦
        let same : start_failure x ≡ e = ground arith in subst IsOwn same (start_failure-IsOwn x)
    | inl (ws, w, q) ↦ elim (Act-cases (api.set_max_payload_size ws max_frame_size w)) [
      | inr (x, w', m) ↦
          let same : start_failure x ≡ e = ground arith in subst IsOwn same (start_failure-IsOwn x)
      | inl (_, w', m) ↦ absurd (ground arith)
    ]
  ]

  Receives-IsOwn :
      (s t : ClientState W) (r : Result Bytes) (e : Thrown)
      → Receives api s r t
      → r ≡ throw e
      → IsOwn e
  unfolding is_rito
  Receives-IsOwn s t r e (absent n er et) h = ground arith
  Receives-IsOwn s t r e (present ws n (whole rs last w₁ w₂ fs k q c l er et)) h = ground arith
  Receives-IsOwn s t r e (present ws n (too_many rs w₁ fs k er et)) h = ground arith
  Receives-IsOwn s t r e (present ws n (hung_up rs last w₁ w₂ fs k q c er et)) h = ground arith
  Receives-IsOwn s t r e (present ws n (failed rs x w₁ w₂ fs k q (er, et))) h =
      let (y, a, own) = receive_failure-IsOwn x (record s { world = w₂ }) in
      let same : y ≡ e = ground arith in subst IsOwn same own

  -- What start and receive_message throw is one of rito's exceptions, unless Poco threw something
  -- that is no std::exception.
  pub failures-IsOwn :
      (s t : ClientState W) (e : Thrown)
      → (start api s ≡ (throw e, t)) ⊎ (receive_message api s ≡ (throw e, t))
      → IsOwn e
  failures-IsOwn s t e (inl h) = start-IsOwn s t e h
  failures-IsOwn s t e (inr h) =
      let p = receive_message api s in
      Receives-IsOwn s p.1 p.0 e (receive_message-Receives api s) (ap (λ q. q.0) h)
