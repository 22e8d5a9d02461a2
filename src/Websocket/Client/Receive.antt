-- ===== src/Websocket/Client/Receive.antt =====
-- How frames become a message, and how receiving one fails.
use Prim.Native.Nat.{bit_and}
use mathlib.Core.List.{append_assoc}
use rito.Common.{
  ℕ, zero, suc, ◌<◌, true, false, none, some, List, [], ◌∷◌, ◌++◌, Bytes, ◌≡◌, ◌≢◌, refl, sym, ap,
  subst, ◌∙◌, inl, inr, length, arith, Bool-cases, Option-cases,
}
use rito.Exception.{Thrown, websocket_exception, message_exception}
use rito.Result.{Result, ok, throw}
use rito.Act.{Act, Act-cases, raise, rescue}
use rito.Websocket.Client.{
  Received, WebSocketApi, ClientState, not_started, disconnected, too_long, set_connected,
  max_frames_per_message, receive_failure, is_closing, is_last, receive_frames, receive_message,
}

abbrev pub payloads : List Received → Bytes
payloads [] = []
payloads (r ∷ rs) = r.payload ++ payloads rs

-- An empty frame with no flags is how Poco reports that the peer has gone.
abbrev pub IsClosing : Received → Type 0
IsClosing r = (r.payload ≡ []) × (r.flags ≡ 0)

module _ {W : Type 0} (api : WebSocketApi W) (ws : ℕ) where
  abbrev pub HasFin : Received → Type 0
  HasFin r = bit_and r.flags api.frame_flag_fin ≢ 0

  is_closing-IsClosing : (r : Received) → is_closing api r ≡ true → IsClosing r
  is_closing-IsClosing r h = ground arith

  not-IsClosing : (r : Received) → is_closing api r ≡ false → ¬ IsClosing r
  not-IsClosing r h c = ground arith

  is_last-HasFin : (r : Received) → is_last api r ≡ true → HasFin r
  is_last-HasFin r h e = ground arith

  not-HasFin : (r : Received) → is_last api r ≡ false → ¬ HasFin r
  not-HasFin r h n = n (ground arith)

  -- These frames were received one after another, and none of them ended the message.
  pub data Frames : List Received → W → W → Type 0 where
    nil : {w : W} → Frames [] w w
    cons :
        {r : Received} {rs : List Received} {w w₁ w' : W}
        → api.receive_frame ws w ≡ (ok r, w₁)
        → ¬ IsClosing r
        → ¬ HasFin r
        → Frames rs w₁ w'
        → Frames (r ∷ rs) w w'

  -- What an exception of receiveFrame turns into.
  abbrev pub Handler : Type 0
  Handler = Thrown → Act (ClientState W) Bytes

  -- The ways in which a message ends, with `n` frames allowed.
  pub data Loop (fail : Handler) (n : ℕ) (buffer : Bytes) (s : ClientState W) (r : Result Bytes)
      (t : ClientState W) : Type 0 where
    whole :
        (rs : List Received) (last : Received) (w₁ w₂ : W)
        → Frames rs s.world w₁
        → length rs < n
        → api.receive_frame ws w₁ ≡ (ok last, w₂)
        → ¬ IsClosing last
        → HasFin last
        → r ≡ ok (buffer ++ (payloads rs ++ last.payload))
        → t ≡ record s { world = w₂ }
        → Loop fail n buffer s r t
    too_many :
        (rs : List Received) (w₁ : W)
        → Frames rs s.world w₁
        → length rs ≡ n
        → r ≡ throw (message_exception too_long)
        → t ≡ record s { world = w₁ }
        → Loop fail n buffer s r t
    hung_up :
        (rs : List Received) (last : Received) (w₁ w₂ : W)
        → Frames rs s.world w₁
        → length rs < n
        → api.receive_frame ws w₁ ≡ (ok last, w₂)
        → IsClosing last
        → r ≡ throw (websocket_exception disconnected)
        → t ≡ set_connected false (record s { world = w₂ })
        → Loop fail n buffer s r t
    failed :
        (rs : List Received) (e : Thrown) (w₁ w₂ : W)
        → Frames rs s.world w₁
        → length rs < n
        → api.receive_frame ws w₁ ≡ (throw e, w₂)
        → (r ≡ (fail e (record s { world = w₂ })).0) × (t ≡ (fail e (record s { world = w₂ })).1)
        → Loop fail n buffer s r t

  abbrev Ends : ℕ → Bytes → ClientState W → Result Bytes × ClientState W → Type 0
  Ends n buffer s (r, t) = Loop raise n buffer s r t

  Loop-cons :
      (n : ℕ) (buffer : Bytes) (s : ClientState W) (f : Received) (w : W) {r : Result Bytes}
      {t : ClientState W}
      → api.receive_frame ws s.world ≡ (ok f, w)
      → ¬ IsClosing f
      → ¬ HasFin f
      → Loop raise n (buffer ++ f.payload) (record s { world = w }) r t
      → Loop raise (suc n) buffer s r t
  Loop-cons n buffer s f w e c l (whole rs last w₁ w₂ fs h q c' l' er et) =
      whole (f ∷ rs) last w₁ w₂ (cons e c l fs) (omega arith) q c' l'
        (er
          ∙ ap ok (
              append_assoc buffer f.payload (payloads rs ++ last.payload)
              ∙ ap (◌++◌ buffer) (sym (append_assoc f.payload (payloads rs) last.payload))))
        et
  Loop-cons n buffer s f w e c l (too_many rs w₁ fs h er et) =
      too_many (f ∷ rs) w₁ (cons e c l fs) (omega arith) er et
  Loop-cons n buffer s f w e c l (hung_up rs last w₁ w₂ fs h q c' er et) =
      hung_up (f ∷ rs) last w₁ w₂ (cons e c l fs) (omega arith) q c' er et
  Loop-cons n buffer s f w e c l (failed rs x w₁ w₂ fs h q er) =
      failed (f ∷ rs) x w₁ w₂ (cons e c l fs) (omega arith) q er

  module _ (n : ℕ) (buffer : Bytes) (s : ClientState W) where
    frames_failed :
        {e : Thrown} {w : W}
        → api.receive_frame ws s.world ≡ (throw e, w)
        → receive_frames api (suc n) ws buffer s ≡ (throw e, record s { world = w })
    unfolding receive_frames
    frames_failed e = ground arith

    frames_closed :
        {f : Received} {w : W}
        → api.receive_frame ws s.world ≡ (ok f, w)
        → is_closing api f ≡ true
        → receive_frames api (suc n) ws buffer s
          ≡ (throw (websocket_exception disconnected), set_connected false (record s { world = w }))
    unfolding receive_frames
    frames_closed e c = ground arith

    frames_last :
        {f : Received} {w : W}
        → api.receive_frame ws s.world ≡ (ok f, w)
        → is_closing api f ≡ false
        → is_last api f ≡ true
        → receive_frames api (suc n) ws buffer s
          ≡ (ok (buffer ++ f.payload), record s { world = w })
    unfolding receive_frames
    frames_last e c l = ground arith

    frames_more :
        {f : Received} {w : W}
        → api.receive_frame ws s.world ≡ (ok f, w)
        → is_closing api f ≡ false
        → is_last api f ≡ false
        → receive_frames api (suc n) ws buffer s
          ≡ receive_frames api n ws (buffer ++ f.payload) (record s { world = w })
    unfolding receive_frames
    frames_more e c l = ground arith

  receive_frames-Ends :
      (n : ℕ) (buffer : Bytes) (s : ClientState W)
      → Ends n buffer s (receive_frames api n ws buffer s)
  receive_frames-Ends zero buffer s =
      too_many [] s.world nil refl (unfold receive_frames in refl) (unfold receive_frames in refl)
  receive_frames-Ends (suc n) buffer s = elim (Act-cases (api.receive_frame ws s.world)) [
    | inr (x, w, e) ↦
        subst (Ends (suc n) buffer s) (sym (frames_failed n buffer s e))
          (failed [] x s.world w nil (omega arith) e (refl, refl))
    | inl (f, w, e) ↦ elim (Bool-cases (is_closing api f)) [
      | inl c ↦
          subst (Ends (suc n) buffer s) (sym (frames_closed n buffer s e c))
            (hung_up [] f s.world w nil (omega arith) e (is_closing-IsClosing f c) refl refl)
      | inr c ↦ elim (Bool-cases (is_last api f)) [
        | inl l ↦ subst (Ends (suc n) buffer s) (sym (frames_last n buffer s e c l)) (
            whole [] f s.world w nil (omega arith) e (not-IsClosing f c) (is_last-HasFin f l) refl
              refl)
        | inr l ↦ subst (Ends (suc n) buffer s) (sym (frames_more n buffer s e c l)) (
            Loop-cons n buffer s f w e (not-IsClosing f c) (not-HasFin f l)
              (receive_frames-Ends n (buffer ++ f.payload) (record s { world = w })))
      ]
    ]
  ]

  -- The exceptions of the loop itself go through the catch clauses unchanged.
  Loop-rescue :
      (n : ℕ) (s : ClientState W) (r : Result Bytes) (t : ClientState W)
      → Loop raise n [] s r t
      → let (r', t') = rescue (r, t) receive_failure in Loop receive_failure n [] s r' t'
  unfolding receive_failure
  Loop-rescue n s r t (whole rs last w₁ w₂ fs h q c l er et) =
      rw (er, et) (whole rs last w₁ w₂ fs h q c l refl refl)
  Loop-rescue n s r t (too_many rs w₁ fs h er et) = rw (er, et) (too_many rs w₁ fs h refl refl)
  Loop-rescue n s r t (hung_up rs last w₁ w₂ fs h q c er et) =
      rw (er, et) (hung_up rs last w₁ w₂ fs h q c refl refl)
  Loop-rescue n s r t (failed rs e w₁ w₂ fs h q (er, et)) =
      rw (er, et) (failed rs e w₁ w₂ fs h q (refl, refl))

module _ {W : Type 0} (api : WebSocketApi W) (s : ClientState W) where
  -- What a call leads to, from what the frames were.
  pub data Receives (r : Result Bytes) (t : ClientState W) : Type 0 where
    absent : s.websocket ≡ none → r ≡ throw (websocket_exception not_started) → t ≡ s → Receives r t
    present :
        (ws : ℕ)
        → s.websocket ≡ some ws
        → Loop api ws receive_failure max_frames_per_message [] s r t
        → Receives r t

  abbrev pub ReceivesPair : Result Bytes × ClientState W → Type 0
  ReceivesPair (r, t) = Receives r t

  receive_absent :
      s.websocket ≡ none → receive_message api s ≡ (throw (websocket_exception not_started), s)
  unfolding receive_message
  receive_absent e = ground arith

  receive_present :
      {ws : ℕ}
      → s.websocket ≡ some ws
      → receive_message api s
        ≡ rescue (receive_frames api max_frames_per_message ws [] s) receive_failure
  unfolding receive_message
  receive_present e = ground arith

  -- A call with no websocket throws Websocket_exception. Otherwise it receives frames until one
  -- has the FIN flag, and returns their payloads joined in order, where at most 255 frames were
  -- received; after 255 frames with no end it throws Message_exception; at a frame that is empty
  -- and has no flags it throws Websocket_exception and the client is no longer connected; and what
  -- receiveFrame throws goes through `receive_failure`. Nothing else of the client changes.
  pub receive_message-Receives : ReceivesPair (receive_message api s)
  receive_message-Receives = elim (Option-cases s.websocket) [
    | inl e ↦ subst ReceivesPair (sym (receive_absent e)) (absent e refl refl)
    | inr (ws, e) ↦
        let p = receive_frames api max_frames_per_message ws [] s in
        subst ReceivesPair (sym (receive_present e)) (
          present ws e (
            Loop-rescue api ws max_frames_per_message s p.0 p.1
              (receive_frames-Ends api ws max_frames_per_message [] s)))
  ]
