-- ===== src/Websocket/Race/Returns.antt =====
-- The way of a call of send_message or stop to its return.
use rito.Common.{ℕ, Bool, false, none, ◌≡◌, refl, ap, ◌∙◌, ◌⊎◌, inl, inr, arith, Option-cases}
use rito.Websocket.Race.{
  Shared, CallerPc, outside, send_asking, send_waiting, send_holding, stop_asking, stop_following,
  stop_sending, stop_dangling, fallen, is_there, CallerMove, send_refused, send_allowed, takes_lock,
  sends, send_falls, stop_refused, stop_allowed, stop_follows, stop_returns, stop_dangles,
  stop_falls, System, init, Steps, here,
}
use rito.Websocket.Race.Paths.{then_steps, move-Steps, updated_at}
use rito.Websocket.Race.Ends.{is_up-cases}
use rito.Websocket.Race.Progress.{may_hold, HasFallen, Steps-Frees}

-- The thread `i` has returned, or a thread has followed a null pointer or used an ended client.
abbrev pub CanReturn : ℕ → System → Type 0
CanReturn i s = (t : System) × Steps s t × ((t.caller i ≡ outside) ⊎ HasFallen t)

module _ (i : ℕ) where
  abbrev Returns : CallerPc → Type 0
  Returns pc = (s : System) → s.caller i ≡ pc → s.shared.lock ≡ none → CanReturn i s

  and_returns : {s t : System} → Steps s t → CanReturn i t → CanReturn i s
  and_returns r (u, q, z) = (u, then_steps r q, z)

  last-CanReturn :
      (s : System) {c : CallerPc} {m : Shared}
      → s.caller i ≡ c
      → CallerMove i s.shared c m outside
      → CanReturn i s
  last-CanReturn s {m = m} e mv = (_, move-Steps i s e mv, inl (updated_at s.caller i outside))

  fall-CanReturn :
      (s : System) {c : CallerPc} {m : Shared}
      → s.caller i ≡ c
      → CallerMove i s.shared c m fallen
      → CanReturn i s
  fall-CanReturn s {m = m} e mv = (_, move-Steps i s e mv, inr (i, updated_at s.caller i fallen))

  holding-CanReturn : (b : Bool) (s : System) → s.caller i ≡ send_holding b → CanReturn i s
  holding-CanReturn b s e = elim (Option-cases s.shared.websocket) [
    | inl gone ↦ fall-CanReturn s e (send_falls b gone)
    | inr (up, there) ↦ last-CanReturn s e (sends b (λ z. ground arith))
  ]

  waiting-Returns : Returns send_waiting
  waiting-Returns s e l =
      let b = is_there s.shared.websocket in
      and_returns (move-Steps i s e (takes_lock b l refl))
        (holding-CanReturn b _ (updated_at s.caller i _))

  send_asking-Returns : Returns send_asking
  send_asking-Returns s e l = elim (is_up-cases s.shared.websocket) [
    | inl up ↦
        and_returns (move-Steps i s e (send_allowed l up))
          (waiting-Returns _ (updated_at s.caller i _) l)
    | inr down ↦ last-CanReturn s e (send_refused l down)
  ]

  following-CanReturn : (s : System) → s.caller i ≡ stop_following → CanReturn i s
  following-CanReturn s e = elim (Option-cases s.shared.websocket) [
    | inl gone ↦ fall-CanReturn s e (stop_falls gone)
    | inr (up, there) ↦
        and_returns (move-Steps i s e (stop_follows (λ z. ground arith)))
          (last-CanReturn _ (updated_at s.caller i _) stop_returns)
  ]

  stop_asking-Returns : Returns stop_asking
  stop_asking-Returns s e l = elim (is_up-cases s.shared.websocket) [
    | inl up ↦
        and_returns (move-Steps i s e (stop_allowed l up))
          (following-CanReturn _ (updated_at s.caller i _))
    | inr down ↦ last-CanReturn s e (stop_refused l down)
  ]

  -- A thread that does not have the lock waits until it is let go.
  freed-CanReturn :
      {s : System} {pc : CallerPc}
      → Steps init s
      → s.caller i ≡ pc
      → may_hold pc ≡ false
      → Returns pc
      → CanReturn i s
  freed-CanReturn r e n returns = elim (Steps-Frees r) [
    | inl f ↦
        and_returns f.steps (returns f.freed (f.others_same i (ap may_hold e ∙ n) ∙ e) f.is_free)
    | inr (t, u, z) ↦ (t, u, inr z)
  ]

  place-CanReturn : {s : System} (pc : CallerPc) → Steps init s → s.caller i ≡ pc → CanReturn i s
  place-CanReturn {s} outside r e = (s, here, inl e)
  place-CanReturn send_asking r e = freed-CanReturn r e refl send_asking-Returns
  place-CanReturn send_waiting r e = freed-CanReturn r e refl waiting-Returns
  place-CanReturn {s} (send_holding b) r e = holding-CanReturn b s e
  place-CanReturn stop_asking r e = freed-CanReturn r e refl stop_asking-Returns
  place-CanReturn {s} stop_following r e = following-CanReturn s e
  place-CanReturn {s} stop_sending r e = last-CanReturn s e stop_returns
  place-CanReturn {s} stop_dangling r e = fall-CanReturn s e stop_dangles
  place-CanReturn {s} fallen r e = (s, here, inr (i, e))

-- However the threads have taken turns: they can take turns so that a given call of send_message
-- or stop returns, or a thread follows a null pointer or uses a client after its end; no deadlock
-- keeps them from it.
pub Steps-CanReturn : {s : System} (i : ℕ) → Steps init s → CanReturn i s
Steps-CanReturn {s} i r = place-CanReturn i (s.caller i) r refl
