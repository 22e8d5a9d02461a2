-- ===== src/Websocket/Handler/Ending.antt =====
-- In which round the loop of run ends.
use rito.Common.{true, false, List, [], ◌∷◌, ◌++◌, ◌≡◌, sym, subst, inl, inr, arith, Bool-cases}
use rito.Process.FileSystem.{FileSystem}
use rito.Outcome.{returns}
use rito.Websocket.Client.{WebSocketApi}
use rito.Websocket.Handler.{HandlerState, Call, set_stop, round, perform_all, main_loop, run}
use rito.Websocket.Handler.Stopping.{asks_stop, perform_all-stop_flag}
use rito.Websocket.Handler.Returning.{
  Quiet, Calm, CalmSchedule, round_keeps, last_round_returns, other_round_returns,
  perform_all_returns,
}

module _ {W : Type 0} (api : WebSocketApi W) (files : W → FileSystem) (sleep : W → W)
    (quiet : Quiet api) where
  -- Both schedules lead to this end.
  abbrev Ends : List (List (Call W)) → List (List (Call W)) → HandlerState W → Type 0
  Ends long short s =
      (t : HandlerState W) × (main_loop api files sleep long s ≡ (returns true, t))
      × (main_loop api files sleep short s ≡ (returns true, t))

  -- The flag is set when a round begins: nothing behind it matters.
  flag-Ends :
      (calls : List (Call W)) (rest rest' : List (List (Call W))) (s t : HandlerState W)
      → perform_all api files sleep calls s ≡ (returns tt, t)
      → t.stop_flag ≡ true
      → Calm t.on_disconnected
      → Ends (calls ∷ rest) (calls ∷ rest') s
  unfolding main_loop
  flag-Ends calls rest rest' s t e f c =
      let ends = last_round_returns api files sleep quiet t f c in
      ((round api files sleep t).1, ground (arith, e, ends), ground (arith, e, ends))

  asked-Ends :
      (before : List (List (Call W))) (calls : List (Call W)) (rest : List (List (Call W)))
      (s : HandlerState W)
      → CalmSchedule (before ++ calls ∷ rest)
      → Calm s.on_disconnected
      → asks_stop calls ≡ true
      → Ends (before ++ calls ∷ rest) (before ++ calls ∷ []) s
  unfolding main_loop
  asked-Ends [] calls rest s h c a =
      let (t, e, ct) = perform_all_returns api files sleep quiet calls s h.0 c in
      let f : t.stop_flag ≡ true =
        ground (arith, perform_all-stop_flag api files sleep calls s e, a) in
      flag-Ends calls rest [] s t e f ct
  asked-Ends (first ∷ before) calls rest s h c a =
      let (t, e, ct) = perform_all_returns api files sleep quiet first s h.0 c in
      elim (Bool-cases t.stop_flag) [
        | inl f ↦ flag-Ends first (before ++ calls ∷ rest) (before ++ calls ∷ []) s t e f ct
        | inr on ↦
            let u = (round api files sleep t).1 in
            let cu = subst Calm (sym (round_keeps api files sleep quiet t)) ct in
            let (v, long, short) = asked-Ends before calls rest u h.1 cu a in
            let goes_on = other_round_returns api files sleep quiet t on ct in
            (v, ground (arith, e, goes_on, long), ground (arith, e, goes_on, short))
      ]

  -- Where Poco's shutdown and send calls do not throw, and neither does any callback for a lost
  -- connection, the loop of run ends, by the round in which stop is called at the latest: with
  -- whatever rounds a schedule goes on behind that round, run returns out of its loop, and ends
  -- as it does on the schedule that stops there.
  pub run_ends :
      (before : List (List (Call W))) (calls : List (Call W)) (rest : List (List (Call W)))
      (s : HandlerState W)
      → CalmSchedule (before ++ calls ∷ rest)
      → Calm s.on_disconnected
      → asks_stop calls ≡ true
      → (t : HandlerState W) × (run api files sleep (before ++ calls ∷ rest) s ≡ (returns true, t))
        × (run api files sleep (before ++ calls ∷ []) s ≡ (returns true, t))
  unfolding run
  run_ends before calls rest s h c a =
      let (t, long, short) = asked-Ends before calls rest (set_stop false s) h c a in
      (t, ground (arith, long), ground (arith, short))
