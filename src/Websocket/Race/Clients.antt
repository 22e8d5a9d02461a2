-- ===== src/Websocket/Race/Clients.antt =====
-- Which threads use a client, and where m_websocket is.
use rito.Common.{ℕ, Bool, true, false, none, some, ◌≡◌, refl, sym, ◌∙◌, arith, ◌≢◌, Option}
use rito.Websocket.Race.{
  Shared, LoopPc, finished, CallerPc, LoopMove, sees_stop, goes_on, finds_connected,
  finds_not_connected, receives, follows_null, keeps_client, makes_none, makes_client, resets,
  CallerMove, calls_send, send_refused, send_allowed, takes_lock, sends, send_falls, calls_stop,
  stop_refused, stop_allowed, stop_follows, stop_returns, stop_dangles, stop_falls, System, Step,
  by_loop, by_caller, init, Steps, here, next, stop_sending, behind, has_lost, is_there,
}
use rito.Websocket.Race.Safety.{updated}

-- Behind the loop there is no websocket.
abbrev pub IsBare : Shared → LoopPc → Type 0
IsBare m pc = pc ≡ finished → m.websocket ≡ none

-- A thread in send_message of a client that has not ended finds m_websocket there.
abbrev pub HasClient : Shared → CallerPc → Type 0
HasClient m pc = pc ≡ stop_sending → m.websocket ≢ none

pub record ClientInv (s : System) : Type 0 where
  pub bare : IsBare s.shared s.loop
  pub client_there : (i : ℕ) → HasClient s.shared (s.caller i)

LoopMove-IsBare : {m m' : Shared} {pc pc' : LoopPc} → LoopMove m pc m' pc' → IsBare m' pc'
LoopMove-IsBare (resets l) e = refl
LoopMove-IsBare (sees_stop h) e = cc
LoopMove-IsBare (goes_on h) e = cc
LoopMove-IsBare (finds_connected l h) e = cc
LoopMove-IsBare (finds_not_connected l h) e = cc
LoopMove-IsBare (receives b h) e = cc
LoopMove-IsBare (follows_null h) e = cc
LoopMove-IsBare (keeps_client l h) e = cc
LoopMove-IsBare (makes_none l h) e = cc
LoopMove-IsBare (makes_client b l h) e = cc

-- Only the loop changes m_websocket.
CallerMove-websocket :
    {i : ℕ} {m m' : Shared} {c c' : CallerPc} → CallerMove i m c m' c' → m'.websocket ≡ m.websocket
CallerMove-websocket (takes_lock b l q) = refl
CallerMove-websocket (sends b h) = refl
CallerMove-websocket (send_falls b h) = refl
CallerMove-websocket (stop_falls h) = refl
CallerMove-websocket calls_stop = refl
CallerMove-websocket calls_send = refl
CallerMove-websocket (send_refused l h) = refl
CallerMove-websocket (send_allowed l h) = refl
CallerMove-websocket (stop_refused l h) = refl
CallerMove-websocket (stop_allowed l h) = refl
CallerMove-websocket (stop_follows h) = refl
CallerMove-websocket stop_returns = refl
CallerMove-websocket stop_dangles = refl

CallerMove-HasClient :
    {i : ℕ} {m m' : Shared} {c c' : CallerPc} → CallerMove i m c m' c' → HasClient m' c'
CallerMove-HasClient (stop_follows h) e = h
CallerMove-HasClient (takes_lock b l q) e = absurd (ground arith)
CallerMove-HasClient (sends b h) e = absurd (ground arith)
CallerMove-HasClient (send_falls b h) e = absurd (ground arith)
CallerMove-HasClient (stop_falls h) e = absurd (ground arith)
CallerMove-HasClient calls_stop e = absurd (ground arith)
CallerMove-HasClient calls_send e = absurd (ground arith)
CallerMove-HasClient (send_refused l h) e = absurd (ground arith)
CallerMove-HasClient (send_allowed l h) e = absurd (ground arith)
CallerMove-HasClient (stop_refused l h) e = absurd (ground arith)
CallerMove-HasClient (stop_allowed l h) e = absurd (ground arith)
CallerMove-HasClient stop_returns e = absurd (ground arith)
CallerMove-HasClient stop_dangles e = absurd (ground arith)

lost_lem : (o : Option Bool) → o ≢ none → o ≢ some true → has_lost o ≡ true
lost_lem none v n = absurd (v refl)
lost_lem (some true) v n = absurd (n refl)
lost_lem (some false) v n = refl

there_lem : (o : Option Bool) → o ≢ none → is_there o ≡ true
there_lem none v = absurd (v refl)
there_lem (some b) v = refl

-- A thread that uses a client while the loop moves: where m_websocket is taken away, the client has
-- ended.
sending-HasClient :
    {m m' : Shared} {pc pc' : LoopPc}
    → LoopMove m pc m' pc'
    → m.websocket ≢ none
    → HasClient m' (behind m pc stop_sending)
sending-HasClient (sees_stop h) v e n = v n
sending-HasClient (goes_on h) v e n = v n
sending-HasClient (finds_connected l h) v e n = v n
sending-HasClient (finds_not_connected l h) v e n = v n
sending-HasClient (receives b h) v e n = cc
sending-HasClient (follows_null h) v e n = v n
sending-HasClient (keeps_client l h) v e n = v n
sending-HasClient (makes_none l h) v e n = absurd (ground (arith, lost_lem _ v h))
sending-HasClient (makes_client b l h) v e n = cc
sending-HasClient (resets l) v e n = absurd (ground (arith, there_lem _ v))

LoopMove-HasClient :
    {m m' : Shared} {pc pc' : LoopPc} (c : CallerPc)
    → LoopMove m pc m' pc'
    → HasClient m c
    → HasClient m' (behind m pc c)
LoopMove-HasClient stop_sending mv v e = sending-HasClient mv (v refl) e
LoopMove-HasClient _ mv v e = absurd (ground arith)

Step-ClientInv : {s t : System} → Step s t → ClientInv s → ClientInv t
Step-ClientInv {s} (by_loop mv) v = record {
  bare = LoopMove-IsBare mv;
  client_there = λ i. LoopMove-HasClient (s.caller i) mv (v.client_there i);
}
Step-ClientInv {s} {t} (by_caller i mv) v = record {
  bare = λ e. CallerMove-websocket mv ∙ v.bare e;
  client_there =
      updated (λ _. HasClient t.shared) s.caller i (CallerMove-HasClient mv)
        λ j n e z. v.client_there j e (sym (CallerMove-websocket mv) ∙ z);
}

pub Steps-ClientInv : {s : System} → Steps init s → ClientInv s
Steps-ClientInv here = record { bare = λ e. cc; client_there = λ i e. absurd (ground arith) }
Steps-ClientInv (next r st) = Step-ClientInv st (Steps-ClientInv r)
