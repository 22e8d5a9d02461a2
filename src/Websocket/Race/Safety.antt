-- ===== src/Websocket/Race/Safety.antt =====
-- Which pointers the threads may follow, and which not.
use rito.Common.{
  ℕ, Bool, true, none, some, ◌==◌, ◌≡◌, ◌≢◌, refl, subst, inl, inr, arith, Bool-cases,
}
use rito.Websocket.Race.{
  Shared, LoopPc, receiving, crashed, CallerPc, send_holding, LoopMove, sees_stop, goes_on,
  finds_connected, finds_not_connected, receives, follows_null, keeps_client, makes_none,
  makes_client, resets, CallerMove, calls_send, send_refused, send_allowed, takes_lock, sends,
  send_falls, calls_stop, stop_refused, stop_allowed, stop_follows, stop_returns, stop_dangles,
  stop_falls, System, update, Step, by_loop, by_caller, init, Steps, here, next, stop_sending,
  ends_client, behind,
}

-- What holds of the memory and the loop.
pub record LoopInv (m : Shared) (pc : LoopPc) : Type 0 where
  pub there : pc ≡ receiving → m.websocket ≢ none
  pub alive : pc ≢ crashed

-- What holds of the memory and the thread `i`.
pub record CallerInv (m : Shared) (i : ℕ) (pc : CallerPc) : Type 0 where
  pub owner : (b : Bool) → pc ≡ send_holding b → m.lock ≡ some i
  pub kept : pc ≡ send_holding true → m.websocket ≢ none

pub record Inv (s : System) : Type 0 where
  pub loop_inv : LoopInv s.shared s.loop
  pub caller_inv : (i : ℕ) → CallerInv s.shared i (s.caller i)

LoopMove-LoopInv :
    {m m' : Shared} {pc pc' : LoopPc} → LoopMove m pc m' pc' → LoopInv m pc → LoopInv m' pc'
LoopMove-LoopInv (sees_stop h) v = record { there = λ e. cc; alive = λ e. cc }
LoopMove-LoopInv (goes_on h) v = record { there = λ e. cc; alive = λ e. cc }
LoopMove-LoopInv (finds_connected l h) v = record { there = λ e q. cc; alive = λ e. cc }
LoopMove-LoopInv (finds_not_connected l h) v = record { there = λ e. cc; alive = λ e. cc }
LoopMove-LoopInv (receives b h) v = record { there = λ e. cc; alive = λ e. cc }
LoopMove-LoopInv (follows_null h) v = absurd (v.there refl h)
LoopMove-LoopInv (keeps_client l h) v = record { there = λ e. cc; alive = λ e. cc }
LoopMove-LoopInv (makes_none l h) v = record { there = λ e. cc; alive = λ e. cc }
LoopMove-LoopInv (makes_client b l h) v = record { there = λ e. cc; alive = λ e. cc }
LoopMove-LoopInv (resets l) v = record { there = λ e. cc; alive = λ e. cc }

-- While a thread holds the lock, the loop takes no pointer away.
LoopMove-CallerInv :
    {m m' : Shared} {pc pc' : LoopPc} (i : ℕ) (c : CallerPc)
    → LoopMove m pc m' pc'
    → CallerInv m i c
    → CallerInv m' i c
LoopMove-CallerInv i c (sees_stop h) v = v
LoopMove-CallerInv i c (goes_on h) v = v
LoopMove-CallerInv i c (finds_connected l h) v = v
LoopMove-CallerInv i c (finds_not_connected l h) v = v
LoopMove-CallerInv i c (receives b h) v = record { owner = v.owner; kept = λ e q. cc }
LoopMove-CallerInv i c (follows_null h) v = v
LoopMove-CallerInv i c (keeps_client l h) v = v
LoopMove-CallerInv i c (makes_none l h) v = record {
  owner = v.owner;
  kept = λ e q. ground (arith, v.owner true e);
}
LoopMove-CallerInv i c (makes_client b l h) v = record { owner = v.owner; kept = λ e q. cc }
LoopMove-CallerInv i c (resets l) v = record {
  owner = v.owner;
  kept = λ e q. ground (arith, v.owner true e);
}

-- A thread that the loop's move leaves without its client has no lock.
behind-CallerInv :
    {m : Shared} {i : ℕ} (k : Shared) (pc : LoopPc) (c : CallerPc)
    → CallerInv m i c
    → CallerInv m i (behind k pc c)
behind-CallerInv k pc stop_sending v = elim (Bool-cases (ends_client k pc)) [
  | inl h ↦ rw h (record { owner = λ b e. cc; kept = λ e. cc })
  | inr h ↦ rw h v
]
behind-CallerInv k pc _ v = v

-- A caller changes the flag and the lock only.
CallerMove-LoopInv :
    {i : ℕ} {m m' : Shared} {c c' : CallerPc} (pc : LoopPc)
    → CallerMove i m c m' c'
    → LoopInv m pc
    → LoopInv m' pc
CallerMove-LoopInv pc (takes_lock b l q) v = record { there = v.there; alive = v.alive }
CallerMove-LoopInv pc (sends b h) v = record { there = v.there; alive = v.alive }
CallerMove-LoopInv pc calls_stop v = record { there = v.there; alive = v.alive }
CallerMove-LoopInv pc calls_send v = v
CallerMove-LoopInv pc (send_refused l h) v = v
CallerMove-LoopInv pc (send_allowed l h) v = v
CallerMove-LoopInv pc (send_falls b h) v = v
CallerMove-LoopInv pc (stop_refused l h) v = v
CallerMove-LoopInv pc (stop_allowed l h) v = v
CallerMove-LoopInv pc (stop_follows h) v = v
CallerMove-LoopInv pc stop_returns v = v
CallerMove-LoopInv pc stop_dangles v = v
CallerMove-LoopInv pc (stop_falls h) v = v

CallerMove-CallerInv :
    {i : ℕ} {m m' : Shared} {c c' : CallerPc}
    → CallerMove i m c m' c'
    → CallerInv m i c
    → CallerInv m' i c'
CallerMove-CallerInv (takes_lock b l q) v = record {
  owner = λ b' e. refl;
  kept = λ e n. ground arith;
}
CallerMove-CallerInv (sends b h) v = record { owner = λ b' e. cc; kept = λ e. cc }
CallerMove-CallerInv calls_stop v = record { owner = λ b' e. cc; kept = λ e. cc }
CallerMove-CallerInv calls_send v = record { owner = λ b' e. cc; kept = λ e. cc }
CallerMove-CallerInv (send_refused l h) v = record { owner = λ b' e. cc; kept = λ e. cc }
CallerMove-CallerInv (send_allowed l h) v = record { owner = λ b' e. cc; kept = λ e. cc }
CallerMove-CallerInv (send_falls b h) v = record { owner = λ b' e. cc; kept = λ e. cc }
CallerMove-CallerInv (stop_refused l h) v = record { owner = λ b' e. cc; kept = λ e. cc }
CallerMove-CallerInv (stop_allowed l h) v = record { owner = λ b' e. cc; kept = λ e. cc }
CallerMove-CallerInv (stop_follows h) v = record { owner = λ b' e. cc; kept = λ e. cc }
CallerMove-CallerInv stop_returns v = record { owner = λ b' e. cc; kept = λ e. cc }
CallerMove-CallerInv stop_dangles v = record { owner = λ b' e. cc; kept = λ e. cc }
CallerMove-CallerInv (stop_falls h) v = record { owner = λ b' e. cc; kept = λ e. cc }

-- A move of `i` as another thread `j` sees it.
CallerMove-other :
    {i : ℕ} {m m' : Shared} {c c' : CallerPc} (j : ℕ) (d : CallerPc)
    → i ≢ j
    → CallerMove i m c m' c'
    → CallerInv m i c
    → CallerInv m j d
    → CallerInv m' j d
CallerMove-other j d n (takes_lock b l q) u v = record {
  owner = λ b' e. ground (arith, v.owner b' e);
  kept = v.kept;
}
CallerMove-other j d n (sends b h) u v = record {
  owner = λ b' e. ground (arith, v.owner b' e, u.owner b refl);
  kept = v.kept;
}
CallerMove-other j d n calls_stop u v = record { owner = v.owner; kept = v.kept }
CallerMove-other j d n calls_send u v = v
CallerMove-other j d n (send_refused l h) u v = v
CallerMove-other j d n (send_allowed l h) u v = v
CallerMove-other j d n (send_falls b h) u v = v
CallerMove-other j d n (stop_refused l h) u v = v
CallerMove-other j d n (stop_allowed l h) u v = v
CallerMove-other j d n (stop_follows h) u v = v
CallerMove-other j d n stop_returns u v = v
CallerMove-other j d n stop_dangles u v = v
CallerMove-other j d n (stop_falls h) u v = v

-- What holds of the thread that has moved, and of every other one, holds of all.
pub updated :
    (P : ℕ → CallerPc → Type 0) (f : ℕ → CallerPc) (i : ℕ) {pc : CallerPc}
    → P i pc
    → ((j : ℕ) → i ≢ j → P j (f j))
    → (j : ℕ) → P j (update f i pc j)
updated P f i {pc} p q j = elim (Bool-cases (i == j)) [
  | inl same ↦ let e : i ≡ j = ground arith in rw same (subst (λ k. P k pc) e p)
  | inr other ↦ rw other (q j (λ e. ground arith))
]

Step-Inv : {s t : System} → Step s t → Inv s → Inv t
Step-Inv {s} (by_loop mv) v = record {
  loop_inv = LoopMove-LoopInv mv v.loop_inv;
  caller_inv = λ i.
      behind-CallerInv s.shared s.loop (s.caller i)
        (LoopMove-CallerInv i (s.caller i) mv (v.caller_inv i));
}
Step-Inv {s} (by_caller i mv) v = record {
  loop_inv = CallerMove-LoopInv s.loop mv v.loop_inv;
  caller_inv =
      updated (CallerInv _) s.caller i (CallerMove-CallerInv mv (v.caller_inv i))
        λ j n. CallerMove-other j (s.caller j) n mv (v.caller_inv i) (v.caller_inv j);
}

init-Inv : Inv init
init-Inv = record {
  loop_inv = record { there = λ e. cc; alive = λ e. cc };
  caller_inv = λ i. record { owner = λ b e. cc; kept = λ e. cc };
}

pub Steps-Inv : {s : System} → Steps init s → Inv s
Steps-Inv here = init-Inv
Steps-Inv (next r st) = Step-Inv st (Steps-Inv r)

-- However the threads take turns, the thread in run never follows a null m_websocket.
pub Steps-ne-crashed : {s : System} → Steps init s → s.loop ≢ crashed
Steps-ne-crashed r = (Steps-Inv r).loop_inv.alive

-- However the threads take turns, two of them are never behind the lock of send_message together.
pub send_mutual_exclusion :
    {s : System} (i j : ℕ) (b c : Bool)
    → Steps init s
    → s.caller i ≡ send_holding b
    → s.caller j ≡ send_holding c
    → i ≡ j
send_mutual_exclusion i j b c r p q =
    let v = Steps-Inv r in ground (arith, (v.caller_inv i).owner b p, (v.caller_inv j).owner c q)

-- A thread in send_message that found a websocket when it took the lock still finds it there
-- however the threads take turns: while it holds the lock, the thread in run takes none away.
pub send_holding_there :
    {s : System} (i : ℕ) → Steps init s → s.caller i ≡ send_holding true → s.shared.websocket ≢ none
send_holding_there i r p = ((Steps-Inv r).caller_inv i).kept p
