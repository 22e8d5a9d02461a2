-- ===== src/Websocket/Race/Progress.antt =====
-- Which ends the threads can reach once stop has set the flag.
use rito.Common.{
  ℕ, Bool, true, false, none, some, ◌≡◌, ◌≢◌, refl, ◌⊎◌, inl, inr, arith, ◌∙◌, Option-cases,
}
use rito.Websocket.Race.{
  Shared, LoopPc, finished, CallerPc, outside, send_holding, fallen, CallerMove, calls_send,
  send_refused, send_allowed, takes_lock, sends, send_falls, calls_stop, stop_refused, stop_allowed,
  stop_follows, stop_returns, stop_dangles, stop_falls, System, Step, by_loop, by_caller, init,
  Steps, here, next, stop_sending, behind,
}
use rito.Websocket.Race.Safety.{updated, Steps-Inv}
use rito.Websocket.Race.Paths.{then_steps, moved, move-Steps, updated_at}
use rito.Websocket.Race.Ends.{LoopEnds, LoopMove-lock, loop_ends}

-- A thread that may have the lock.
abbrev pub may_hold : CallerPc → Bool
may_hold (send_holding _) = true
may_hold fallen = true
may_hold _ = false

-- Who has the lock stands behind it.
abbrev pub IsHolder : Shared → ℕ → CallerPc → Type 0
IsHolder m i pc = m.lock ≡ some i → may_hold pc ≡ true

CallerMove-IsHolder :
    {i : ℕ} {m m' : Shared} {c c' : CallerPc}
    → CallerMove i m c m' c'
    → IsHolder m i c
    → IsHolder m' i c'
CallerMove-IsHolder (takes_lock b l q) v e = refl
CallerMove-IsHolder (sends b h) v e = absurd (ground arith)
CallerMove-IsHolder (send_falls b h) v e = refl
CallerMove-IsHolder (stop_falls h) v e = refl
CallerMove-IsHolder calls_stop v e = v e
CallerMove-IsHolder calls_send v e = v e
CallerMove-IsHolder (send_refused l h) v e = v e
CallerMove-IsHolder (send_allowed l h) v e = v e
CallerMove-IsHolder (stop_refused l h) v e = v e
CallerMove-IsHolder (stop_allowed l h) v e = v e
CallerMove-IsHolder (stop_follows h) v e = v e
CallerMove-IsHolder stop_returns v e = v e
CallerMove-IsHolder stop_dangles v e = refl

-- A thread takes the lock for itself only.
CallerMove-lock :
    {i : ℕ} {m m' : Shared} {c c' : CallerPc} (j : ℕ)
    → i ≢ j
    → CallerMove i m c m' c'
    → m'.lock ≡ some j
    → m.lock ≡ some j
CallerMove-lock j n (takes_lock b l q) e = absurd (n (ground arith))
CallerMove-lock j n (sends b h) e = absurd (ground arith)
CallerMove-lock j n (send_falls b h) e = e
CallerMove-lock j n (stop_falls h) e = e
CallerMove-lock j n calls_stop e = e
CallerMove-lock j n calls_send e = e
CallerMove-lock j n (send_refused l h) e = e
CallerMove-lock j n (send_allowed l h) e = e
CallerMove-lock j n (stop_refused l h) e = e
CallerMove-lock j n (stop_allowed l h) e = e
CallerMove-lock j n (stop_follows h) e = e
CallerMove-lock j n stop_returns e = e
CallerMove-lock j n stop_dangles e = e

may_hold-behind : (m : Shared) (pc : LoopPc) (c : CallerPc) → may_hold (behind m pc c) ≡ may_hold c
may_hold-behind m pc stop_sending = ground arith
may_hold-behind m pc _ = refl

abbrev pub HasHolder : System → Type 0
HasHolder s = (i : ℕ) → IsHolder s.shared i (s.caller i)

Step-HasHolder : {s t : System} → Step s t → HasHolder s → HasHolder t
Step-HasHolder {s} (by_loop mv) v =
    λ i e. may_hold-behind s.shared s.loop (s.caller i) ∙ v i (ground (arith, LoopMove-lock mv))
Step-HasHolder {s} {t} (by_caller i mv) v =
    updated (IsHolder t.shared) s.caller i (CallerMove-IsHolder mv (v i))
      λ j n e. v j (CallerMove-lock j n mv e)

pub Steps-HasHolder : {s : System} → Steps init s → HasHolder s
Steps-HasHolder here = λ i e. ground arith
Steps-HasHolder (next r st) = Step-HasHolder st (Steps-HasHolder r)

-- A thread has followed a null pointer, or used a client after its end.
abbrev pub HasFallen : System → Type 0
HasFallen s = (i : ℕ) × (s.caller i ≡ fallen)

-- The threads can take turns so that one of them does.
abbrev pub CanFall : System → Type 0
CanFall s = (t : System) × Steps s t × HasFallen t

-- The lock can be let go without a move of a thread that does not have it.
pub record Frees (s : System) : Type 0 where
  pub freed : System
  pub steps : Steps s freed
  pub is_free : freed.shared.lock ≡ none
  pub flag_same : freed.shared.stop_flag ≡ s.shared.stop_flag
  pub others_same : (i : ℕ) → may_hold (s.caller i) ≡ false → freed.caller i ≡ s.caller i

-- The thread `i` lets the lock go, or falls.
holder-Frees :
    (s : System) (i : ℕ) (pc : CallerPc)
    → s.caller i ≡ pc
    → may_hold pc ≡ true
    → Frees s ⊎ CanFall s
holder-Frees s i (send_holding b) e h = elim (Option-cases s.shared.websocket) [
  | inl gone ↦ inr (_, move-Steps i s e (send_falls b gone), (i, updated_at s.caller i fallen))
  | inr (up, there) ↦ inl (record {
    freed = moved i s (record (s.shared) { lock = none }) outside;
    steps = move-Steps i s e (sends b (λ z. ground arith));
    is_free = refl;
    flag_same = refl;
    others_same = λ j n. ground arith;
  })
]
holder-Frees s i fallen e h = inr (s, here, (i, e))
holder-Frees s i _ e h = absurd (ground arith)

pub Steps-Frees : {s : System} → Steps init s → Frees s ⊎ CanFall s
Steps-Frees {s} r = elim (Option-cases s.shared.lock) [
  | inl l ↦
      inl (record {
        freed = s;
        steps = here;
        is_free = l;
        flag_same = refl;
        others_same = λ i n. refl;
      })
  | inr (i, l) ↦ holder-Frees s i (s.caller i) refl (Steps-HasHolder r i l)
]

-- Where the lock can be let go, the loop ends behind that.
freed_ends :
    {s : System} → Steps init s → s.shared.stop_flag ≡ true → (f : Frees s) → LoopEnds f.freed
freed_ends r q f =
    loop_ends f.freed.caller f.freed.loop f.freed.shared f.is_free (f.flag_same ∙ q)
      (Steps-Inv (then_steps r f.steps)).loop_inv

-- The end of the loop, or of the process, is still to be reached.
abbrev pub CanEnd : System → Type 0
CanEnd s = (t : System) × Steps s t × ((t.loop ≡ finished) ⊎ HasFallen t)

-- However the threads have taken turns: once the flag that stop sets is set, they can take turns so
-- that the thread in run leaves its loop, or a thread follows a null pointer or uses a client after
-- its end; no deadlock keeps them from it.
pub Steps-CanEnd : {s : System} → Steps init s → s.shared.stop_flag ≡ true → CanEnd s
Steps-CanEnd {s} r q = elim (Steps-Frees r) [
  | inl f ↦ let e = freed_ends r q f in (e.reached, then_steps f.steps e.steps, inl e.there)
  | inr (t, u, z) ↦ (t, u, inr z)
]
