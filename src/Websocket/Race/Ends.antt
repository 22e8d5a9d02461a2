-- ===== src/Websocket/Race/Ends.antt =====
-- The loop's own moves to its end, or to where no client is there, and what they leave of the other
-- threads.
use rito.Common.{
  ℕ, Bool, true, false, Option, none, some, ◌≡◌, ◌≢◌, refl, ◌⊎◌, inl, inr, arith, ◌∙◌, Bool-cases,
}
use rito.Websocket.Race.{
  Shared, LoopPc, top, asking, receiving, reconnecting, resetting, finished, crashed, CallerPc,
  LoopMove, sees_stop, goes_on, finds_connected, finds_not_connected, receives, follows_null,
  keeps_client, makes_none, makes_client, resets, System, by_loop, Steps, here, next, stop_sending,
  stop_dangling, ends_client, behind,
}
use rito.Websocket.Race.Safety.{LoopInv}
use rito.Websocket.Race.Paths.{then_steps}

pub LoopMove-lock : {m m' : Shared} {pc pc' : LoopPc} → LoopMove m pc m' pc' → m'.lock ≡ m.lock
LoopMove-lock (sees_stop h) = refl
LoopMove-lock (goes_on h) = refl
LoopMove-lock (finds_connected l h) = refl
LoopMove-lock (finds_not_connected l h) = refl
LoopMove-lock (receives b h) = refl
LoopMove-lock (follows_null h) = refl
LoopMove-lock (keeps_client l h) = refl
LoopMove-lock (makes_none l h) = refl
LoopMove-lock (makes_client b l h) = refl
LoopMove-lock (resets l) = refl

-- A thread behind moves of the loop: where it was, or without the client that it used.
pub data Left : CallerPc → CallerPc → Type 0 where
  same : {c : CallerPc} → Left c c
  orphaned : Left stop_sending stop_dangling

behind-Left : (m : Shared) (pc : LoopPc) (c : CallerPc) → Left c (behind m pc c)
behind-Left m pc stop_sending = elim (Bool-cases (ends_client m pc)) [
  | inl h ↦ rw h orphaned
  | inr h ↦ rw h same
]
behind-Left m pc _ = same

Left-trans : {a b c : CallerPc} → Left a b → Left b c → Left a c
Left-trans same r = r
Left-trans orphaned same = orphaned

abbrev pub placed : (ℕ → CallerPc) → LoopPc → Shared → System
placed f pc m = record { shared = m; loop = pc; caller = f }

-- The loop reaches a state with `P` by its own moves.
pub record Reaches (P : System → Type 0) (s : System) : Type 0 where
  pub reached : System
  pub steps : Steps s reached
  pub there : P reached
  pub callers_left : (i : ℕ) → Left (s.caller i) (reached.caller i)
  pub lock_same : reached.shared.lock ≡ s.shared.lock

module _ {P : System → Type 0} where
  and_Reaches :
      (f : ℕ → CallerPc) {pc pc' : LoopPc} {m m' : Shared}
      → LoopMove m pc m' pc'
      → Reaches P (placed (λ i. behind m pc (f i)) pc' m')
      → Reaches P (placed f pc m)
  and_Reaches f {pc} {m = m} mv e = record {
    reached = e.reached;
    steps = then_steps (next here (by_loop mv)) e.steps;
    there = e.there;
    callers_left = λ i. Left-trans (behind-Left m pc (f i)) (e.callers_left i);
    lock_same = e.lock_same ∙ LoopMove-lock mv;
  }

  at_once : (s : System) → P s → Reaches P s
  at_once s p = record {
    reached = s;
    steps = here;
    there = p;
    callers_left = λ i. same;
    lock_same = refl;
  }

-- The loop is left.
abbrev pub LoopEnds : System → Type 0
LoopEnds = Reaches (λ t. t.loop ≡ finished)

-- m_websocket points to no client.
abbrev pub LoopEmpties : System → Type 0
LoopEmpties = Reaches (λ t. t.shared.websocket ≡ none)

-- The former from anywhere, where the flag is set and no thread has the lock.
resetting_ends : (f : ℕ → CallerPc) (m : Shared) → m.lock ≡ none → LoopEnds (placed f resetting m)
resetting_ends f m l = and_Reaches f (resets l) (at_once _ refl)

top_ends :
    (f : ℕ → CallerPc) (m : Shared) → m.lock ≡ none → m.stop_flag ≡ true → LoopEnds (placed f top m)
top_ends f m l q = and_Reaches f (sees_stop q) (resetting_ends _ m l)

pub is_up-cases : (o : Option Bool) → (o ≡ some true) ⊎ (o ≢ some true)
is_up-cases none = inr (λ e. cc)
is_up-cases (some true) = inl refl
is_up-cases (some false) = inr (λ e. ground arith)

receiving_ends :
    (f : ℕ → CallerPc) (m : Shared)
    → m.lock ≡ none
    → m.stop_flag ≡ true
    → m.websocket ≢ none
    → LoopEnds (placed f receiving m)
receiving_ends f m l q n =
    and_Reaches f (receives false n) (top_ends _ (record m { websocket = some false }) l q)

reconnecting_ends :
    (f : ℕ → CallerPc) (m : Shared)
    → m.lock ≡ none
    → m.stop_flag ≡ true
    → LoopEnds (placed f reconnecting m)
reconnecting_ends f m l q = elim (is_up-cases m.websocket) [
  | inl up ↦ and_Reaches f (keeps_client l up) (top_ends _ m l q)
  | inr down ↦ and_Reaches f (makes_none l down) (top_ends _ (record m { websocket = none }) l q)
]

pub loop_ends :
    (f : ℕ → CallerPc) (pc : LoopPc) (m : Shared)
    → m.lock ≡ none
    → m.stop_flag ≡ true
    → LoopInv m pc
    → LoopEnds (placed f pc m)
loop_ends f top m l q v = top_ends f m l q
loop_ends f asking m l q v = elim (is_up-cases m.websocket) [
  | inl up ↦ and_Reaches f (finds_connected l up) (receiving_ends _ m l q (λ e. ground arith))
  | inr down ↦ and_Reaches f (finds_not_connected l down) (reconnecting_ends _ m l q)
]
loop_ends f receiving m l q v = receiving_ends f m l q (v.there refl)
loop_ends f reconnecting m l q v = reconnecting_ends f m l q
loop_ends f resetting m l q v = resetting_ends f m l
loop_ends f finished m l q v = at_once _ refl
loop_ends f crashed m l q v = absurd (v.alive refl)

-- The latter from anywhere, where no thread has the lock, whether or not the flag is set.
resetting_empties :
    (f : ℕ → CallerPc) (m : Shared) → m.lock ≡ none → LoopEmpties (placed f resetting m)
resetting_empties f m l = and_Reaches f (resets l) (at_once _ refl)

reconnecting_empties :
    (f : ℕ → CallerPc) (m : Shared)
    → m.lock ≡ none
    → m.websocket ≢ some true
    → LoopEmpties (placed f reconnecting m)
reconnecting_empties f m l n = and_Reaches f (makes_none l n) (at_once _ refl)

asking_empties :
    (f : ℕ → CallerPc) (m : Shared)
    → m.lock ≡ none
    → m.websocket ≢ some true
    → LoopEmpties (placed f asking m)
asking_empties f m l n = and_Reaches f (finds_not_connected l n) (reconnecting_empties _ m l n)

down_empties :
    (f : ℕ → CallerPc) (m : Shared)
    → m.lock ≡ none
    → m.websocket ≢ some true
    → LoopEmpties (placed f top m)
down_empties f m l n = elim (Bool-cases m.stop_flag) [
  | inl q ↦ and_Reaches f (sees_stop q) (resetting_empties _ m l)
  | inr q ↦ and_Reaches f (goes_on q) (asking_empties _ m l n)
]

receiving_empties :
    (f : ℕ → CallerPc) (m : Shared)
    → m.lock ≡ none
    → m.websocket ≢ none
    → LoopEmpties (placed f receiving m)
receiving_empties f m l n =
    and_Reaches f (receives false n)
      (down_empties _ (record m { websocket = some false }) l (λ e. ground arith))

all_asking_empties :
    (f : ℕ → CallerPc) (m : Shared) → m.lock ≡ none → LoopEmpties (placed f asking m)
all_asking_empties f m l = elim (is_up-cases m.websocket) [
  | inl up ↦ and_Reaches f (finds_connected l up) (receiving_empties _ m l (λ e. ground arith))
  | inr down ↦ asking_empties f m l down
]

top_empties : (f : ℕ → CallerPc) (m : Shared) → m.lock ≡ none → LoopEmpties (placed f top m)
top_empties f m l = elim (Bool-cases m.stop_flag) [
  | inl q ↦ and_Reaches f (sees_stop q) (resetting_empties _ m l)
  | inr q ↦ and_Reaches f (goes_on q) (all_asking_empties _ m l)
]

pub loop_empties :
    (f : ℕ → CallerPc) (pc : LoopPc) (m : Shared)
    → m.lock ≡ none
    → LoopInv m pc
    → (pc ≡ finished → m.websocket ≡ none)
    → LoopEmpties (placed f pc m)
loop_empties f top m l v b = top_empties f m l
loop_empties f asking m l v b = all_asking_empties f m l
loop_empties f receiving m l v b = receiving_empties f m l (v.there refl)
loop_empties f reconnecting m l v b = elim (is_up-cases m.websocket) [
  | inl up ↦ and_Reaches f (keeps_client l up) (top_empties _ m l)
  | inr down ↦ reconnecting_empties f m l down
]
loop_empties f resetting m l v b = resetting_empties f m l
loop_empties f finished m l v b = at_once _ (b refl)
loop_empties f crashed m l v b = absurd (v.alive refl)
