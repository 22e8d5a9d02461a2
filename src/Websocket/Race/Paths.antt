-- ===== src/Websocket/Race/Paths.antt =====
-- Paths, one behind the other, and single moves of a thread.
use rito.Common.{ℕ, ◌≡◌, sym, subst, arith}
use rito.Websocket.Race.{Shared, CallerPc, CallerMove, System, update, by_caller, Steps, here, next}

pub then_steps : {s t u : System} → Steps s t → Steps t u → Steps s u
then_steps r here = r
then_steps r (next q st) = next (then_steps r q) st

-- A move of the thread `i`, from `c` to `d`.
abbrev pub moved : ℕ → System → Shared → CallerPc → System
moved i s m d = record { shared = m; loop = s.loop; caller = update s.caller i d }

pub move-Steps :
    (i : ℕ) (s : System) {c d : CallerPc} {m : Shared}
    → s.caller i ≡ c
    → CallerMove i s.shared c m d
    → Steps s (moved i s m d)
move-Steps i s {d = d} {m = m} e mv =
    next here (by_caller i (subst (λ c. CallerMove i s.shared c m d) (sym e) mv))

pub updated_at : (f : ℕ → CallerPc) (i : ℕ) (d : CallerPc) → update f i d i ≡ d
updated_at f i d = ground arith
