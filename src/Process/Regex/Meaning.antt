-- ===== src/Process/Regex/Meaning.antt =====
-- The two parts of prefix([p]+)[^p] at a fixed place: the literal prefix, and the group up to the
-- character that stops it.
use mathlib.Core.List.{append_assoc, append-nil}
use mathlib.Core.Option
use rito.Common.{
  ℕ, Bool, true, false, not, Option, none, some, [], ◌∷◌, ◌++◌, map, Bytes, ◌≡◌, ◌≢◌, refl, ap,
  arith, All, inl, inr, Bool-cases, Option-cases, if◌then◌else◌,
}
use rito.Process.Regex.{Regex, lit, one_of, group_plus, greedy, match_here}

module _ (p : ℕ → Bool) where
  -- The text is the group, whole, and a character that stops it.
  pub record Stops (s group : Bytes) : Type 0 where
    pub stop : ℕ
    pub after : Bytes
    pub splits : s ≡ group ++ stop ∷ after
    pub in_class : All (λ c. p c ≡ true) group
    pub stopped : p stop ≡ false

  -- The longest run of the class, where a character follows it.
  run : Bytes → Option Bytes
  run [] = none
  run (c ∷ s) = if p c then Option.map (◌∷◌ c) (run s) else some []

  run-Stops : (s : Bytes) {group : Bytes} → run s ≡ some group → Stops s group
  unfolding run
  run-Stops [] h = cc
  run-Stops (c ∷ s) {group} h = elim (Bool-cases (p c)) [
    | inl e ↦ elim (Option-cases (run s)) [
      | inl n ↦ ground arith
      | inr (g, m) ↦
          let rest = run-Stops s m in
          let q : c ∷ g ≡ group = ground arith in
          rw (← q) (record {
            stop = rest.stop;
            after = rest.after;
            splits = ap (◌∷◌ c) rest.splits;
            in_class = (e, rest.in_class);
            stopped = rest.stopped;
          })
    ]
    | inr e ↦
        let q : [] ≡ group = ground arith in
        rw (← q) (record { stop = c; after = s; splits = refl; in_class = tt; stopped = e })
  ]

  run-append :
      (group : Bytes) (stop : ℕ) (after : Bytes)
      → All (λ c. p c ≡ true) group
      → p stop ≡ false
      → run (group ++ stop ∷ after) ≡ some group
  unfolding run
  run-append [] stop after h e = rw e
  run-append (c ∷ g) stop after h e = rw (h.0, run-append g stop after h.1 e)

  abbrev pub ending : Regex
  ending = one_of (λ c. not (p c)) ∷ []

  greedy-run :
      (taken s : Bytes) → greedy p (match_here ending) taken s ≡ Option.map (◌++◌ taken) (run s)
  unfolding greedy match_here run
  greedy-run taken [] = refl
  greedy-run taken (c ∷ s) = elim (Option-cases (run s)) [
    | inl e ↦ ground (arith, greedy-run (taken ++ c ∷ []) s, append-nil taken)
    | inr (g, e) ↦
        ground
          (arith, greedy-run (taken ++ c ∷ []) s, append-nil taken, append_assoc taken (c ∷ []) g)
  ]

  abbrev pub grouped : Regex
  grouped = group_plus p ∷ ending

  pub match_here-grouped :
      (s : Bytes) {group : Bytes}
      → match_here grouped [] s ≡ some group
      → Stops s group × (group ≢ [])
  unfolding match_here run
  match_here-grouped [] h = cc
  match_here-grouped (c ∷ s) {group} h =
      let e : run (c ∷ s) ≡ some group = ground (arith, greedy-run (c ∷ []) s) in
      (run-Stops (c ∷ s) e, ground (arith, greedy-run (c ∷ []) s))

  pub grouped-match_here :
      (s group : Bytes) → Stops s group → group ≢ [] → match_here grouped [] s ≡ some group
  unfolding match_here run
  grouped-match_here s [] t h = absurd (h refl)
  grouped-match_here s (c ∷ group) t h = rw (
    t.splits,
    t.in_class.0,
    greedy-run (c ∷ []) (group ++ t.stop ∷ t.after),
    run-append group t.stop t.after t.in_class.1 t.stopped,
  )

pub match_here-lit :
    (r : Regex) (text s : Bytes) → match_here (map lit text ++ r) [] (text ++ s) ≡ match_here r [] s
unfolding match_here
match_here-lit r [] s = refl
match_here-lit r (c ∷ text) s = ground (arith, match_here-lit r text s)

pub match_here-lit_split :
    (r : Regex) (text s : Bytes) {group : Bytes}
    → match_here (map lit text ++ r) [] s ≡ some group
    → (t : Bytes) × (s ≡ text ++ t) × (match_here r [] t ≡ some group)
unfolding match_here
match_here-lit_split r [] s h = (s, refl, h)
match_here-lit_split r (x ∷ text) [] h = cc
match_here-lit_split r (x ∷ text) (c ∷ s) h =
    let (t, e, m) = match_here-lit_split r text s (ground arith) in (t, ground arith, m)
