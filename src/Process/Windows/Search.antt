-- ===== src/Process/Windows/Search.antt =====
-- How the search goes through the identifiers, and what it throws where no client runs.
use rito.Common.{
  ℕ, true, false, List, [], ◌∷◌, none, some, Bytes, equal, ◌==◌, ◌≡◌, ◌≢◌, refl, inl, inr, arith,
  Bool-cases, ◌∙◌,
}
use rito.Exception.{Thrown, lcu_parameters_exception}
use rito.Result.{throw, Result-cases}
use rito.Outcome.{returns, throws, terminates, Method-cases, ◌>>=◌}
use rito.Process.Windows.{
  WindowsApi, WindowsState, client_name, not_found, wide_name, extract_process_name, command_of,
  scan, get_lcu_process_command, get_lcu_process_parameters,
}

module _ {W : Type 0} (api : WindowsApi W) where
  abbrev pub opened : ℕ → WindowsState W → WindowsState W
  opened p s = record s { world = (api.open_process p s.world).1 }

  abbrev pub closed : ℕ → WindowsState W → WindowsState W
  closed h s = record s { world = api.close_handle h s.world }

  module _ (p : ℕ) (rest : List ℕ) (s : WindowsState W) where
    abbrev pub handle : ℕ
    handle = (api.open_process p s.world).0

    pub scan_null : p ≡ 0 → scan api (p ∷ rest) s ≡ scan api rest s
    unfolding scan
    scan_null e = ground arith

    module _ (ne : p ≢ 0) where
      pub scan_hit :
          {name : Bytes} {t : WindowsState W}
          → extract_process_name api handle (opened p s) ≡ (returns name, t)
          → equal name client_name ≡ true
          → scan api (p ∷ rest) s ≡ (command_of api handle >>= λ c u. (returns (some c), u)) t
      unfolding scan
      scan_hit e q = ground arith

      pub scan_miss :
          {name : Bytes} {t : WindowsState W}
          → extract_process_name api handle (opened p s) ≡ (returns name, t)
          → equal name client_name ≡ false
          → scan api (p ∷ rest) s ≡ scan api rest (closed handle t)
      unfolding scan
      scan_miss e q = ground arith

      pub scan_unnamed :
          {e : Thrown} {t : WindowsState W}
          → extract_process_name api handle (opened p s) ≡ (throws e, t)
          → scan api (p ∷ rest) s ≡ (throws e, t)
      unfolding scan
      scan_unnamed e = ground arith

      pub scan_ended :
          {t : WindowsState W}
          → extract_process_name api handle (opened p s) ≡ (terminates, t)
          → scan api (p ∷ rest) s ≡ (terminates, t)
      unfolding scan
      scan_ended e = ground arith

  pub name_returns :
      (h : ℕ) (s : WindowsState W)
      → ((text : List ℕ) (e : Thrown) → api.convert text ≢ throw e)
      → (name : Bytes) × (t : WindowsState W) × (extract_process_name api h s ≡ (returns name, t))
  unfolding extract_process_name
  name_returns h s ok_names = elim (Method-cases (wide_name api h s)) [
    | inl (wide, t, e) ↦ elim (Result-cases (api.convert wide)) [
      | inl (name, q) ↦ (name, t, ground arith)
      | inr (x, q) ↦ absurd (ok_names wide x q)
    ]
    | inr (inl (x, t, e)) ↦ absurd (ground arith)
    | inr (inr (t, e)) ↦ absurd (ground arith)
  ]

  -- No process has the client's name.
  abbrev pub NoClient : Type 0
  NoClient =
      (h : ℕ) (s t : WindowsState W) (name : Bytes)
      → extract_process_name api h s ≡ (returns name, t)
      → equal name client_name ≡ false

  module _ (names : (text : List ℕ) (e : Thrown) → api.convert text ≢ throw e)
      (absent : NoClient) where
    scan-none :
        (ids : List ℕ) (s : WindowsState W)
        → (t : WindowsState W) × (scan api ids s ≡ (returns none, t))
    scan-none [] s = (s, unfold scan in refl)
    scan-none (p ∷ rest) s = elim (Bool-cases (p == 0)) [
      | inl null ↦ let (t, e) = scan-none rest s in (t, scan_null p rest s (ground arith) ∙ e)
      | inr some_process ↦
          let h = (api.open_process p s.world).0 in
          let (name, u, e) = name_returns h (opened p s) names in
          let (t, q) = scan-none rest (closed h u) in
          (t, scan_miss p rest s (λ z. ground arith) e (absent h (opened p s) u name e) ∙ q)
    ]

    -- Where EnumProcesses succeeds, every name converts and no process has the client's name, a
    -- call throws Lcu_parameters_exception with the text that the client was not found.
    pub get_lcu_process_parameters-absent :
        (s : WindowsState W) (ids : List ℕ) (w : W)
        → api.enum_processes 262144 s.world ≡ (some ids, w)
        → (get_lcu_process_parameters api s).0 ≡ throws (lcu_parameters_exception not_found)
    unfolding get_lcu_process_parameters get_lcu_process_command
    get_lcu_process_parameters-absent s ids w e =
        let (t, q) = scan-none ids (record s { world = w }) in ground (arith, q)
