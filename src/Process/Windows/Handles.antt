-- ===== src/Process/Windows/Handles.antt =====
-- Every handle that the search opens is closed again.
use rito.Common.{
  ℕ, List, [], ◌∷◌, some, Bytes, codes, equal, ◌==◌, if◌then◌else◌, ◌≡◌, ◌≢◌, refl, ◌⊎◌, inl, inr,
  arith, Bool-cases, Option-cases,
}
use rito.Exception.{Thrown}
use rito.Result.{throw}
use rito.Outcome.{throws, terminates, Method, Method-cases, ◌>>=◌}
use rito.Process.Windows.{
  WindowsApi, WindowsState, client_name, load_nt_dll,
  retrieve_nt_query_information_process_function_pointer, extract_process_name,
  extract_process_command, command_of, scan, get_lcu_process_command, get_lcu_process_parameters,
}
use rito.Process.Windows.Search.{
  opened, closed, scan_null, scan_hit, scan_miss, scan_unnamed, name_returns,
}
use rito.Process.Windows.Reading.{Untouched, name-Same, read_command-Same}

-- A null handle is nothing to close.
abbrev pub push : ℕ → List ℕ → List ℕ
push h l = if h == 0 then l else h ∷ l

-- `live` lists the handles that are open, the last one first.
pub record Handles {W : Type 0} (api : WindowsApi W) (live : W → List ℕ) : Type 0 where
  pub opens :
      (p : ℕ) (w : W) → live (api.open_process p w).1 ≡ push (api.open_process p w).0 (live w)
  pub closes : (h : ℕ) (l : List ℕ) (w : W) → live w ≡ push h l → live (api.close_handle h w) ≡ l
  pub load_keeps : (n : Bytes) (w : W) → live (api.load_library n w).1 ≡ live w
  pub untouched : Untouched api live

module _ {W : Type 0} (api : WindowsApi W) (live : W → List ℕ) (laws : Handles api live) where
  -- However the method ends, the same handles are open.
  abbrev Keeps : {A : Type 0} → Method (WindowsState W) A → Type 0
  Keeps m = (s : WindowsState W) → live (m s).1.world ≡ live s.world

  bind-Keeps :
      {A B : Type 0} (m : Method (WindowsState W) A) (f : A → Method (WindowsState W) B)
      → Keeps m
      → ((a : A) → Keeps (f a))
      → Keeps (m >>= f)
  bind-Keeps m f km kf s = elim (Method-cases (m s)) [
    | inl (a, t, e) ↦ ground (arith, km s, kf a t)
    | inr (inl (x, t, e)) ↦ ground (arith, km s)
    | inr (inr (t, e)) ↦ ground (arith, km s)
  ]

  load-Keeps : Keeps (load_nt_dll api)
  unfolding load_nt_dll
  load-Keeps s = ground (arith, laws.load_keeps (codes "Ntdll.dll") s.world)

  retrieve-Keeps : Keeps (retrieve_nt_query_information_process_function_pointer api)
  unfolding retrieve_nt_query_information_process_function_pointer
  retrieve-Keeps s =
      ground
        (arith, laws.untouched.address_keeps s.dll_lib (codes "NtQueryInformationProcess") s.world)

  extract-Keeps : (h : ℕ) → Keeps (extract_process_command api h)
  unfolding extract_process_command
  extract-Keeps h = bind-Keeps (load_nt_dll api) _ load-Keeps λ _.
      bind-Keeps (retrieve_nt_query_information_process_function_pointer api) _ retrieve-Keeps
        λ _. λ s. (read_command-Same api live laws.untouched h s).1

  command_of-closes :
      (h : ℕ) (l : List ℕ) (s : WindowsState W)
      → live s.world ≡ push h l
      → ((command_of api h s).0 ≡ terminates) ⊎ (live (command_of api h s).1.world ≡ l)
  unfolding command_of
  command_of-closes h l s held = elim (Method-cases (extract_process_command api h s)) [
    | inl (c, t, e) ↦ inr (ground (arith, extract-Keeps h s, laws.closes h l t.world))
    | inr (inl (x, t, e)) ↦ inr (ground (arith, extract-Keeps h s, laws.closes h l t.world))
    | inr (inr (t, e)) ↦ inl (ground arith)
  ]

  -- The process ends, or the same handles are open.
  abbrev Balanced : {A : Type 0} → Method (WindowsState W) A → WindowsState W → Type 0
  Balanced m s = ((m s).0 ≡ terminates) ⊎ (live (m s).1.world ≡ live s.world)

  module _ (names : (text : List ℕ) (e : Thrown) → api.convert text ≢ throw e) where
    scan-Balanced : (ids : List ℕ) (s : WindowsState W) → Balanced (scan api ids) s
    scan-Balanced [] s = inr (unfold scan in refl)
    scan-Balanced (p ∷ rest) s = elim (Bool-cases (p == 0)) [
      | inl null ↦ ground (arith, scan_null api p rest s, scan-Balanced rest s)
      | inr some_process ↦
          let ne : p ≢ 0 = λ e. ground arith in
          let h = (api.open_process p s.world).0 in
          let (name, t, e) = name_returns api h (opened api p s) names in
          let held : live t.world ≡ push h (live s.world) =
            ground
              (arith, name-Same api live laws.untouched h (opened api p s), laws.opens p s.world) in
          elim (Bool-cases (equal name client_name)) [
            | inr other ↦ ground (
              arith,
              scan_miss api p rest s ne e other,
              laws.closes h (live s.world) t.world,
              scan-Balanced rest (closed api h t),
            )
            | inl client ↦ ground (
              arith,
              scan_hit api p rest s ne e client,
              command_of-closes h (live s.world) t held,
            )
          ]
    ]

    command-Balanced : (s : WindowsState W) → Balanced (get_lcu_process_command api) s
    unfolding get_lcu_process_command
    command-Balanced s =
        let p = api.enum_processes 262144 s.world in
        let t : WindowsState W = record s { world = p.1 } in
        elim (Option-cases p.0) [
          | inl e ↦ ground (arith, laws.untouched.enum_keeps 262144 s.world)
          | inr (ids, e) ↦
              ground (arith, laws.untouched.enum_keeps 262144 s.world, scan-Balanced ids t)
        ]

    -- Where every name of a process converts, a call ends the process, or leaves the very handles open
    -- that were open before it, whether it returns or throws.
    pub get_lcu_process_parameters-closes :
        (s : WindowsState W)
        → ((get_lcu_process_parameters api s).0 ≡ terminates)
          ⊎ (live (get_lcu_process_parameters api s).1.world ≡ live s.world)
    unfolding get_lcu_process_parameters
    get_lcu_process_parameters-closes s = ground (arith, command-Balanced s)

  -- A name that does not convert leaks the handle of its process: where the first process has a
  -- handle and such a name, the call throws what the converter threw, and the handle is still open.
  pub get_lcu_process_parameters-leaks :
      (s : WindowsState W) (p : ℕ) (rest : List ℕ) (w : W) (e : Thrown) (t : WindowsState W)
      → api.enum_processes 262144 s.world ≡ (some (p ∷ rest), w)
      → p ≢ 0
      → (api.open_process p w).0 ≢ 0
      → extract_process_name api (api.open_process p w).0 (opened api p (record s { world = w }))
        ≡ (throws e, t)
      → ((get_lcu_process_parameters api s).0 ≡ throws e)
        × (live (get_lcu_process_parameters api s).1.world
            ≡ (api.open_process p w).0 ∷ live s.world)
  unfolding get_lcu_process_parameters get_lcu_process_command
  get_lcu_process_parameters-leaks s p rest w e t listed ne some_handle unnamed =
      let h = (api.open_process p w).0 in
      let u : WindowsState W = record s { world = w } in
      let scanned = scan_unnamed api p rest u ne unnamed in
      ground (
        arith,
        scanned,
        laws.untouched.enum_keeps 262144 s.world,
        laws.opens p w,
        name-Same api live laws.untouched h (opened api p u),
      )
