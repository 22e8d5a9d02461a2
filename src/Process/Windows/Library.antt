-- ===== src/Process/Windows/Library.antt =====
-- The handler's hold on Ntdll.dll, from its construction to its destruction.
use rito.Common.{
  ℕ, List, [], ◌∷◌, Option, none, some, Bytes, codes, equal, ◌==◌, ◌≡◌, ◌≢◌, refl, sym, subst, inl,
  inr, arith, Bool-cases,
}
use rito.Outcome.{Outcome, returns, throws, terminates, Method, Method-cases, after}
use rito.Process.Windows.{
  WindowsApi, WindowsState, client_name, create, lift, rethrow_after, command_or_throw, search_all,
  load_nt_dll, retrieve_nt_query_information_process_function_pointer, unload_nt_dll, destroy,
  extract_process_name, extract_process_command, command_of, scan, get_lcu_process_command,
  get_lcu_process_parameters,
}
use rito.Process.Helpers.{extract_remoting_auth_token, extract_app_port, stoi}
use rito.Process.Windows.Search.{
  opened, closed, handle, scan_null, scan_hit, scan_miss, scan_unnamed, scan_ended,
}
use rito.Process.Windows.Handles.{push}
use rito.Process.Windows.Reading.{Untouched, Same, name-Same, read_command-Same}

-- `loaded` lists the libraries in the process, the last one first.
pub record Libraries {W : Type 0} (api : WindowsApi W) (loaded : W → List ℕ) : Type 0 where
  pub loads :
      (n : Bytes) (w : W)
      → loaded (api.load_library n w).1 ≡ push (api.load_library n w).0 (loaded w)
  pub frees :
      (l : ℕ) (base : List ℕ) (w : W)
      → loaded w ≡ push l base
      → loaded (api.free_library l w) ≡ base
  pub open_keeps : (p : ℕ) (w : W) → loaded (api.open_process p w).1 ≡ loaded w
  pub close_keeps : (h : ℕ) (w : W) → loaded (api.close_handle h w) ≡ loaded w
  pub untouched : Untouched api loaded

module _ {W : Type 0} (api : WindowsApi W) (loaded : W → List ℕ) (laws : Libraries api loaded) where
  -- The libraries are those of before, and the handler's own where it has one; and the function is
  -- known only where the library is there.
  pub record Holds (base : List ℕ) (s : WindowsState W) : Type 0 where
    pub own : loaded s.world ≡ push s.dll_lib base
    pub known : (s.dll_lib ≡ 0) → s.query_information_ptr ≡ 0

  Same-Holds :
      {base : List ℕ} (s t : WindowsState W)
      → Same api loaded laws.untouched s t
      → Holds base s
      → Holds base t
  Same-Holds s t e h = record {
    own = ground (arith, e, h.own);
    known = λ z. ground (arith, e, h.known);
  }

  load-Holds :
      {base : List ℕ} (s : WindowsState W) → Holds base s → Holds base (load_nt_dll api s).1
  unfolding load_nt_dll
  load-Holds s h = elim (Bool-cases (s.dll_lib == 0)) [
    | inl e ↦ record {
      own = ground (arith, h.own, laws.loads (codes "Ntdll.dll") s.world);
      known = λ z. ground (arith, h.known);
    }
    | inr e ↦ record { own = ground (arith, h.own); known = λ z. ground (arith, h.known) }
  ]

  load_loaded : (s t : WindowsState W) → load_nt_dll api s ≡ (returns tt, t) → t.dll_lib ≢ 0
  unfolding load_nt_dll
  load_loaded s t e z = ground arith

  retrieve-Holds :
      {base : List ℕ} (s : WindowsState W)
      → s.dll_lib ≢ 0
      → Holds base s
      → Holds base (retrieve_nt_query_information_process_function_pointer api s).1
  unfolding retrieve_nt_query_information_process_function_pointer
  retrieve-Holds s n h =
      let keeps =
        laws.untouched.address_keeps s.dll_lib (codes "NtQueryInformationProcess") s.world in
      elim (Bool-cases (s.query_information_ptr == 0)) [
        | inl e ↦ record { own = ground (arith, h.own, keeps); known = λ z. absurd (ground arith) }
        | inr e ↦ record { own = ground (arith, h.own); known = λ z. absurd (ground arith) }
      ]

  after-Holds :
      {base : List ℕ} {A B : Type 0} (o : Outcome A × WindowsState W)
      (f : A → Method (WindowsState W) B)
      → Holds base o.1
      → ((a : A) (t : WindowsState W) → o ≡ (returns a, t) → Holds base t → Holds base (f a t).1)
      → Holds base (after o f).1
  after-Holds (returns a, s) f h k = k a s refl h
  after-Holds (throws e, s) f h k = h
  after-Holds (terminates, s) f h k = h

  extract-Holds :
      {base : List ℕ} (p : ℕ) (s : WindowsState W)
      → Holds base s
      → Holds base (extract_process_command api p s).1
  unfolding extract_process_command
  extract-Holds p s h = after-Holds (load_nt_dll api s) _ (load-Holds s h) λ _ t e h'.
      after-Holds (retrieve_nt_query_information_process_function_pointer api t) _
        (retrieve-Holds t (load_loaded s t e) h')
        λ _ u q h''. Same-Holds u _ (read_command-Same api loaded laws.untouched p u) h''

  closed-Holds :
      {base : List ℕ} (p : ℕ) (s : WindowsState W) → Holds base s → Holds base (closed api p s)
  closed-Holds p s h = Same-Holds s (closed api p s) (refl, laws.close_keeps p s.world) h

  command_of-Holds :
      {base : List ℕ} (p : ℕ) (s : WindowsState W)
      → Holds base s
      → Holds base (command_of api p s).1
  unfolding command_of
  command_of-Holds {base} p s h = go (extract_process_command api p s) (extract-Holds p s h)
    where
      go :
          (o : Outcome Bytes × WindowsState W)
          → Holds base o.1
          → Holds base
              (after (rethrow_after o (closed api p)) (λ c t. (returns c, closed api p t))).1
      go (returns c, t) k = closed-Holds p t k
      go (throws e, t) k = closed-Holds p t k
      go (terminates, t) k = k

  scan-Holds :
      {base : List ℕ} (ids : List ℕ) (s : WindowsState W)
      → Holds base s
      → Holds base (scan api ids s).1
  scan-Holds [] s h = unfold scan in h
  scan-Holds {base} (p ∷ rest) s h = elim (Bool-cases (p == 0)) [
    | inl null ↦
        subst (λ r. Holds base r.1) (sym (scan_null api p rest s (ground arith)))
          (scan-Holds rest s h)
    | inr some_process ↦
        let ne : p ≢ 0 = λ z. ground arith in
        let n = handle api p rest s in
        let opened_h : Holds base (opened api p s) =
          Same-Holds s (opened api p s) (refl, laws.open_keeps p s.world) h in
        let named =
          Same-Holds (opened api p s) (extract_process_name api n (opened api p s)).1
            (name-Same api loaded laws.untouched n (opened api p s)) opened_h in
        elim (Method-cases (extract_process_name api n (opened api p s))) [
          | inr (inl (x, t, e)) ↦
              subst (λ r. Holds base r.1) (sym (scan_unnamed api p rest s ne e))
                (subst (λ r. Holds base r.1) e named)
          | inr (inr (t, e)) ↦
              subst (λ r. Holds base r.1) (sym (scan_ended api p rest s ne e))
                (subst (λ r. Holds base r.1) e named)
          | inl (name, t, e) ↦
              let there : Holds base t = subst (λ r. Holds base r.1) e named in
              elim (Bool-cases (equal name client_name)) [
                | inl client ↦
                    subst (λ r. Holds base r.1) (sym (scan_hit api p rest s ne e client))
                      (after-Holds (command_of api n t) _ (command_of-Holds n t there) λ c u q k. k)
                | inr other ↦
                    subst (λ r. Holds base r.1) (sym (scan_miss api p rest s ne e other))
                      (scan-Holds rest (closed api n t) (closed-Holds n t there))
              ]
        ]
  ]

  command-Holds :
      {base : List ℕ} (s : WindowsState W)
      → Holds base s
      → Holds base (get_lcu_process_command api s).1
  unfolding get_lcu_process_command
  command-Holds {base} s h = go (api.enum_processes 262144 s.world).0
    where
      t : WindowsState W
      t = record s { world = (api.enum_processes 262144 s.world).1 }

      k : Holds base t
      k = Same-Holds s t (refl, laws.untouched.enum_keeps 262144 s.world) h

      found :
          (o : Option Bytes) (u : WindowsState W)
          → Holds base u
          → Holds base (command_or_throw api o u).1
      found none u q = q
      found (some c) u q = q

      go : (o : Option (List ℕ)) → Holds base (search_all api o t).1
      go none = k
      go (some ids) = after-Holds (scan api ids t) _ (scan-Holds ids t k) λ o u q m. found o u m

  parameters-Holds :
      {base : List ℕ} (s : WindowsState W)
      → Holds base s
      → Holds base (get_lcu_process_parameters api s).1
  unfolding get_lcu_process_parameters
  parameters-Holds s h =
      after-Holds (get_lcu_process_command api s) _ (command-Holds s h) λ c u q h'.
        after-Holds (lift (extract_remoting_auth_token c) u) _ h' λ token v e k.
          after-Holds (lift (extract_app_port c) v) _ k
            λ port v' e' k'. after-Holds (lift (stoi port) v') _ k' λ n x e'' m. m

  -- What a handler has gone through since it was made.
  pub data Lifetime (w : W) : WindowsState W → Type 0 where
    made : Lifetime w (record { handler = create; world = w })
    called : {s : WindowsState W} → Lifetime w s → Lifetime w (get_lcu_process_parameters api s).1

  Lifetime-Holds : {w : W} {s : WindowsState W} → Lifetime w s → Holds (loaded w) s
  Lifetime-Holds made = record { own = refl; known = λ z. refl }
  Lifetime-Holds (called {s} l) = parameters-Holds s (Lifetime-Holds l)

  -- After any number of calls, however they ended, the destructor of a handler leaves the libraries
  -- loaded that were loaded when the handler was made: Ntdll.dll is loaded once at most, and freed.
  pub destroy-frees :
      {w : W} {s : WindowsState W} → Lifetime w s → loaded (destroy api s).world ≡ loaded w
  unfolding destroy unload_nt_dll
  destroy-frees {w} {s} l =
      let h = Lifetime-Holds l in ground (arith, h.own, laws.frees s.dll_lib (loaded w) s.world)
