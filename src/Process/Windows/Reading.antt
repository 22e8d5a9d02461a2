-- ===== src/Process/Windows/Reading.antt =====
-- What the reading of a process leaves as it was: anything observed of the outside that the calls
-- of the API for it do not change.
use rito.Common.{ℕ, Bytes, ◌≡◌, refl, ◌∙◌, arith, inl, inr, Option-cases}
use rito.Outcome.{Outcome, returns, throws, terminates, Method, Method-cases, after, pure, ◌>>◌}
use rito.Process.Windows.{
  Block, basic_information, peb_block, parameters_block, wide_chars, WindowsApi, WindowsState,
  outside_do, wide_name, extract_process_name, read_command,
}

-- An observation `f` that no call changes but those for handles and libraries.
pub record Untouched {W X : Type 0} (api : WindowsApi W) (f : W → X) : Type 0 where
  pub enum_keeps : (n : ℕ) (w : W) → f (api.enum_processes n w).1 ≡ f w
  pub modules_keep : (h : ℕ) (w : W) → f (api.enum_process_modules h w).1 ≡ f w
  pub name_keeps : (h m : ℕ) (w : W) → f (api.get_module_base_name h m w).1 ≡ f w
  pub address_keeps : (l : ℕ) (n : Bytes) (w : W) → f (api.get_proc_address l n w).1 ≡ f w
  pub query_keeps : (p h : ℕ) (w : W) → f (api.query_information_process p h w).1 ≡ f w
  pub peb_keeps : (h a : ℕ) (w : W) → f (api.read_peb h a w).1 ≡ f w
  pub parameters_keep : (h a : ℕ) (w : W) → f (api.read_parameters h a w).1 ≡ f w
  pub text_keeps : (h a b n : ℕ) (w : W) → f (api.read_text h a b n w) ≡ f w
  pub allocate_keeps : (b : Block) (w : W) → f (api.allocate b w).1 ≡ f w
  pub deallocate_keeps : (n : ℕ) (w : W) → f (api.deallocate n w) ≡ f w

module _ {W : Type 0} (api : WindowsApi W) where
  -- The steps behind the conversion of the text.
  abbrev pub release : ℕ → ℕ → ℕ → ℕ → Bytes → Method (WindowsState W) Bytes
  release text buffer peb info to = do
    outside_do (api.deallocate text)
    outside_do (api.deallocate buffer)
    outside_do (api.deallocate peb)
    outside_do (api.deallocate info)
    pure to

module _ {W X : Type 0} (api : WindowsApi W) (f : W → X) (laws : Untouched api f) where
  -- The handler and the observation are the same after a step.
  abbrev pub Same : WindowsState W → WindowsState W → Type 0
  Same s t = (t.handler ≡ s.handler) × (f t.world ≡ f s.world)

  wide_name-Same : (h : ℕ) (s : WindowsState W) → Same s (wide_name api h s).1
  wide_name-Same h s = elim (Option-cases (api.enum_process_modules h s.world).0) [
    | inl e ↦ ground (arith, laws.modules_keep h s.world)
    | inr (m, e) ↦ ground (
      arith,
      laws.modules_keep h s.world,
      laws.name_keeps h m (api.enum_process_modules h s.world).1,
    )
  ]

  pub name-Same : (h : ℕ) (s : WindowsState W) → Same s (extract_process_name api h s).1
  unfolding extract_process_name
  name-Same h s = elim (Method-cases (wide_name api h s)) [
    | inl (n, t, e) ↦ ground (arith, wide_name-Same h s)
    | inr (inl (x, t, e)) ↦ ground (arith, wide_name-Same h s)
    | inr (inr (t, e)) ↦ ground (arith, wide_name-Same h s)
  ]

  release-Same :
      (text buffer peb info : ℕ) (o : Outcome Bytes) (s : WindowsState W)
      → Same s (after (o, s) (release api text buffer peb info)).1
  release-Same text buffer peb info (returns to) s =
      let w₁ = api.deallocate text s.world in
      let w₂ = api.deallocate buffer w₁ in
      let w₃ = api.deallocate peb w₂ in
      (
        refl,
        laws.deallocate_keeps info w₃
            ∙ laws.deallocate_keeps peb w₂
            ∙ laws.deallocate_keeps buffer w₁
            ∙ laws.deallocate_keeps text s.world,
      )
  release-Same text buffer peb info (throws e) s = (refl, refl)
  release-Same text buffer peb info terminates s = (refl, refl)

  pub read_command-Same : (h : ℕ) (s : WindowsState W) → Same s (read_command api h s).1
  unfolding read_command
  read_command-Same h s =
      let info = api.allocate basic_information s.world in
      let peb = api.query_information_process s.query_information_ptr h info.1 in
      let peb_buffer = api.allocate peb_block peb.1 in
      let parameters = api.read_peb h peb.0 peb_buffer.1 in
      let buffer = api.allocate parameters_block parameters.1 in
      let line = api.read_parameters h parameters.0 buffer.1 in
      let text = api.allocate (wide_chars line.0.1) line.1 in
      let w = api.read_text h line.0.0 text.0 line.0.1 text.1 in
      let (same, kept) =
        release-Same text.0 buffer.0 peb_buffer.0 info.0 (api.convert_at line.0.0 w)
          (record s { world = w }) in
      (
        same,
        kept
            ∙ laws.text_keeps h line.0.0 text.0 line.0.1 text.1
            ∙ laws.allocate_keeps (wide_chars line.0.1) line.1
            ∙ laws.parameters_keep h parameters.0 buffer.1
            ∙ laws.allocate_keeps parameters_block parameters.1
            ∙ laws.peb_keeps h peb.0 peb_buffer.1
            ∙ laws.allocate_keeps peb_block peb.1
            ∙ laws.query_keeps s.query_information_ptr h info.1
            ∙ laws.allocate_keeps basic_information s.world,
      )
