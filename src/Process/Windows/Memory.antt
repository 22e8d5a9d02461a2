-- ===== src/Process/Windows/Memory.antt =====
-- The blocks of memory that the reading of a command line allocates.
use rito.Common.{ℕ, List, ◌∷◌, Bytes, ◌≡◌, ap, ◌∙◌}
use rito.Exception.{Thrown}
use rito.Outcome.{Outcome, returns, throws, terminates, after}
use rito.Process.Windows.{
  Block, basic_information, peb_block, parameters_block, wide_chars, WindowsApi, WindowsState,
  read_command,
}
use rito.Process.Windows.Reading.{release}

-- The blocks that are allocated, the latest first: what the calls make of them.
pub record Blocks {W : Type 0} (api : WindowsApi W) (blocks : W → List ℕ) : Type 0 where
  pub allocates :
      (b : Block) (w : W) → blocks (api.allocate b w).1 ≡ (api.allocate b w).0 ∷ blocks w
  pub deallocates :
      (n : ℕ) (others : List ℕ) (w : W)
      → blocks w ≡ n ∷ others
      → blocks (api.deallocate n w) ≡ others
  pub query_keeps : (p h : ℕ) (w : W) → blocks (api.query_information_process p h w).1 ≡ blocks w
  pub peb_keeps : (h a : ℕ) (w : W) → blocks (api.read_peb h a w).1 ≡ blocks w
  pub parameters_keep : (h a : ℕ) (w : W) → blocks (api.read_parameters h a w).1 ≡ blocks w
  pub text_keeps : (h a b n : ℕ) (w : W) → blocks (api.read_text h a b n w) ≡ blocks w

module _ {W : Type 0} (api : WindowsApi W) (blocks : W → List ℕ) (laws : Blocks api blocks) where
  -- What is left of the blocks, where these were there before.
  pub data Leaves (base : List ℕ) : Outcome Bytes × WindowsState W → Type 0 where
    all_freed :
        {t : WindowsState W} (to : Bytes) → blocks t.world ≡ base → Leaves base (returns to, t)
    four_lost :
        {t : WindowsState W} (e : Thrown) (info peb parameters text : ℕ)
        → blocks t.world ≡ text ∷ parameters ∷ peb ∷ info ∷ base
        → Leaves base (throws e, t)
    ended : {t : WindowsState W} → Leaves base (terminates, t)

  release-Leaves :
      (base : List ℕ) (text parameters peb info : ℕ) (o : Outcome Bytes) (s : WindowsState W)
      → blocks s.world ≡ text ∷ parameters ∷ peb ∷ info ∷ base
      → Leaves base (after (o, s) (release api text parameters peb info))
  release-Leaves base text parameters peb info (returns to) s h =
      let w₁ = api.deallocate text s.world in
      let w₂ = api.deallocate parameters w₁ in
      let w₃ = api.deallocate peb w₂ in
      all_freed to (
        laws.deallocates info base w₃ (
          laws.deallocates peb (info ∷ base) w₂ (
            laws.deallocates parameters (peb ∷ info ∷ base) w₁
              (laws.deallocates text (parameters ∷ peb ∷ info ∷ base) s.world h))))
  release-Leaves base text parameters peb info (throws e) s h =
      four_lost e info peb parameters text h
  release-Leaves base text parameters peb info terminates s h = ended

  -- A reading of a command line that returns has freed the four blocks that it allocated; one that
  -- throws, as the conversion of the text may, has freed none of them.
  pub read_command-Leaves :
      (h : ℕ) (s : WindowsState W) → Leaves (blocks s.world) (read_command api h s)
  unfolding read_command
  read_command-Leaves h s =
      let info = api.allocate basic_information s.world in
      let peb = api.query_information_process s.query_information_ptr h info.1 in
      let peb_buffer = api.allocate peb_block peb.1 in
      let parameters = api.read_peb h peb.0 peb_buffer.1 in
      let buffer = api.allocate parameters_block parameters.1 in
      let line = api.read_parameters h parameters.0 buffer.1 in
      let text = api.allocate (wide_chars line.0.1) line.1 in
      let w = api.read_text h line.0.0 text.0 line.0.1 text.1 in
      let two : blocks peb_buffer.1 ≡ peb_buffer.0 ∷ info.0 ∷ blocks s.world =
        laws.allocates peb_block peb.1
        ∙ ap (◌∷◌ peb_buffer.0) (
            laws.query_keeps s.query_information_ptr h info.1
            ∙ laws.allocates basic_information s.world) in
      let three : blocks buffer.1 ≡ buffer.0 ∷ peb_buffer.0 ∷ info.0 ∷ blocks s.world =
        laws.allocates parameters_block parameters.1
        ∙ ap (◌∷◌ buffer.0) (laws.peb_keeps h peb.0 peb_buffer.1 ∙ two) in
      let four : blocks w ≡ text.0 ∷ buffer.0 ∷ peb_buffer.0 ∷ info.0 ∷ blocks s.world =
        laws.text_keeps h line.0.0 text.0 line.0.1 text.1
        ∙ laws.allocates (wide_chars line.0.1) line.1
        ∙ ap (◌∷◌ text.0) (laws.parameters_keep h parameters.0 buffer.1 ∙ three) in
      release-Leaves (blocks s.world) text.0 buffer.0 peb_buffer.0 info.0
        (api.convert_at line.0.0 w) (record s { world = w }) four
