-- ===== src/Process/Linux/Order.antt =====
-- The directory's order, which std::filesystem does not specify, and get_lcu_process_command.
use mathlib.Core.Logic.{∥∥₁_elim}
use mathlib.Core.Logic.Or
use mathlib.Core.List.{
  Mem, Perm, append_of_mem, perm_middle, not-mem-nil, mem-cons, mem-cons_self, mem-cons_of_mem,
}
use mathlib.Core.List.Perm
use rito.Common.{
  Option, none, some, List, [], ◌∷◌, ◌++◌, map, Bytes, ◌≡◌, ◌↔◌, refl, ap, sym, subst, ◌∙◌, inl,
  inr, Bool-cases, arith,
}
use rito.Result.{Result, ok, throw, ◌>>=◌}
use rito.Process.FileSystem.{FileSystem}
use rito.Process.Linux.{
  LcuProcessHandlerImpl, path_not_found, command_or_throw, cmdline, scan, get_lcu_process_command,
}
use rito.Process.Linux.Command.{
  IsClient, is_client, is_client-IsClient, IsClient-is_client, scan_hit, scan_miss,
}

-- The same files, in a directory that yields these names in this order.
abbrev pub listing : FileSystem → List Bytes → FileSystem
listing fs names = record fs { list_dir = λ _. ok (map ok names) }

-- The entries that are the client's show one command line.
abbrev pub Agree : FileSystem → Bytes → List Bytes → Type 0
Agree fs dir names =
    (x y : Bytes)
    → Mem x names
    → Mem y names
    → IsClient fs dir x
    → IsClient fs dir y
    → cmdline fs dir x ≡ cmdline fs dir y

module _ (fs : FileSystem) (dir : Bytes) where
  Absent : List Bytes → Type 0
  Absent names = (x : Bytes) → Mem x names → ¬ IsClient fs dir x

  record Present (names : List Bytes) (command : Bytes) : Type 0 where
    name : Bytes
    mem : Mem name names
    is : IsClient fs dir name
    command_is : command ≡ cmdline fs dir name

  -- Of the entries a command says only that one of them shows it.
  data Scanned (names : List Bytes) : Result (Option Bytes) → Type 0 where
    absent : Absent names → Scanned names (ok none)
    present : {command : Bytes} → Present names command → Scanned names (ok (some command))

  Scanned-miss :
      (name : Bytes) (rest : List Bytes) (r : Result (Option Bytes))
      → ¬ IsClient fs dir name
      → Scanned rest r
      → Scanned (name ∷ rest) r
  unfolding Absent
  Scanned-miss name rest _ n (absent a) =
      absent λ x m c.
        Or.elim (hlevel) (mem-cons.0 m) (λ e. n (subst (IsClient fs dir) e c)) (λ k. a x k c)
  Scanned-miss name rest _ n (present p) = present (record {
    name = p.name;
    mem = mem-cons_of_mem name p.mem;
    is = p.is;
    command_is = p.command_is;
  })

  scan-Scanned : (names : List Bytes) → Scanned names (scan fs dir (map ok names))
  unfolding scan Absent
  scan-Scanned [] = absent λ x m. absurd (not-mem-nil m)
  scan-Scanned (name ∷ rest) = elim (Bool-cases (is_client fs dir name)) [
    | inl h ↦ subst (Scanned (name ∷ rest)) (sym (scan_hit fs dir name (map ok rest) h)) (
        present (record {
          name = name;
          mem = mem-cons_self;
          is = is_client-IsClient fs dir name h;
          command_is = refl;
        }))
    | inr n ↦ subst (Scanned (name ∷ rest)) (sym (scan_miss fs dir name (map ok rest) n)) (
        Scanned-miss name rest (scan fs dir (map ok rest))
          (λ c. ground (arith, IsClient-is_client fs dir name c)) (scan-Scanned rest))
  ]

  Scanned-eq :
      (names others : List Bytes) (r s : Result (Option Bytes))
      → Perm names others
      → Agree fs dir names
      → Scanned names r
      → Scanned others s
      → r ≡ s
  unfolding Absent
  Scanned-eq names others _ _ p agree (absent a) (absent b) = refl
  Scanned-eq names others _ _ p agree (absent a) (present q) =
      absurd (a q.name ((Perm.mem_iff p).1 q.mem) q.is)
  Scanned-eq names others _ _ p agree (present q) (absent b) =
      absurd (b q.name ((Perm.mem_iff p).0 q.mem) q.is)
  Scanned-eq names others _ _ p agree (present q) (present r) =
      ap (λ c. ok (some c))
        (q.command_is
          ∙ agree q.name r.name q.mem ((Perm.mem_iff p).1 r.mem) q.is r.is
          ∙ sym r.command_is)

  -- The loop reads the files only.
  scan-listing :
      (names : List Bytes) (entries : List (Result Bytes))
      → scan (listing fs names) dir entries ≡ scan fs dir entries
  unfolding scan
  scan-listing names [] = refl
  scan-listing names (throw e ∷ rest) = refl
  scan-listing names (ok name ∷ rest) = ground (arith, scan-listing names rest)

module _ (fs : FileSystem) (h : LcuProcessHandlerImpl) where
  command_lem :
      (names : List Bytes)
      → get_lcu_process_command (listing fs names) h
        ≡ (path_not_found h.proc_dir (scan fs h.proc_dir (map ok names)) >>= command_or_throw)
  unfolding get_lcu_process_command
  command_lem names = rw (scan-listing fs h.proc_dir names (map ok names)) refl

  -- With the client's entry in front, its command line is the result.
  first-command :
      (name : Bytes) (rest : List Bytes)
      → IsClient fs h.proc_dir name
      → get_lcu_process_command (listing fs (name ∷ rest)) h ≡ ok (cmdline fs h.proc_dir name)
  first-command name rest c = rw (
    command_lem (name ∷ rest),
    scan_hit fs h.proc_dir name (map ok rest) (IsClient-is_client fs h.proc_dir name c),
  )

  -- The same result, a command or an exception, for every order of the names.
  abbrev pub SameInEveryOrder : List Bytes → Type 0
  SameInEveryOrder names =
      (others : List Bytes)
      → Perm names others
      → get_lcu_process_command (listing fs names) h ≡ get_lcu_process_command (listing fs others) h

  SameInEveryOrder-first :
      (names : List Bytes) (x : Bytes)
      → SameInEveryOrder names
      → Mem x names
      → IsClient fs h.proc_dir x
      → get_lcu_process_command (listing fs names) h ≡ ok (cmdline fs h.proc_dir x)
  SameInEveryOrder-first names x v m c = ∥∥₁_elim (append_of_mem m) (hlevel) λ p.
      let (before, after, e) = p in
      v (x ∷ before ++ after)
        (subst (λ l. Perm l (x ∷ before ++ after)) (sym e) (perm_middle before after))
      ∙ first-command x (before ++ after) c

  -- For a directory that yields these names without an exception: the result of
  -- get_lcu_process_command, a command or an exception, is the same in every order of the names
  -- if and only if any two of them that are the client's show the same command line.
  pub get_lcu_process_command-order_iff :
      (names : List Bytes) → SameInEveryOrder names ↔ Agree fs h.proc_dir names
  get_lcu_process_command-order_iff names = (
    λ v x y m n c d.
        cc (SameInEveryOrder-first names x v m c, SameInEveryOrder-first names y v n d),
    λ agree others p. rw (
      command_lem names,
      command_lem others,
      Scanned-eq fs h.proc_dir names others _ _ p agree (scan-Scanned fs h.proc_dir names)
          (scan-Scanned fs h.proc_dir others),
    ),
  )
