-- ===== src/Process/Linux/Command.antt =====
-- Which process's command line get_lcu_process_command returns, and when it throws instead.
use rito.Common.{
  ℕ, ◌≤◌, Bool, true, false, ◌&&◌, Option, none, some, List, [], ◌∷◌, ◌++◌, map, Bytes, codes, all,
  is_digit, contains, contains-split, contains-append, ◌≡◌, ◌≢◌, refl, ap, subst, sym, ◌∙◌, inl,
  inr, All, Bool-cases, arith,
}
use rito.Exception.{Thrown, filesystem_error, path_not_found_exception, lcu_not_running_exception}
use rito.Result.{Result, ok, throw, ◌>>=◌}
use rito.Process.FileSystem.{FileSystem, stem}
use rito.Process.Helpers.{is_positive_integer}
use rito.Process.Linux.{
  LcuProcessHandlerImpl, path_not_found, command_or_throw, executable, cmdline, scan, not_running,
  get_lcu_process_command,
}

abbrev pub IsDigit : ℕ → Type 0
IsDigit c = (b'0' ≤ c) × (c ≤ b'9')

all-is_digit : (s : Bytes) → all is_digit s ≡ true → All IsDigit s
unfolding is_digit
all-is_digit [] h = tt
all-is_digit (c ∷ s) h = (ground arith, all-is_digit s (ground arith))

is_digit-all : (s : Bytes) → All IsDigit s → all is_digit s ≡ true
unfolding is_digit
is_digit-all [] h = refl
is_digit-all (c ∷ s) h = ground (arith, is_digit-all s h.1)

-- The name's stem is a number, and the process's command line names the client.
pub record IsClient (fs : FileSystem) (dir name : Bytes) : Type 0 where
  pub stem_ne_nil : stem name ≢ []
  pub stem_digits : All IsDigit (stem name)
  pub before : Bytes
  pub after : Bytes
  pub names_client : cmdline fs dir name ≡ before ++ (executable ++ after)

module _ (fs : FileSystem) (dir : Bytes) where
  unfoldable pub is_client : Bytes → Bool
  is_client name = is_positive_integer (stem name) && contains (cmdline fs dir name) executable

  pub is_client-IsClient : (name : Bytes) → is_client name ≡ true → IsClient fs dir name
  unfolding is_client is_positive_integer
  is_client-IsClient name h =
      let (a, r, e) = contains-split (cmdline fs dir name) executable (ground arith) in
      record {
        stem_ne_nil = ground arith;
        stem_digits = all-is_digit (stem name) (ground arith);
        before = a;
        after = r;
        names_client = e;
      }

  pub IsClient-is_client : (name : Bytes) → IsClient fs dir name → is_client name ≡ true
  unfolding is_client is_positive_integer
  IsClient-is_client name c = ground (
    arith,
    is_digit-all (stem name) c.stem_digits,
    c.stem_ne_nil,
    c.names_client,
    contains-append c.before executable c.after,
  )

  abbrev NoneOf : List Bytes → Type 0
  NoneOf = All (λ name. ¬ IsClient fs dir name)

  -- What the loop has seen of the entries when it stops with a command, at the end, or by an
  -- exception of the iterator.
  abbrev Scans : List (Result Bytes) → Result (Option Bytes) → Type 0
  Scans entries (ok (some command)) =
      (earlier : List Bytes) × (name : Bytes) × (later : List (Result Bytes)) × (entries
        ≡ map ok earlier ++ ok name ∷ later)
      × NoneOf earlier
      × IsClient fs dir name
      × (command ≡ cmdline fs dir name)
  Scans entries (ok none) = (names : List Bytes) × (entries ≡ map ok names) × NoneOf names
  Scans entries (throw e) =
      (earlier : List Bytes) × (later : List (Result Bytes)) × (entries
        ≡ map ok earlier ++ throw e ∷ later)
      × NoneOf earlier

  pub scan_hit :
      (name : Bytes) (rest : List (Result Bytes))
      → is_client name ≡ true
      → scan fs dir (ok name ∷ rest) ≡ ok (some (cmdline fs dir name))
  unfolding scan is_client
  scan_hit name rest h = ground arith

  pub scan_miss :
      (name : Bytes) (rest : List (Result Bytes))
      → is_client name ≡ false
      → scan fs dir (ok name ∷ rest) ≡ scan fs dir rest
  unfolding scan is_client
  scan_miss name rest h = ground arith

  Scans-cons :
      (name : Bytes) (rest : List (Result Bytes)) (r : Result (Option Bytes))
      → ¬ IsClient fs dir name
      → Scans rest r
      → Scans (ok name ∷ rest) r
  Scans-cons name rest (ok (some c)) n (earlier, found, later, e, none_of, is, q) =
      (name ∷ earlier, found, later, ap (◌∷◌ (ok name)) e, (n, none_of), is, q)
  Scans-cons name rest (ok none) n (names, e, none_of) =
      (name ∷ names, ap (◌∷◌ (ok name)) e, (n, none_of))
  Scans-cons name rest (throw x) n (earlier, later, e, none_of) =
      (name ∷ earlier, later, ap (◌∷◌ (ok name)) e, (n, none_of))

  scan-Scans : (entries : List (Result Bytes)) → Scans entries (scan fs dir entries)
  unfolding scan
  scan-Scans [] = ([], refl, tt)
  scan-Scans (throw e ∷ rest) = ([], rest, refl, tt)
  scan-Scans (ok name ∷ rest) = elim (Bool-cases (is_client name)) [
    | inl h ↦
        subst (Scans (ok name ∷ rest)) (sym (scan_hit name rest h))
          ([], name, rest, refl, tt, is_client-IsClient name h, refl)
    | inr n ↦ subst (Scans (ok name ∷ rest)) (sym (scan_miss name rest n)) (
        Scans-cons name rest (scan fs dir rest) (λ c. ground (arith, IsClient-is_client name c))
          (scan-Scans rest))
  ]

-- A filesystem_error is rethrown as Path_not_found_exception; anything else goes on as it is.
abbrev rethrown : Bytes → Thrown → Thrown
rethrown dir (filesystem_error _) =
    path_not_found_exception (codes "Unable to locate " ++ (dir ++ codes " folder"))
rethrown dir e = e

-- The ways in which no command is found: the directory cannot be opened, or cannot be read on after
-- entries of which none is the client's, or all of it has been read and none was.
pub data Fails (fs : FileSystem) (dir : Bytes) (e : Thrown) : Type 0 where
  cannot_open : (x : Thrown) → fs.list_dir dir ≡ throw x → e ≡ rethrown dir x → Fails fs dir e
  breaks_off :
      (x : Thrown) (earlier : List Bytes) (later : List (Result Bytes))
      → fs.list_dir dir ≡ ok (map ok earlier ++ throw x ∷ later)
      → All (λ name. ¬ IsClient fs dir name) earlier
      → e ≡ rethrown dir x
      → Fails fs dir e
  not_there :
      (names : List Bytes)
      → fs.list_dir dir ≡ ok (map ok names)
      → All (λ name. ¬ IsClient fs dir name) names
      → e ≡ lcu_not_running_exception not_running
      → Fails fs dir e

-- The command is the command line of the first entry that is the client's.
pub record Finds (fs : FileSystem) (dir command : Bytes) : Type 0 where
  pub earlier : List Bytes
  pub name : Bytes
  pub later : List (Result Bytes)
  pub listed : fs.list_dir dir ≡ ok (map ok earlier ++ ok name ∷ later)
  pub earlier_not : All (λ n. ¬ IsClient fs dir n) earlier
  pub is_client : IsClient fs dir name
  pub command_is : command ≡ cmdline fs dir name

abbrev pub Outcome : FileSystem → Bytes → Result Bytes → Type 0
Outcome fs dir (ok command) = Finds fs dir command
Outcome fs dir (throw e) = Fails fs dir e

rethrown_lem :
    (dir : Bytes) (x : Thrown)
    → (path_not_found dir (throw x) >>= command_or_throw) ≡ throw (rethrown dir x)
rethrown_lem dir (filesystem_error _) = refl
rethrown_lem dir _ = refl

module _ (fs : FileSystem) (dir : Bytes) where
  found-Outcome :
      (entries : List (Result Bytes)) (found : Result (Option Bytes))
      → fs.list_dir dir ≡ ok entries
      → Scans fs dir entries found
      → Outcome fs dir (path_not_found dir found >>= command_or_throw)
  found-Outcome entries (ok (some c)) e (earlier, name, later, split, none_of, is, q) = record {
    earlier = earlier;
    name = name;
    later = later;
    listed = e ∙ ap ok split;
    earlier_not = none_of;
    is_client = is;
    command_is = q;
  }
  found-Outcome entries (ok none) e (names, split, none_of) =
      not_there names (e ∙ ap ok split) none_of refl
  found-Outcome entries (throw x) e (earlier, later, split, none_of) =
      subst (Outcome fs dir) (sym (rethrown_lem dir x))
        (breaks_off x earlier later (e ∙ ap ok split) none_of refl)

  listing-Outcome :
      (listing : Result (List (Result Bytes)))
      → fs.list_dir dir ≡ listing
      → Outcome fs dir (path_not_found dir (listing >>= scan fs dir) >>= command_or_throw)
  listing-Outcome (throw x) e =
      subst (Outcome fs dir) (sym (rethrown_lem dir x)) (cannot_open x e refl)
  listing-Outcome (ok entries) e =
      found-Outcome entries (scan fs dir entries) e (scan-Scans fs dir entries)

-- The command returned is the first line of the cmdline file of the first directory entry whose
-- stem is a number and whose cmdline names LeagueClientUx.exe. An exception means that the
-- directory could not be opened or read on (Path_not_found_exception for a filesystem_error), none
-- of the entries read so far being the client's, or that all were read and none was
-- (Lcu_not_running_exception).
pub get_lcu_process_command-Outcome :
    (fs : FileSystem) (h : LcuProcessHandlerImpl)
    → Outcome fs h.proc_dir (get_lcu_process_command fs h)
unfolding get_lcu_process_command
get_lcu_process_command-Outcome fs h = listing-Outcome fs h.proc_dir (fs.list_dir h.proc_dir) refl
