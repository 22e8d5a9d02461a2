-- ===== src/Process/FileSystem.antt =====
-- The directory of processes as the program sees it, and what it uses of std::filesystem and
-- std::ifstream. What a directory holds is not under the program's control: it is a parameter.
use rito.Common.{Option, none, some, List, [], ◌∷◌, Bytes, codes, equal, ◌==◌, if◌then◌else◌}
use rito.Result.{Result}

pub record FileSystem : Type 0 where
  -- The construction of a directory_iterator, and then each name or the exception of an increment.
  pub list_dir : Bytes → Result (List (Result Bytes))
  -- The contents of a file, empty where it cannot be opened.
  pub read_file : Bytes → Bytes

-- `path / name` for a name with no separator
unfoldable pub join : Bytes → Bytes → Bytes
join [] name = name
join (c ∷ []) name = if c == b'/' then b'/' ∷ name else c ∷ b'/' ∷ name
join (c ∷ d ∷ dir) name = c ∷ join (d ∷ dir) name

-- What stands before the last dot.
unfoldable pub before_last_dot : Bytes → Option Bytes
before_last_dot [] = none
before_last_dot (c ∷ s) = elim (before_last_dot s) [
  | some b ↦ some (c ∷ b)
  | none ↦ if c == b'.' then some [] else none
]

-- `path::stem` of a file name
unfoldable pub stem : Bytes → Bytes
unfolding before_last_dot equal
stem name =
    if equal name (codes "..")
    then name
    else elim (before_last_dot name) [ none ↦ name | some [] ↦ name | some (c ∷ b) ↦ c ∷ b ]

-- `std::getline` on a stream that was just opened
unfoldable pub get_line : Bytes → Bytes
get_line [] = []
get_line (c ∷ s) = if c == b'\n' then [] else c ∷ get_line s
