-- ===== src/Fs/Path.antt =====
-- Path names: skipelem of project3_filesystem/fs.c. A string is its bytes before the NUL, and the
-- name that skipelem fills in is at most DIRSIZ bytes.
pub mod Elements
use ele3021_os.Prelude.{take, zero, some, ◌==◌, suc, none, if◌then◌else◌, Option, ◌∷◌, [], List, ℕ}

-- DIRSIZ, and '/'
abbrev pub dirsiz : ℕ
dirsiz = 14

abbrev pub slash : ℕ
slash = 47

-- while(*path == '/') path++;
unfoldable pub skip_slashes : List ℕ → List ℕ
skip_slashes [] = []
skip_slashes (c ∷ cs) = let rest = skip_slashes cs in if c == slash then rest else c ∷ cs

-- while(*path != '/' && *path != 0) path++; with what lies before and behind
unfoldable pub read_elem : List ℕ → List ℕ × List ℕ
read_elem [] = ([], [])
read_elem (c ∷ cs) =
    let (elem, rest) = read_elem cs in if c == slash then ([], c ∷ cs) else (c ∷ elem, rest)

abbrev pub elem_of : List ℕ → Option (List ℕ × List ℕ)
elem_of [] = none
elem_of (c ∷ cs) =
    let (elem, rest) = read_elem (c ∷ cs) in some (take dirsiz elem, skip_slashes rest)

-- The name and the rest of the path, or NULL.
unfoldable pub skipelem : List ℕ → Option (List ℕ × List ℕ)
skipelem path = elem_of (skip_slashes path)
