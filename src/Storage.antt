-- ===== src/Storage.antt =====
-- The files that the queues keep their items in: backend/internal/util/jsonl/jsonl.go.
-- A file is the list of the items of its lines, so JSON and the system's calls are left out. Each
-- write takes whether the system let it succeed; one that fails leaves the file as it was.
use healthops.Prelude.{Bool, true, false, List, [], ◌∷◌, ◌++◌}

-- Load, of a file whose lines all decode.
abbrev pub load {ℓ} : {A : Type ℓ} → List A → List A
load file = file

-- Append, with whether it returned nil.
abbrev pub append {ℓ} : {A : Type ℓ} → Bool → A → List A → List A × Bool
append true x file = (file ++ x ∷ [], true)
append false x file = (file, false)

-- Rewrite, which renames a whole temporary file, with whether it returned nil.
abbrev pub rewrite {ℓ} : {A : Type ℓ} → Bool → List A → List A → List A × Bool
rewrite true xs file = (xs, true)
rewrite false xs file = (file, false)
