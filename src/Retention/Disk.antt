-- ===== src/Retention/Disk.antt =====
-- The files that lifecycle.py reads, writes and deletes. A path is the list of its names, from the
-- root; what the operating system answers is the host's.
use workspace_governance_con.Prelude.{
  ℕ, ◌≡◌, refl, Bool, true, false, not, ◌&&◌, Option, none, some, List, [], ◌∷◌, ◌++◌, String,
  str_eq, filter, any, if◌then◌else◌, arith, eq_iff,
}
use workspace_governance_con.Retention.Lines.{Bytes}
use Prim.Native.String.{◌++◌ as ◌<>◌}

abbrev pub FilePath : Type 0
FilePath = List String

-- A name of a regular file; a symbolic link to one is a name too.
pub record File : Type 0 where
  pub path : FilePath
  pub modified : ℕ
  pub content : Bytes

abbrev pub Disk : Type 0
Disk = List File

pub data Kind : Type 0 where
  missing directory other : Kind

pub record Host : Type 0 where
  pub resolve : FilePath → FilePath  -- Path.resolve()
  pub kind : FilePath → Kind  -- what stands at a path when the plan is made
  pub writes : FilePath → Bool  -- whether opening a path for writing succeeds
  pub unlinks : FilePath → Bool  -- whether unlinking a path succeeds
  pub encode : String → Bytes  -- str.encode("utf-8")
  pub sha256_bytes : Bytes → String  -- sha256(bytes).hexdigest()

unfoldable pub path_eq : FilePath → FilePath → Bool
path_eq [] [] = true
path_eq [] (_ ∷ _) = false
path_eq (_ ∷ _) [] = false
path_eq (a ∷ as') (b ∷ bs) = str_eq a b && path_eq as' bs

-- `path.relative_to(parent)` succeeds.
unfoldable pub is_relative_to : FilePath → FilePath → Bool
is_relative_to path [] = true
is_relative_to [] (_ ∷ _) = false
is_relative_to (a ∷ as') (b ∷ bs) = str_eq a b && is_relative_to as' bs

-- `str(path)`
unfoldable pub path_text : FilePath → String
path_text [] = ""
path_text (a ∷ rest) = "/" <> a <> path_text rest

pub path_eq_iff_refl : (p : FilePath) → path_eq p p ≡ true
unfolding path_eq
path_eq_iff_refl [] = refl
path_eq_iff_refl (a ∷ rest) = ground (arith, (eq_iff a a).1 refl, path_eq_iff_refl rest)

pub path_eq→eq : (p q : FilePath) → path_eq p q ≡ true → p ≡ q
unfolding path_eq
path_eq→eq [] [] h = refl
path_eq→eq [] (b ∷ q) h = cc
path_eq→eq (a ∷ p) [] h = cc
path_eq→eq (a ∷ p) (b ∷ q) h = ground (arith, eq_iff a b, path_eq→eq p q)

module _ (host : Host) where
  -- Whether a name stands for the file at a resolved path.
  unfoldable pub at : FilePath → File → Bool
  at target file = path_eq (host.resolve file.path) target

  -- `path.read_bytes()`, of a resolved path.
  unfoldable pub read : FilePath → Disk → Option Bytes
  unfolding at
  read target [] = none
  read target (f ∷ fs) = if at target f then some f.content else read target fs

  unfoldable pub overwrite : FilePath → Bytes → ℕ → Disk → Disk
  unfolding at
  overwrite target bytes now [] = []
  overwrite target bytes now (f ∷ fs) =
      (if at target f then record f { content = bytes; modified = now } else f)
      ∷ overwrite target bytes now fs

  -- `path.write_bytes(bytes)`, of a resolved path.
  unfoldable pub write : FilePath → Bytes → ℕ → Disk → Disk
  unfolding overwrite at
  write target bytes now disk =
      if any (at target) disk
      then overwrite target bytes now disk
      else disk ++ record { path = target; modified = now; content = bytes } ∷ []

  -- `path.unlink(missing_ok=True)`: a link to the file dangles afterwards, and is no file.
  unfoldable pub unlink : FilePath → Disk → Disk
  unfolding at
  unlink target disk = filter (λ f. not (at target f)) disk
