-- ===== src/Manager/Files/Paths.antt =====
-- The paths of src/fs_safe.rs: `std::path::Path` by its components, the last one first. Every path is
-- UTF-8.
use kaleidoscope_sdk.Prelude.{
  if◌then◌else◌, any, bytes_eq, Text, codes, String, Bool, true, false, not, ◌&&◌, ◌||◌, List, [],
  ◌∷◌, ◌++◌,
}
use kaleidoscope_sdk.Manager.Error.{Result, ok, err, unsafe_path, refuse_if, ◌>>◌}

pub record FilePath : Type 0 where
  pub is_absolute : Bool
  pub names : List Text

unfoldable pub names_eq : List Text → List Text → Bool
names_eq [] [] = true
names_eq (a ∷ as_) (b ∷ bs) = bytes_eq a b && names_eq as_ bs
names_eq _ _ = false

abbrev pub same_flag : Bool → Bool → Bool
same_flag true b = b
same_flag false b = not b

unfoldable pub path_eq : FilePath → FilePath → Bool
unfolding names_eq
path_eq p q = same_flag p.is_absolute q.is_absolute && names_eq p.names q.names

abbrev is_traversal : Text → Bool
is_traversal name = bytes_eq name (codes ".") || bytes_eq name (codes "..")

-- `validate_absolute_path`
unfoldable pub validate_absolute_path : FilePath → String → Result (Unit {0})
validate_absolute_path path target = do
  refuse_if (not path.is_absolute) (unsafe_path target "path is not absolute")
  refuse_if (any is_traversal path.names) (unsafe_path target "path contains traversal")

-- `sibling_path`
unfoldable pub sibling_path : FilePath → Text → Result FilePath
sibling_path path suffix = elim path.names [
  | [] ↦ err (unsafe_path "configuration file" "path has no file name")
  | name ∷ parents ↦
      if bytes_eq name (codes "..")
      then err (unsafe_path "configuration file" "path has no file name")
      else ok (record path { names = (name ++ suffix) ∷ parents })
]

-- `Path::join` with a relative path, whose last name comes first too.
unfoldable pub join : FilePath → List Text → FilePath
join path more = record path { names = more ++ path.names }
