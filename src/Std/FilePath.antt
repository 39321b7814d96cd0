-- ===== src/Std/FilePath.antt =====
-- `std::path::Path` on Unix, as far as the program uses it.
use apeiron.Base.{
  ◌≡◌, refl, Bool, true, false, ◌||◌, [], ◌∷◌, ◌++◌, ◌==◌, if◌then◌else◌, Text, codes,
}

abbrev pub PathBuf : Type 0
PathBuf = Text

unfoldable pub is_absolute : PathBuf → Bool
is_absolute [] = false
is_absolute (c ∷ s) = c == b'/'

ends_with_slash : PathBuf → Bool
ends_with_slash [] = false
ends_with_slash (c ∷ []) = c == b'/'
ends_with_slash (c ∷ d ∷ s) = ends_with_slash (d ∷ s)

is_empty : PathBuf → Bool
is_empty [] = true
is_empty (c ∷ s) = false

-- `path.join(name)`: an absolute name replaces the path, and a separator is put where none stands.
unfoldable pub join : PathBuf → PathBuf → PathBuf
unfolding is_absolute ends_with_slash is_empty
join path name =
    if is_absolute name
    then name
    else if is_empty path || ends_with_slash path
    then path ++ name
    else path ++ b'/' ∷ name

joins_with_slash : join (codes "/tmp") (codes "a.sock") ≡ codes "/tmp/a.sock"
unfolding join
joins_with_slash = refl
