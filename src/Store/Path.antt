-- ===== src/Store/Path.antt =====
-- internal/store/path.go: paths below a root.
pub mod Spec
use Prim.Native.Char.{code}
use databricks_emulator.Base.{
  ℕ, ◌≡◌, refl, Bool, true, false, ◌&&◌, ◌||◌, not, List, [], ◌∷◌, ◌++◌, String, ◌<>◌,
  if◌then◌else◌, any,
}
use databricks_emulator.Base.Eq.{◌==◌, string_comparable}
use databricks_emulator.Base.Result.{Result, ok, err}
use databricks_emulator.Text.{trim_space, replace_all}
use databricks_emulator.Text.Split.{onto, split_on, join, prefixed, contains, trim_prefix}

-- ErrTraversal
pub data PathError : Type 0 where
  traversal : PathError

-- The elements of a rooted path that path.Clean leaves, behind those before: an empty one and "."
-- are dropped, and ".." drops the one before it, if there is one.
without_last : List String → List String
without_last [] = []
without_last (x ∷ []) = []
without_last (x ∷ y ∷ xs) = x ∷ without_last (y ∷ xs)

-- One element of the path.
next : List String → String → List String
unfolding without_last
next before x =
    if x == "" || x == "."
    then before
    else if x == ".."
    then without_last before
    else before ++ x ∷ []

unfoldable pub elements : List String → List String → List String
unfolding next
elements before [] = before
elements before (x ∷ xs) = elements (next before x) xs

-- path.Clean(p), for a rooted path.
unfoldable pub clean : String → String
clean p = "/" <> join "/" (elements [] (split_on 47 p))

-- The checks behind path.Clean.
unfoldable pub escapes : String → Bool
escapes rel = rel == ".." || (prefixed rel "../" || any (λ seg. seg == "..") (split_on 47 rel))

-- With slashes for backslashes and no space at the ends.
unfoldable pub slashed : String → String
slashed p = replace_all (trim_space p) "\\" "/"

unfoldable pub clean_rel : String → Result PathError String
clean_rel p =
    let rooted = trim_prefix (slashed p) "/" in
    let cleaned = clean ("/" <> rooted) in
    let rel = trim_prefix cleaned "/" in
    if contains (slashed p) ".."
    then err traversal
    else if ◌==◌ {K = String} rooted ""
    then ok ""
    else if ◌==◌ {K = String} cleaned "/"
    then ok ""
    else if escapes rel
    then err traversal
    else ok rel

-- The path of a workspace object, from what CleanRel answers.
rooted_at : Result PathError String → Result PathError String
rooted_at (err e) = err e
rooted_at (ok rel) = if rel == "" then ok "/" else ok ("/" <> rel)

unfoldable pub workspace_path : String → Result PathError String
unfolding rooted_at
workspace_path p = rooted_at (clean_rel p)

unfoldable pub dbfs_path : String → Result PathError String
unfolding rooted_at
dbfs_path p = rooted_at (clean_rel (trim_prefix (trim_space p) "dbfs:"))

workspace_path_examples :
    (workspace_path " a\\b//./c/ " ≡ ok "/a/b/c")
    × (workspace_path "a/..b" ≡ err traversal)
    × (dbfs_path " dbfs:/ " ≡ ok "/")
unfolding workspace_path dbfs_path clean_rel contains slashed replace_all trim_space prefixed
    trim_prefix clean join elements split_on onto escapes any
workspace_path_examples = (refl, refl, refl)
