-- ===== src/FilePath.antt =====
-- Paths as `std::path` reads them on Unix, where there is no `Component::Prefix`.
use Prim.Native.Char.{code}
use treetop_bundle.Base.{
  String, ◌<>◌, Bool, true, false, ◌&&◌, ◌||◌, Option, none, some, List, [], ◌∷◌, ◌==◌, starts_with,
  nat_beq, if◌then◌else◌,
}

pub data Component : Type 0 where
  root_dir cur_dir parent_dir : Component
  normal : String → Component

cons_head : String → List String → List String
cons_head s [] = s ∷ []
cons_head s (t ∷ ts) = (s <> t) ∷ ts

-- The text cut at each slash.
split_slash : String → List String
unfolding cons_head
split_slash String.[] = "" ∷ []
split_slash (String.◌∷◌ c s) =
    let rest = split_slash s in
    if nat_beq (code c) b'/' then "" ∷ rest else cons_head (String.◌∷◌ c String.[]) rest

segment_component : String → Component
segment_component s = if s == ".." then parent_dir else normal s

-- Empty segments and `.` are skipped.
inner_components : List String → List Component
unfolding segment_component
inner_components [] = []
inner_components (s ∷ ss) =
    let rest = inner_components ss in
    if s == "" || s == "." then rest else segment_component s ∷ rest

unfoldable pub is_absolute : String → Bool
is_absolute path = starts_with path "/"

first_components : Bool → List String → List Component
unfolding inner_components
first_components true segments = root_dir ∷ inner_components segments
first_components false [] = []
first_components false (s ∷ ss) =
    if s == "." then cur_dir ∷ inner_components ss else inner_components (s ∷ ss)

-- `Path::components`
unfoldable pub components : String → List Component
unfolding first_components split_slash is_absolute
components path = first_components (is_absolute path) (split_slash path)

-- A component that leaves the directory: `..` or the root.
unfoldable pub escapes : Component → Bool
escapes root_dir = true
escapes parent_dir = true
escapes cur_dir = false
escapes (normal s) = false

same_component : Component → Component → Bool
same_component root_dir root_dir = true
same_component cur_dir cur_dir = true
same_component parent_dir parent_dir = true
same_component (normal s) (normal t) = s == t
same_component _ _ = false

components_prefix : List Component → List Component → Bool
unfolding same_component
components_prefix [] path = true
components_prefix (b ∷ base) [] = false
components_prefix (b ∷ base) (c ∷ path) = same_component b c && components_prefix base path

-- `path.starts_with(base)`: by whole components.
unfoldable pub path_starts_with : String → String → Bool
unfolding components components_prefix
path_starts_with path base = components_prefix (components base) (components path)

ends_with_slash : String → Bool
ends_with_slash String.[] = false
ends_with_slash (String.◌∷◌ c String.[]) = nat_beq (code c) b'/'
ends_with_slash (String.◌∷◌ c (String.◌∷◌ d s)) = ends_with_slash (String.◌∷◌ d s)

-- `directory.join(path)`
unfoldable pub join : String → String → String
unfolding ends_with_slash is_absolute
join directory path =
    if is_absolute path
    then path
    else if directory == "" || ends_with_slash directory
    then directory <> path
    else directory <> ("/" <> path)

join_slash : List String → String
join_slash [] = ""
join_slash (s ∷ []) = s
join_slash (s ∷ t ∷ ss) = s <> ("/" <> join_slash (t ∷ ss))

all_but_last : List String → List String
all_but_last [] = []
all_but_last (s ∷ []) = []
all_but_last (s ∷ t ∷ ss) = s ∷ all_but_last (t ∷ ss)

-- `path.parent()` of a canonical path: absolute, with no empty segment, `.` or `..`.
unfoldable pub parent : String → Option String
unfolding split_slash join_slash all_but_last
parent path =
    if path == "/" || path == ""
    then none
    else let directory = join_slash (all_but_last (split_slash path)) in
      some (if directory == "" && starts_with path "/" then "/" else directory)
