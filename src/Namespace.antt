-- ===== src/Namespace.antt =====
-- src/manifest.rs: which names a namespace owns, and the search for overlapping namespaces.
pub mod Ownership
pub mod Adjacent
pub mod Missed
use treetop_bundle.Base.{
  String, Bool, false, ◌||◌, Option, none, some, List, ◌==◌, starts_with, strip_prefix, any_window,
  sort_by,
}

unfoldable pub suffix_owned : Option String → Bool
suffix_owned none = false
suffix_owned (some suffix) = starts_with suffix "::"

-- `namespace_owns`
unfoldable pub namespace_owns : String → String → Bool
unfolding suffix_owned
namespace_owns root name = name == root || suffix_owned (strip_prefix root name)

-- `namespaces_overlap`
unfoldable pub namespaces_overlap : String → String → Bool
unfolding namespace_owns
namespaces_overlap left right = namespace_owns left right || namespace_owns right left

-- The namespaces in ascending order.
abbrev pub sort_texts : List String → List String
sort_texts = sort_by (λ s. s)

-- The test on the neighbours of the sorted namespaces, as the archive check makes it.
unfoldable pub any_overlap : List String → Bool
any_overlap namespaces = any_window namespaces_overlap (sort_texts namespaces)
