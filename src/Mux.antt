-- ===== src/Mux.antt =====
-- server.go: the part of `ServeMux` that registers patterns and finds the leaf for a request.
pub mod Invariant
pub mod Register
pub mod Specific
pub mod Dispatch
pub mod Exact
pub mod Handle
mod Tests
use oohttp.Base.{ℕ, Bool, true, false, List, [], ◌∷◌, ◌++◌, Option, none, some, if◌then◌else◌}
use oohttp.Index.{Index, empty_index, add_to_index, possibly_conflicting_patterns}
use oohttp.Pattern.{Pattern, conflicts_with}
use oohttp.Routing.{Tree, fresh, add_pattern}

-- The fields of a `ServeMux` but its lock and `mux121`.
pub record ServeMux : Type 0 where
  pub tree : Tree
  pub index : Index
  pub patterns : List Pattern

abbrev pub new_serve_mux : ServeMux
new_serve_mux = record { tree = fresh; index = empty_index; patterns = [] }

-- The result of `registerErr`: the new state, the error that names a registered pattern, or a
-- panic of the tree.
pub data Registered : Type 0 where
  registered : ServeMux → Registered
  conflict : Pattern → Registered
  panicked : Registered

-- The function that `registerErr` hands to the index.
abbrev pub conflict_error : Pattern → Pattern → Option Pattern
conflict_error pat pat2 = if conflicts_with pat pat2 then some pat2 else none

-- The rest of `registerErr`, once there is no conflict.
abbrev pub add_to_mux : Pattern → ServeMux → Option Tree → Registered
add_to_mux pat mux none = panicked
add_to_mux pat mux (some tree) = registered (record {
  tree = tree;
  index = add_to_index mux.index pat;
  patterns = mux.patterns ++ (pat ∷ []);
})

-- `registerErr`, from its check for conflicts on.
unfoldable pub register_pattern : Pattern → ℕ → ServeMux → Registered
unfolding add_pattern add_to_index
register_pattern pat handler mux =
    elim (possibly_conflicting_patterns (conflict_error pat) mux.index pat) [
      | some pat2 ↦ conflict pat2
      | none ↦ add_to_mux pat mux (add_pattern pat handler mux.tree)
    ]
