-- ===== src/Auth/Surface.antt =====
-- pkg/auth/require_scope.go: the scopes that the routes enforce, against those that are declared and
-- those that are published. A set kept as the keys of a map is the list of its keys.
pub mod Agree
use leartech_go_common.Base.{Bool, ◌&&◌, not, List, [], ◌∷◌, Text, contains, is_empty, select, some}
use leartech_go_common.Base.Results.{Result, ok, ◌>>=◌}
use leartech_go_common.Auth.Gate.{Verifier, Panic, require_scope}

unfoldable pub ungated_scopes : Verifier → List Text
ungated_scopes v = select (λ s. not (contains v.gated s)) v.known_scopes

unfoldable pub gated_scopes : Verifier → List Text
gated_scopes v = select (λ s. contains v.gated s) v.known_scopes

pub record ScopeSurface : Type 0 where
  pub declared_not_gated : List Text
  pub published_not_gated : List Text
  pub gated_not_published : List Text

unfoldable pub is_surface_empty : ScopeSurface → Bool
is_surface_empty surface =
    is_empty surface.declared_not_gated
    && (is_empty surface.published_not_gated && is_empty surface.gated_not_published)

unfoldable pub scope_surface : Verifier → ScopeSurface
unfolding ungated_scopes gated_scopes
scope_surface v = record {
  declared_not_gated = ungated_scopes v;
  published_not_gated = select (λ s. not (contains (gated_scopes v) s)) v.scopes_supported;
  gated_not_published = select (λ s. not (contains v.scopes_supported s)) (gated_scopes v);
}

-- A service wires its routes one after the other, each with the scope it requires.
unfoldable pub wire : List Text → Verifier → Result Panic Verifier
unfolding require_scope
wire [] v = ok v
wire (route ∷ routes) v = require_scope (some v) route >>= wire routes
