-- ===== src/Util/Template.antt =====
-- pkg/util/overlaypatchtemplate.go: the templates of overlay patches. What a template gives is not
-- code of this repository: the argument `execute`.
use cluster_registry_control.Common.{String, List, [], ◌∷◌, Result, ok, ◌>>=◌}

-- `K8SResourceOverlayPatchExecuteTemplates`.
unfoldable pub execute_templates :
    {E : Type 0} → (String → Result E String) → List String → Result E (List String)
execute_templates execute [] = ok []
execute_templates execute (p ∷ patches) = do
  q ← execute p
  rest ← execute_templates execute patches
  ok (q ∷ rest)
