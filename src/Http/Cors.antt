-- ===== src/Http/Cors.antt =====
-- `allowCORS` of src/http-handler.ts.
use testserver.Prelude.{Option, none, some, List, [], ◌∷◌, ◌++◌}
use testserver.Text.{Text, codes}

-- A text that is there and not empty, else none.
abbrev pub filled : Option Text → Option Text
filled none = none
filled (some []) = none
filled (some (c ∷ s)) = some (c ∷ s)

abbrev set_if : Option Text → Text → List (Text × Text)
set_if none name = []
set_if (some v) name = (name, v) ∷ []

abbrev set_true_if : Option Text → Text → List (Text × Text)
set_true_if none name = []
set_true_if (some v) name = (name, codes "true") ∷ []

abbrev pub cors_for : Option Text → (Text → Option Text) → List (Text × Text)
cors_for none header = []
cors_for (some origin) header =
    (codes "access-control-allow-origin", origin)
    ∷ (codes "access-control-allow-credentials", codes "true")
    ∷ (set_if (filled (header (codes "access-control-request-method")))
          (codes "access-control-allow-method")
        ++ (set_if (filled (header (codes "access-control-request-headers")))
              (codes "access-control-allow-headers")
            ++ set_true_if (filled (header (codes "access-control-request-private-network")))
                (codes "access-control-allow-private-network")))

-- `allowCORS`: the headers that it sets
abbrev pub allow_cors : (Text → Option Text) → List (Text × Text)
allow_cors header = cors_for (filled (header (codes "origin"))) header
