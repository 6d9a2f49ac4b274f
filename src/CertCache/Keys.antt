-- ===== src/CertCache/Keys.antt =====
-- `calculateCertCacheKey` of src/tls-certificates/cert-definitions.ts, on an options object.
use testserver.Prelude.{true, false, Option, none, some, List, [], ◌∷◌, ◌++◌, keep, if◌then◌else◌}
use testserver.Text.{Text, codes, join}
use testserver.Text.Number.{to_decimal}
use testserver.Tls.{Value, bool, num, str, strs, Fields}
use testserver.Tls.Fields.{get}
use testserver.Http.{is_truthy_value}

-- A value in a template.
abbrev pub show_value : Option Value → Text
show_value none = codes "undefined"
show_value (some (bool true)) = codes "true"
show_value (some (bool false)) = codes "false"
show_value (some (num n)) = to_decimal n
show_value (some (str s)) = s
show_value (some (strs ss)) = join (codes ",") ss

abbrev pub key_flags : List Text
key_flags =
    codes "expired"
    ∷ codes "revoked"
    ∷ codes "selfSigned"
    ∷ codes "noCommonName"
    ∷ codes "sha1Signature"
    ∷ []

abbrev pub labelled : Text → Text → Fields → List Text
labelled label field options =
    if is_truthy_value (get field options)
    then (label ++ show_value (get field options)) ∷ []
    else []

unfoldable pub calculate_cert_cache_key : Text → Fields → Text
calculate_cert_cache_key domain options =
    let flags = keep (λ k. is_truthy_value (get k options)) key_flags in
    let parts =
      flags
      ++ (labelled (codes "override=") (codes "overridePrefix") options
          ++ labelled (codes "keyBits=") (codes "keyBits") options) in
    domain ++ (codes "+" ++ join (codes "+") parts)
