-- ===== src/Cluster/Names.antt =====
-- lib/constants.ts
use eks_any_model_hosting.Common.{Text, codes}

abbrev pub app_namespace : Text
app_namespace = codes "llama-pilot"

abbrev pub observability_namespace : Text
observability_namespace = codes "observability"
