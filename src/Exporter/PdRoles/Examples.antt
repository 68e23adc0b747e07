-- ===== src/Exporter/PdRoles/Examples.antt =====
-- The tally of two items of one release.
use llm_openresty.Base.{◌≡◌, List, [], ◌∷◌, none, some, Text, codes}
use llm_openresty.Exporter.PdRoles.{
  LwsItem, body, pd_answered, pd_name_label, pd_role_label, no_rep,
}
use llm_openresty.Exporter.PdRoles.Tally.{counted, tally, pd_answered-tally}

abbrev item : Text → LwsItem
item role = record {
  namespace = codes "llm";
  name = codes "qwen-prefill-0";
  labels = (pd_name_label, codes "qwen") ∷ (pd_role_label, role) ∷ [];
  spec_replicas = some 2;
  status_replicas = some 2;
  status_ready = some 1;
}

abbrev two_items : List LwsItem
two_items = item (codes "prefill") ∷ item (codes "decode") ∷ []

pd_answered-tally_example :
    counted
      (pd_answered 7 (record { skip_until = none; unknown_roles = [] }) (body two_items)).0
      (codes "llm/qwen")
      (codes "prefill")
    ≡ tally (codes "llm/qwen") (codes "prefill") two_items no_rep
pd_answered-tally_example =
    pd_answered-tally 7 (record { skip_until = none; unknown_roles = [] }) two_items
      (codes "llm/qwen") (codes "prefill")
