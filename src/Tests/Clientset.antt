-- ===== src/Tests/Clientset.antt =====
-- The theorems on the construction of a clientset, at a small client-go.
use lite_mesh.Base.{
  ℕ, zero, suc, Text, text_dec, codes, ℤ, pos, [], none, some, Bool, true, false, ite,
}
use lite_mesh.Kube.{ok}
use lite_mesh.Apis.{group_name, group_version}
use lite_mesh.Client.Clientset.{Config, ClientGo}

abbrev positive : ℕ → Bool
positive zero = false
positive (suc n) = true

abbrev Limits : Type 0
Limits = ℕ × ℤ

abbrev Cfg : Type 0
Cfg = Config ℕ Limits Text

-- The clients are their configs.
abbrev client_go : ClientGo ℕ Limits Text Cfg Cfg
client_go = record {
  is_positive = positive;
  new_token_bucket_rate_limiter = λ qps burst. (qps, burst);
  default_user_agent = codes "lite-mesh";
  codecs = codes "json";
  rest_client_for = ok;
  new_discovery_client_for_config = ok;
  new_discovery_client_for_config_or_die = ok;
}

abbrev config : ℕ → Cfg
config qps = record {
  group_version = none;
  api_path = [];
  negotiated_serializer = none;
  user_agent = [];
  rate_limiter = none;
  qps = qps;
  burst = pos 10;
}

abbrev mesh_config : Cfg
mesh_config = record {
  group_version = some (lite_mesh.Apis.group_name, lite_mesh.Apis.group_version);
  api_path = codes "/apis";
  negotiated_serializer = some (codes "json");
  user_agent = ite (text_dec [] []) (codes "lite-mesh") [];
  rate_limiter = some (5, pos 10);
  qps = 5;
  burst = pos 10;
}

abbrev discovery_config : Cfg
discovery_config = record (config 5) { rate_limiter = some (5, pos 10) }
