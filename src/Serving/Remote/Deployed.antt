-- ===== src/Serving/Remote/Deployed.antt =====
-- What a deployment on a remote server is good for (llm_platform/serving/openai_compatible_remote.py).
mod Tests
use foundation_ai_platform.Prelude.{
  String, ◌≡◌, refl, sym, ◌∙◌, ap, Bool, true, false, not, ◌||◌, Option, none, some, ◌==◌,
  if◌then◌else◌, truthy, arith, Bool-cases, inl, inr,
}
use foundation_ai_platform.Prelude.Dict.{lookup, insert, lookup-insert}
use foundation_ai_platform.Exec.{Error, Exec, Result, ok, err, continue, lift, ◌>>=◌, ok-injective}
use foundation_ai_platform.Value.{Value, text, truth, Metadata}
use foundation_ai_platform.Schemas.Enums.{ready}
use foundation_ai_platform.Schemas.Records.{ModelRecord, DeploymentRecord, DeploymentCreateRequest}
use foundation_ai_platform.Schemas.Gateway.{ChatCompletionRequest}
use foundation_ai_platform.Platform.{Host}
use foundation_ai_platform.Serving.{ready_deployment}
use foundation_ai_platform.Settings.Schema.{OpenAiCompatibleBackendConfig}
use foundation_ai_platform.Serving.Remote.{
  Remote, resolve_base_url, resolve_remote_model_name, deploy, target_url, url_or_empty, or_value,
}

module _ {World : Type 0} (remote : Remote World) (host : Host World) (backend_name : String)
    (config : OpenAiCompatibleBackendConfig) where
  -- What `deploy` notes of the server that it checked.
  abbrev noted : String → String → Metadata → Metadata
  noted url name md =
      insert "implementation" (text backend_name)
        (insert "remote_model_name" (text name) (insert "base_url" (text url) md))

  -- A deployment that `generate` finds the server and the model by.
  pub record IsTargeted (url name : String) (d : DeploymentRecord) : Type 0 where
    pub is_ready : d.status ≡ ready
    pub target : target_url remote host backend_name config d ≡ url
    pub remote_model : lookup "remote_model_name" d.metadata ≡ some (text name)
    pub implementation : lookup "implementation" d.metadata ≡ some (text backend_name)

  noted-base :
      (url name : String) (md : Metadata) → lookup "base_url" (noted url name md) ≡ some (text url)
  noted-base url name md = simp lookup-insert

  chosen :
      ((s : String) → remote.str (text s) ≡ s)
      → (url : String) (o c : Option Value) → o ≡ some (text url)
      → truthy url ≡ true
      → url_or_empty remote host backend_name config (or_value o c) ≡ url
  unfolding url_or_empty
  chosen str_text url o c e t = rw (e, t, t) (str_text url)

  noted-IsTargeted :
      ((s : String) → remote.str (text s) ≡ s)
      → (url name : String) (md : Metadata) (d : DeploymentRecord) → truthy url ≡ true
      → d.status ≡ ready
      → d.metadata ≡ noted url name md
      → IsTargeted url name d
  unfolding target_url
  noted-IsTargeted str_text url name md d t s e = record {
    is_ready = s;
    target = chosen str_text url (lookup "base_url" d.metadata) _ (rw e (noted-base url name md)) t;
    remote_model = rw e (simp lookup-insert);
    implementation = rw e (simp lookup-insert);
  }

  ready-IsTargeted :
      ((s : String) → remote.str (text s) ≡ s)
      → (model : ModelRecord) (request : DeploymentCreateRequest) (url name : String)
      → truthy url ≡ true
      → (w : World) (d : DeploymentRecord) (w' : World)
      → ready_deployment host model request (noted url name request.metadata) w ≡ (ok d, w')
      → IsTargeted url name d
  unfolding ready_deployment
  ready-IsTargeted str_text model request url name t w d w' h =
      let e = ok-injective (ap (λ (p : Result DeploymentRecord × World). p.0) h) in
      noted-IsTargeted str_text url name request.metadata d t
        (ap (λ (x : DeploymentRecord). x.status) (sym e))
        (ap (λ (x : DeploymentRecord). x.metadata) (sym e))

  checked :
      (model : ModelRecord) (request : DeploymentCreateRequest) (url : String)
      (r : Result (Unit {0}) × World) (d : DeploymentRecord) (w' : World)
      → continue r.0
          (λ u. ready_deployment host model request (
            noted url
              (resolve_remote_model_name remote host backend_name config model request)
              request.metadata))
          r.1
        ≡ (ok d, w')
      → ready_deployment host model request
          (noted url
            (resolve_remote_model_name remote host backend_name config model request)
            request.metadata)
          r.1
        ≡ (ok d, w')
  checked model request url (ok u, w) d w' h = h
  checked model request url (err e, w) d w' h = cc

  resolved :
      (model : ModelRecord) (request : DeploymentCreateRequest) (w : World) (d : DeploymentRecord)
      (w' : World) (url : String)
      → resolve_base_url remote host backend_name config request ≡ ok url
      → deploy remote host backend_name config model request w ≡ (ok d, w')
      → continue
          (remote.check_health url w).0
          (λ u. ready_deployment host model request (
            noted url
              (resolve_remote_model_name remote host backend_name config model request)
              request.metadata))
          (remote.check_health url w).1
        ≡ (ok d, w')
  unfolding deploy
  resolved model request w d w' url e h = rw e at h

  -- A deployment that is made is ready, and its metadata lead `generate` to the checked server, under
  -- the resolved name of the model, if its resolved address is not empty and a text is its own `str`.
  pub deploy-IsTargeted :
      (model : ModelRecord) (request : DeploymentCreateRequest) (w : World) (d : DeploymentRecord)
      (w' : World) (url : String)
      → ((s : String) → remote.str (text s) ≡ s)
      → resolve_base_url remote host backend_name config request ≡ ok url
      → truthy url ≡ true
      → deploy remote host backend_name config model request w ≡ (ok d, w')
      → IsTargeted url (resolve_remote_model_name remote host backend_name config model request) d
  deploy-IsTargeted model request w d w' url str_text e t h =
      ready-IsTargeted str_text model request url _ t (remote.check_health url w).1 d w' (
        checked model request url (remote.check_health url w) d w'
          (resolved model request w d w' url e h))
