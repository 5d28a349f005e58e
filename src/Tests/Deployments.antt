-- ===== src/Tests/Deployments.antt =====
-- The reading of a deployment, at a concrete document.
use up2date_cpp.Base.{◌≡◌, refl, true, [], ◌∷◌, arith}
use up2date_cpp.Base.Int.{pos}
use up2date_cpp.Text.{codes, c_str, equal}
use up2date_cpp.Text.Scan.{to_string}
use up2date_cpp.Outcome.{ok, ◌>>=◌}
use up2date_cpp.Tests.Library.{words, knowing}
use up2date_cpp.Tests.World.{body}
use up2date_cpp.Tests.Documents.{chunk, chunks, plan, deployment}
use up2date_cpp.Ddi.Payload.{each}
use up2date_cpp.Ddi.Payload.Deployment.{read_chunk, deployment_base_from}
use up2date_cpp.Ddi.Payload.Deployment.Reads.{Deploys, deployment_base_from-Deploys}

deployment-Deploys :
    Deploys (knowing deployment) body 5 (codes "forced") (codes "attempt") (chunk ∷ [])
unfolding equal c_str to_string
deployment-Deploys = record {
  document = deployment;
  deployment = plan;
  id_value = words (codes "5");
  update_value = words (codes "forced");
  download_value = words (codes "attempt");
  array = chunks;
  parsed = refl;
  id_found = refl;
  id_text = refl;
  deployment_found = refl;
  update_found = refl;
  update_text = refl;
  download_found = refl;
  download_text = refl;
  window_found = refl;
  array_found = refl;
  elements = refl;
}

deployment_example : deployment_base_from (knowing deployment) body ≡ (
    each (read_chunk (knowing deployment)) (chunk ∷ []) >>= λ parts. ok (record {
      id = pos 5;
      download_type = c_str (codes "attempt");
      update_type = c_str (codes "forced");
      in_maintenance_window = true;
      chunks = parts;
    }))
deployment_example =
    deployment_base_from-Deploys (knowing deployment) body 5 (codes "forced") (codes "attempt")
      (chunk ∷ []) deployment-Deploys (omega arith)
