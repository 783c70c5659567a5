-- ===== src/Kubernetes/Setup/Closed.antt =====
-- The backend that NewBackend makes watches the context that it was given.
use hegel.Base.{◌≡◌, sym, ap, Bool}
use hegel.Errors.{ok}
use hegel.Errors.Bind.{bind-ok, ok_injective}
use hegel.Kubernetes.{Backend}
use hegel.Kubernetes.Setup.{Kube, Config, load_unless, make_cluster, register_index, new_backend}

pub new_backend-closed :
    (k : Kube) (closed : Bool) (cfg : Config k.RestConfig) (b : Backend)
    → new_backend k closed cfg ≡ ok b
    → b.closed ≡ closed
unfolding new_backend
new_backend-closed k closed cfg b h =
    let (loaded, l, h1) = bind-ok (load_unless k cfg.rest_config cfg) _ b h in
    let (clstr, c, h2) = bind-ok (make_cluster k loaded) _ b h1 in
    let (indexed, i, h3) = bind-ok (register_index k clstr) _ b h2 in
    sym (ap (λ (x : Backend). x.closed) (ok_injective _ b h3))
